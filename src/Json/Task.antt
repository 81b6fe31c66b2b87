-- ===== src/Json/Task.antt =====
-- The text format of `Framed` for a push configuration.
use Prim.Native.String.{String}
use offlinepush.Base.{
  ℕ, zero, suc, ◌≡◌, refl, ap, Option, none, some, List, [], ◌∷◌, Bool, true, false,
}
use offlinepush.Base.Int.{ℤ, pos, negsuc}
use offlinepush.Base.Result.{Error, ok}
use offlinepush.Config.{PushConfig}
use offlinepush.Json.{Codec, RoundTrips}
use offlinepush.Json.Framed.{
  more, stop, is_more, frame, unframe, unframe-frame, frame_nat, unframe_nat, unframe_nat-frame_nat,
  unreadable,
}

-- a reader gives what it read and what is left
abbrev Reader : Type 0 → Type 0
Reader A = String → Option (A × String)

abbrev bind : {A B : Type 0} → Option (A × String) → (A → Reader B) → Option (B × String)
bind none f = none
bind (some (a, rest)) f = f a rest

abbrev frame_int : ℤ → String → String
frame_int (pos n) rest = String.◌∷◌ stop (frame_nat n rest)
frame_int (negsuc n) rest = String.◌∷◌ more (frame_nat n rest)

abbrev signed : Bool → ℕ → Reader ℤ
signed true n rest = some (negsuc n, rest)
signed false n rest = some (pos n, rest)

abbrev unframe_int : Reader ℤ
unframe_int String.[] = none
unframe_int (String.◌∷◌ c s) = bind (unframe_nat s) (signed (is_more c))

unframe_int-frame_int : (a : ℤ) (rest : String) → unframe_int (frame_int a rest) ≡ some (a, rest)
unfolding is_more
unframe_int-frame_int (pos n) rest =
    ap (λ (o : Option (ℕ × String)). bind o (signed false)) (unframe_nat-frame_nat n rest)
unframe_int-frame_int (negsuc n) rest =
    ap (λ (o : Option (ℕ × String)). bind o (signed true)) (unframe_nat-frame_nat n rest)

abbrev count : List String → ℕ
count [] = 0
count (s ∷ ss) = suc (count ss)

abbrev frame_all : List String → String → String
frame_all [] rest = rest
frame_all (s ∷ ss) rest = frame s (frame_all ss rest)

abbrev unframe_all : ℕ → Reader (List String)
unframe_all zero rest = some ([], rest)
unframe_all (suc n) s =
    bind (unframe s) (λ a rest. bind (unframe_all n rest) (λ ss later. some (a ∷ ss, later)))

unframe_all-frame_all :
    (ss : List String) (rest : String)
    → unframe_all (count ss) (frame_all ss rest) ≡ some (ss, rest)
unframe_all-frame_all [] rest = refl
unframe_all-frame_all (s ∷ ss) rest =
    rw (unframe-frame s (frame_all ss rest), unframe_all-frame_all ss rest) refl

abbrev pub encode : PushConfig → String
encode c = frame c.topic.name (
    frame c.topic.domain (
      frame_nat (count c.device_type_list)
        (frame_all c.device_type_list (frame c.cron (frame_int c.qps (frame_int c.num ""))))))

abbrev decode : Reader PushConfig
decode s = bind (unframe s) (λ name r. bind (unframe r) (λ domain r. bind (unframe_nat r) (λ n r.
    bind (unframe_all n r) (λ types r. bind (unframe r) (λ cron r. bind (unframe_int r) (λ qps r.
      bind (unframe_int r) (λ num r. some (
        record {
          topic = record { name = name; domain = domain };
          device_type_list = types;
          cron = cron;
          qps = qps;
          num = num;
        },
        r,
      ))))))))

abbrev no_config : PushConfig
no_config = record {
  topic = record { name = ""; domain = "" };
  device_type_list = [];
  cron = "";
  qps = pos 0;
  num = pos 0;
}

abbrev read_config : Option (PushConfig × String) → PushConfig × Option Error
read_config none = (no_config, some unreadable)
read_config (some (c, rest)) = (c, none)

abbrev pub config_codec : Codec PushConfig
config_codec = record { marshal = λ c. ok (encode c); unmarshal = λ s. read_config (decode s) }

read_back : (c : PushConfig) → read_config (decode (encode c)) ≡ (c, none)
read_back c = rw (unframe-frame c.topic.name) (
    rw (unframe-frame c.topic.domain) (
      rw (unframe_nat-frame_nat (count c.device_type_list)) (
        rw (unframe_all-frame_all c.device_type_list) (
          rw (unframe-frame c.cron)
            (rw (unframe_int-frame_int c.qps) (rw (unframe_int-frame_int c.num) refl))))))

ok_injective : {a b : String} → ok a ≡ ok b → a ≡ b
ok_injective h = cc

pub config_codec-RoundTrips : RoundTrips config_codec
config_codec-RoundTrips = record { back = λ c s h. rw (← ok_injective h) (read_back c) }
