-- ===== src/Json/Framed.antt =====
-- A simple text format that round-trips, to show that `RoundTrips` can hold: each character of a
-- field is preceded by a mark, and another mark ends the field.
use Prim.Native.Char.{Char, code}
use Prim.Native.String.{String}
use offlinepush.Base.{
  ℕ, zero, suc, ◌≡◌, refl, ap, Option, none, some, Bool, true, false, ◌==◌, if◌then◌else◌,
}
use offlinepush.Base.Result.{Error, ok, other}
use offlinepush.Interceptor.{Pair}
use offlinepush.Json.{Codec, RoundTrips}
use offlinepush.Registry.{ServiceInstance, no_instance}

abbrev pub more : Char
more = "1"

abbrev pub stop : Char
stop = "0"

unfoldable pub is_more : Char → Bool
is_more c = code c == 49

-- a field and what follows it
abbrev pub frame : String → String → String
frame String.[] rest = String.◌∷◌ stop rest
frame (String.◌∷◌ c s) rest = String.◌∷◌ more (String.◌∷◌ c (frame s rest))

abbrev prefix : Char → Option (String × String) → Option (String × String)
prefix c none = none
prefix c (some (s, rest)) = some (String.◌∷◌ c s, rest)

unfoldable pub unframe : String → Option (String × String)
unfolding is_more
unframe String.[] = none
unframe (String.◌∷◌ m String.[]) = if is_more m then none else some ("", "")
unframe (String.◌∷◌ m (String.◌∷◌ c s)) =
    if is_more m then prefix c (unframe s) else some ("", String.◌∷◌ c s)

pub unframe-frame : (s rest : String) → unframe (frame s rest) ≡ some (s, rest)
unfolding is_more unframe
unframe-frame String.[] String.[] = refl
unframe-frame String.[] (String.◌∷◌ c rest) = refl
unframe-frame (String.◌∷◌ c s) rest = ap (prefix c) (unframe-frame s rest)

-- a number, in unary
abbrev pub frame_nat : ℕ → String → String
frame_nat zero rest = String.◌∷◌ stop rest
frame_nat (suc n) rest = String.◌∷◌ more (frame_nat n rest)

abbrev succ : Option (ℕ × String) → Option (ℕ × String)
succ none = none
succ (some (n, rest)) = some (suc n, rest)

unfoldable pub unframe_nat : String → Option (ℕ × String)
unfolding is_more
unframe_nat String.[] = none
unframe_nat (String.◌∷◌ m s) =
    let rest = unframe_nat s in if is_more m then succ rest else some (0, s)

pub unframe_nat-frame_nat :
    (n : ℕ) (rest : String) → unframe_nat (frame_nat n rest) ≡ some (n, rest)
unfolding is_more unframe_nat
unframe_nat-frame_nat zero rest = refl
unframe_nat-frame_nat (suc n) rest = ap succ (unframe_nat-frame_nat n rest)

abbrev pub unreadable : Error
unreadable = other "invalid character"

abbrev pub read_pair : String → Pair × Option Error
unfolding is_more
read_pair String.[] = (record { biz = ""; status = false }, some unreadable)
read_pair (String.◌∷◌ c s) = (record { biz = s; status = is_more c }, none)

abbrev pub pair_codec : Codec Pair
pair_codec = record {
  marshal = λ p. ok (String.◌∷◌ (if p.status then more else stop) p.biz);
  unmarshal = read_pair;
}

abbrev pub read_weight : String → String → Option (ℕ × String) → ServiceInstance × Option Error
read_weight a s none = (no_instance, some unreadable)
read_weight a s (some (n, rest)) =
    (record { address = a; service_name = s; weight = n; note = rest }, none)

abbrev pub read_name : String → Option (String × String) → ServiceInstance × Option Error
read_name a none = (no_instance, some unreadable)
read_name a (some (s, rest)) = read_weight a s (unframe_nat rest)

abbrev pub read_instance : Option (String × String) → ServiceInstance × Option Error
read_instance none = (no_instance, some unreadable)
read_instance (some (a, rest)) = read_name a (unframe rest)

abbrev pub instance_codec : Codec ServiceInstance
instance_codec = record {
  marshal = λ i. ok (frame i.address (frame i.service_name (frame_nat i.weight i.note)));
  unmarshal = λ s. read_instance (unframe s);
}

read_back :
    (i : ServiceInstance)
    → instance_codec.unmarshal (frame i.address (frame i.service_name (frame_nat i.weight i.note)))
      ≡ (i, none)
read_back i =
    let rest = frame_nat i.weight i.note in
    rw (unframe-frame i.address (frame i.service_name rest))
      (rw (unframe-frame i.service_name rest) (rw (unframe_nat-frame_nat i.weight i.note) refl))

ok_injective : {a b : String} → ok a ≡ ok b → a ≡ b
ok_injective h = cc

pub instance_codec-RoundTrips : RoundTrips instance_codec
instance_codec-RoundTrips = record { back = λ i s h. rw (← ok_injective h) (read_back i) }

flag_back :
    (b : Bool) (s : String)
    → read_pair (String.◌∷◌ (if b then more else stop) s) ≡ (record { biz = s; status = b }, none)
unfolding is_more
flag_back true s = refl
flag_back false s = refl

pub pair_codec-RoundTrips : RoundTrips pair_codec
pair_codec-RoundTrips = record { back = λ p s h. rw (← ok_injective h) (flag_back p.status p.biz) }
