-- ===== src/Service/Resets.antt =====
-- A reset of the counts, from the request to the counters of all the pods; and one nobody asked for.
use Prim.Native.String.{◌++◌ as concat}
use package.text.Mathlib.Text.{starts_with}
use package.text.Mathlib.TextPositions.{starts_with-append}
use offlinepush.Base.{
  true, if◌then◌else◌, ◌≡◌, refl, ap, ◌∙◌, List, [], ◌∷◌, String, Option, none, some, false, All,
  arith,
}
use offlinepush.Base.Result.{Error, Result, ok, err}
use offlinepush.Config.{RegisterConfig}
use offlinepush.Json.{Codec}
use offlinepush.Registry.{ServiceInstance}
use offlinepush.Base.Int.{pos}
use offlinepush.Base.Int64.{wrap64}
use offlinepush.Counter.{Counter, new_counter, reset_key, on_resets, listen_reset, Access, accesses}
use offlinepush.Counter.Counting.{KeepsPushed, count_pushed, pushed_since, zero_add}
use offlinepush.Etcd
use offlinepush.Etcd.{
  Client, instance_key, put_marshaled, register, WatchEvent, WatchResponse, convert, convert_all,
  subscribe,
}
use offlinepush.Etcd.Watching.{reported}
use offlinepush.Service.{reset_instance, reset_counter}
use offlinepush.Service.Web.{Response, text, done, status_ok, reset_count}

-- What etcd reports of one event.
abbrev pub one_event : WatchEvent → WatchResponse
one_event e = record { canceled = false; failure = none; events = e ∷ [] }

-- What a watch of all keys with a prefix reports of the events of etcd's keys, as etcd documents it.
abbrev pub watched : String → List (String × WatchEvent) → List WatchResponse
watched prefix [] = []
watched prefix ((k, e) ∷ kvs) =
    let rest = watched prefix kvs in if starts_with k prefix then one_event e ∷ rest else rest

zero_wraps : pos 0 ≡ wrap64 (pos 0)
unfolding wrap64
zero_wraps = refl

one_event-resets :
    (codec : Codec ServiceInstance) (e : WatchEvent) (c : Counter)
    → listen_reset (ok (subscribe codec (one_event e ∷ []))) c ≡ new_counter
unfolding listen_reset subscribe convert_all
one_event-resets codec e c = refl

-- `ListenReset` takes any event on its channel for a reset: whatever etcd reports under the write key,
-- also that the key is gone because the lease of the pod that asked for the last reset has ended,
-- every other pod forgets its pushes of before, and then counts only those that follow.
pub any_event_forgets :
    (codec : Codec ServiceInstance) (e : WatchEvent) (c : Counter) (before after : List Access)
    → All KeepsPushed after
    → (accesses
        (listen_reset (ok (subscribe codec (one_event e ∷ []))) (accesses c before))
        after).pushed_count
      ≡ wrap64 (pos (count_pushed after))
any_event_forgets codec e c before after keeps =
    ap (λ (d : Counter). (accesses d after).pushed_count)
      (one_event-resets codec e (accesses c before))
    ∙ (pushed_since after new_counter (pos 0) keeps zero_wraps
        ∙ ap wrap64 (zero_add (pos (count_pushed after))))

module _ {W : Type 0} (client : Client W) (codec : Codec ServiceInstance)
    (cfg : RegisterConfig) where
  stored :
      (ins : ServiceInstance) (r : Result String) (w w' : W)
      → codec.marshal ins ≡ r
      → put_marshaled client codec (instance_key ins) r w ≡ (none, w')
      → (v : String) × (codec.marshal ins ≡ ok v) × (client.put (instance_key ins) v w ≡ (none, w'))
  unfolding put_marshaled
  stored ins (err e) w w' made h = cc
  stored ins (ok v) w w' made h = (v, made, h)

  both_parts : (r : Option Error × W) {e : Option Error} {w : W} → r.0 ≡ e → r.1 ≡ w → r ≡ (e, w)
  both_parts r h k = ground (arith, h, k)

  done_none :
      {A : Type 0} (e : Option Error) (s : String) → done {A = A} e ≡ text status_ok s → e ≡ none
  unfolding done
  done_none none s h = refl
  done_none (some e) s h = cc

  -- The counter of a pod that listens, after events of etcd's keys.
  abbrev pub after_events : List (String × WatchEvent) → Counter → Counter
  after_events kvs c = listen_reset (ok (subscribe codec (watched (reset_key cfg) kvs))) c

  -- Events at other keys leave a counter as it is.
  elsewhere_kept :
      (kvs : List (String × WatchEvent)) (c : Counter)
      → All (λ (kv : String × WatchEvent). starts_with kv.0 cfg.write_count_key ≡ false) kvs
      → after_events kvs c ≡ c
  unfolding reset_key listen_reset on_resets subscribe
  elsewhere_kept [] c h = refl
  elsewhere_kept ((k, e) ∷ kvs) c (other, h) = rw other (elsewhere_kept kvs c h)

  reset_seen :
      (key : String) (e : WatchEvent) (kvs : List (String × WatchEvent)) (c : Counter)
      → starts_with key cfg.write_count_key ≡ true
      → All (λ (kv : String × WatchEvent). starts_with kv.0 cfg.write_count_key ≡ false) kvs
      → after_events ((key, e) ∷ kvs) c ≡ new_counter
  unfolding reset_key listen_reset on_resets subscribe convert_all
  reset_seen key e kvs c same h = rw same (elsewhere_kept kvs new_counter h)

  -- If POST /count is answered with success, then a text of the reset was put under the write key
  -- and a slash, as the last call of etcd. A pod that listens, whatever its counts, has both at zero
  -- once etcd has reported this put, and also after any further events whose keys do not begin with
  -- the write key, as uploads of counts; such events alone change no count.
  pub posted_reset_clears :
      (w w' : W) (kvs : List (String × WatchEvent))
      → reset_count (Etcd.registry client codec) cfg w ≡ (text status_ok "success", w')
      → All (λ (kv : String × WatchEvent). starts_with kv.0 cfg.write_count_key ≡ false) kvs
      → let key = concat cfg.write_count_key "/" in
        (v : String) × (codec.marshal (reset_instance cfg) ≡ ok v)
        × (client.put key v w ≡ (none, w'))
        × ((c : Counter)
            → (after_events kvs c ≡ c)
              × (after_events ((key, reported (reset_instance cfg, v)) ∷ kvs) c ≡ new_counter))
  unfolding reset_count reset_counter register reset_instance
  posted_reset_clears w w' kvs answered others =
      let (v, made, put_) =
        stored (reset_instance cfg) (codec.marshal (reset_instance cfg)) w w' refl (
          both_parts (register client codec (reset_instance cfg) w)
            (done_none _ "success" (ap (λ (a : Response (Unit {0}) × W). a.0) answered))
            (ap (λ (a : Response (Unit {0}) × W). a.1) answered)) in
      (
        v,
        made,
        put_,
        λ c. (
          elsewhere_kept kvs c others,
          reset_seen (concat cfg.write_count_key "/") (reported (reset_instance cfg, v)) kvs c
              (starts_with-append cfg.write_count_key "/") others,
        ),
      )
