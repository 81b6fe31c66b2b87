-- ===== src/Etcd/Store.antt =====
-- The registry over etcd as a table of instances: what is listed is what was registered last under its
-- key and not unregistered since.
mod Entries
pub mod Listed
pub mod Replay
use text.Mathlib.Text.{starts_with}
use mathlib.Core.List.{Memᴰ}
use offlinepush.Base.{
  ◌≡◌, ◌≢◌, refl, sym, ap, ◌∙◌, List, [], ◌∷◌, String, Option, none, some, true, false, ◌=ₛ◌,
  contains, All, arith, eq_iff, eq_refl, Bool-cases, inl, inr, if◌then◌else◌,
}
use offlinepush.Base.Counts.{IsDistinct}
use offlinepush.Base.Dict.{
  Dict, lookup, insert, delete, keys, lookup-insert, lookup-delete, lookup-empty,
}
use offlinepush.Base.Result.{Error, Result, ok, err}
use offlinepush.Json.{Codec, RoundTrips}
use offlinepush.Registry.{ServiceInstance}
use offlinepush.Etcd.{
  Client, instance_key, decode_next, decode_all, decode_response, put_marshaled, register,
  unregister, list_service,
}
use offlinepush.Etcd.Listing.{decode_next_inversion, decode_all-mem}

-- The values of the pairs whose keys have the prefix, in the order of the pairs.
abbrev pub values : String → Dict String → List String
values prefix [] = []
values prefix ((k, v) ∷ w) =
    let rest = values prefix w in if starts_with k prefix then v ∷ rest else rest

-- What etcd's documentation says of a client that nobody else's writes come between: its pairs, in
-- etcd's own order, and what the calls that return no error do to them.
pub record IsStore {W : Type 0} (client : Client W) : Type 0 where
  pub view : W → Dict String
  pub single : (w : W) → IsDistinct (keys (view w))
  pub puts :
      (k v : String) (w : W)
      → (client.put k v w).0 ≡ none
      → (j : String)
      → lookup j (view (client.put k v w).1) ≡ (if k =ₛ j then some v else lookup j (view w))
  pub deletes :
      (k : String) (w : W)
      → (client.delete k w).0 ≡ none
      → (j : String)
      → lookup j (view (client.delete k w).1) ≡ (if k =ₛ j then none else lookup j (view w))
  pub gets :
      (prefix : String) (w : W) (kvs : List String)
      → (client.get_prefix prefix w).0 ≡ ok kvs
      → kvs ≡ values prefix (view w)

-- A call of the registry by any pod.
pub data Call : Type 0 where
  registers unregisters : ServiceInstance → Call

abbrev pub subject : Call → ServiceInstance
subject (registers ins) = ins
subject (unregisters ins) = ins

-- The table: the instance that each key has after the calls.
abbrev pub table : Dict ServiceInstance → List Call → Dict ServiceInstance
table t [] = t
table t (registers ins ∷ calls) = table (insert (instance_key ins) ins t) calls
table t (unregisters ins ∷ calls) = table (delete (instance_key ins) t) calls

-- An instance with the prefix that its key has.
abbrev pub IsListed : Dict ServiceInstance → String → ServiceInstance → Type 0
IsListed t prefix ins =
    (starts_with (instance_key ins) prefix ≡ true) × (lookup (instance_key ins) t ≡ some ins)

module _ {W : Type 0} (client : Client W) (codec : Codec ServiceInstance) where
  abbrev pub call : Call → W → Option Error × W
  call (registers ins) w = register client codec ins w
  call (unregisters ins) w = unregister client codec ins w

  abbrev pub after : List Call → W → W
  after [] w = w
  after (c ∷ calls) w = after calls (call c w).1

  -- Every call has returned no error.
  abbrev pub AllDone : List Call → W → Type 0
  AllDone [] w = Unit
  AllDone (c ∷ calls) w = ((call c w).0 ≡ none) × AllDone calls (call c w).1

module _ (codec : Codec ServiceInstance) where
  -- A value and the instance that it was made of.
  abbrev pub Made : Option String → Option ServiceInstance → Type 0
  Made none none = Unit
  Made none (some ins) = ⊥
  Made (some v) none = ⊥
  Made (some v) (some ins) = codec.marshal ins ≡ ok v

  abbrev pub Fits : Dict String → Dict ServiceInstance → Type 0
  Fits m t = (k : String) → Made (lookup k m) (lookup k t)
