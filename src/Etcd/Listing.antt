-- ===== src/Etcd/Listing.antt =====
-- What is registered is listed, also under a shorter name.
use text.Mathlib.Text.{starts_with}
use mathlib.Core.List.{Memᴰ}
use offlinepush.Base.{
  ◌≡◌, refl, sym, ap, ◌⊎◌, inl, inr, List, [], ◌∷◌, String, Option, none, some, true,
}
use offlinepush.Base.Result.{Error, Result, ok, err}
use offlinepush.Json.{Codec, RoundTrips}
use offlinepush.Registry.{ServiceInstance}
use offlinepush.Etcd.{
  Client, instance_key, decode_next, decode_all, decode_response, put_marshaled, register,
  list_service,
}

-- A put that succeeds is read by every later get whose prefix its key has.
pub record ReadsPuts {W : Type 0} (client : Client W) : Type 0 where
  pub read :
      (k v prefix : String) (w : W) (kvs : List String)
      → (client.put k v w).0 ≡ none
      → starts_with k prefix ≡ true
      → (client.get_prefix prefix (client.put k v w).1).0 ≡ ok kvs
      → Memᴰ v kvs

pub decode_next_inversion :
    (r : ServiceInstance × Option Error) (rest : Result (List ServiceInstance))
    (found : List ServiceInstance)
    → decode_next r rest ≡ ok found
    → (later : List ServiceInstance) × (rest ≡ ok later) × (found ≡ r.0 ∷ later)
unfolding decode_next
decode_next_inversion (ins, some e) rest found h = cc
decode_next_inversion (ins, none) (ok later) found h = (later, refl, cc)
decode_next_inversion (ins, none) (err e) found h = cc

-- A value that is among those listed is read into an instance that is among those returned.
pub decode_all-mem :
    (codec : Codec ServiceInstance) (v : String) (ins : ServiceInstance) (kvs : List String)
    (found : List ServiceInstance)
    → codec.unmarshal v ≡ (ins, none)
    → Memᴰ v kvs
    → decode_all codec kvs ≡ ok found
    → Memᴰ ins found
unfolding decode_all
decode_all-mem codec v ins [] found back m e = elim m [ ]
decode_all-mem codec v ins (x ∷ kvs) found back (Memᴰ.head same) e =
    let (later, rest, is) =
      decode_next_inversion (codec.unmarshal x) (decode_all codec kvs) found e in
    rw is (Memᴰ.head (sym (ap (λ (r : ServiceInstance × Option Error). r.0) (rw same at back))))
decode_all-mem codec v ins (x ∷ kvs) found back (Memᴰ.tail m) e =
    let (later, rest, is) =
      decode_next_inversion (codec.unmarshal x) (decode_all codec kvs) found e in
    rw is (Memᴰ.tail (decode_all-mem codec v ins kvs later back m rest))

decode_response_inversion :
    {W : Type 0} (client : Client W) (codec : Codec ServiceInstance) (r : Result (List String))
    (found : List ServiceInstance)
    → decode_response client codec r ≡ ok found
    → (kvs : List String) × (r ≡ ok kvs) × (decode_all codec kvs ≡ ok found)
unfolding decode_response
decode_response_inversion client codec (err e) found h = cc
decode_response_inversion client codec (ok kvs) found h = (kvs, refl, h)

Result-cases : {A : Type 0} (r : Result A) → ((e : Error) × (r ≡ err e)) ⊎ ((a : A) × (r ≡ ok a))
Result-cases (err e) = inl (e, refl)
Result-cases (ok a) = inr (a, refl)

module _ {W : Type 0} (client : Client W) (codec : Codec ServiceInstance) (reads : ReadsPuts client)
    (rt : RoundTrips codec) where
  register_ok :
      (ins : ServiceInstance) (w : W) {v : String}
      → codec.marshal ins ≡ ok v
      → register client codec ins w ≡ client.put (instance_key ins) v w
  unfolding register put_marshaled
  register_ok ins w made = rw made refl

  register_err :
      (ins : ServiceInstance) (w : W) {e : Error}
      → codec.marshal ins ≡ err e
      → register client codec ins w ≡ (some e, w)
  unfolding register put_marshaled
  register_err ins w failed = rw failed refl

  put_lists :
      (ins : ServiceInstance) (v prefix : String) (w : W) (found : List ServiceInstance)
      → codec.marshal ins ≡ ok v
      → starts_with (instance_key ins) prefix ≡ true
      → (client.put (instance_key ins) v w).0 ≡ none
      → (list_service client codec prefix (client.put (instance_key ins) v w).1).0 ≡ ok found
      → Memᴰ ins found
  unfolding list_service
  put_lists ins v prefix w found made within stored listed =
      let answer = client.get_prefix prefix (client.put (instance_key ins) v w).1 in
      let (kvs, got, decoded) = decode_response_inversion client codec answer.0 found listed in
      decode_all-mem codec v ins kvs found (rt.back ins v made)
        (reads.read (instance_key ins) v prefix w kvs stored within got) decoded

  -- If etcd's gets read what was put and instances are read back from their texts, then after
  -- `Register` returns nil, `ListService` under any prefix of the instance's key, and so under its
  -- service name, returns a list with the instance, if it returns no error.
  pub register_lists :
      (ins : ServiceInstance) (prefix : String) (w : W) (found : List ServiceInstance)
      → starts_with (instance_key ins) prefix ≡ true
      → (register client codec ins w).0 ≡ none
      → (list_service client codec prefix (register client codec ins w).1).0 ≡ ok found
      → Memᴰ ins found
  register_lists ins prefix w found within stored listed = elim (Result-cases (codec.marshal ins)) [
    | inl (e, failed) ↦ cc (rw (register_err ins w failed) at stored)
    | inr (v, made) ↦
        put_lists ins v prefix w found made within (rw (register_ok ins w made) at stored)
          (rw (register_ok ins w made) at listed)
  ]
