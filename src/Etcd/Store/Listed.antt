-- ===== src/Etcd/Store/Listed.antt =====
-- `ListService` after calls of the registry that returned no error.
use mathlib.Core.List.{Memᴰ}
use offlinepush.Base.{
  ◌≡◌, ◌↔◌, refl, ap, ◌∙◌, List, [], ◌∷◌, String, none, ◌=ₛ◌, Bool-cases, inl, inr,
}
use offlinepush.Base.Dict.{Dict, lookup, insert, delete, lookup-insert, lookup-delete}
use offlinepush.Base.Result.{Result, ok, err}
use offlinepush.Json.{Codec, RoundTrips}
use offlinepush.Registry.{ServiceInstance}
use offlinepush.Etcd.{
  Client, instance_key, decode_all, decode_response, put_marshaled, register, unregister,
  list_service,
}
use offlinepush.Etcd.Listing.{decode_all-mem}
use offlinepush.Etcd.Store.{
  values, IsStore, Call, registers, unregisters, table, after, AllDone, Fits, IsListed,
}
use offlinepush.Etcd.Store.Entries.{
  IsKeyed, table-IsKeyed, Source-IsListed, lookup-values, Made-back, Fits-entries, decode_entries,
}

module _ {W : Type 0} (client : Client W) (codec : Codec ServiceInstance) (rt : RoundTrips codec)
    (store : IsStore client) where
  register-Fits :
      (ins : ServiceInstance) (r : Result String) (w : W) (t : Dict ServiceInstance)
      → codec.marshal ins ≡ r
      → (put_marshaled client codec (instance_key ins) r w).0 ≡ none
      → Fits codec (store.view w) t
      → Fits codec
          (store.view (put_marshaled client codec (instance_key ins) r w).1)
          (insert (instance_key ins) ins t)
  unfolding put_marshaled
  register-Fits ins (err e) w t made stored fits k = cc
  register-Fits ins (ok v) w t made stored fits k =
      rw (store.puts (instance_key ins) v w stored k, lookup-insert (instance_key ins) k ins t)
        (elim (Bool-cases (instance_key ins =ₛ k)) [
          | inl same ↦ rw same made
          | inr other_ ↦ rw other_ (fits k)
        ])

  unregister-Fits :
      (ins : ServiceInstance) (w : W) (t : Dict ServiceInstance)
      → (unregister client codec ins w).0 ≡ none
      → Fits codec (store.view w) t
      → Fits codec (store.view (unregister client codec ins w).1) (delete (instance_key ins) t)
  unfolding unregister
  unregister-Fits ins w t gone fits k =
      rw (store.deletes (instance_key ins) w gone k, lookup-delete (instance_key ins) k t)
        (elim (Bool-cases (instance_key ins =ₛ k)) [
          | inl same ↦ rw same tt
          | inr other_ ↦ rw other_ (fits k)
        ])

  after-Fits :
      (calls : List Call) (w : W) (t : Dict ServiceInstance)
      → AllDone client codec calls w
      → Fits codec (store.view w) t
      → Fits codec (store.view (after client codec calls w)) (table t calls)
  unfolding register
  after-Fits [] w t good fits = fits
  after-Fits (registers ins ∷ calls) w t (stored, good) fits =
      after-Fits calls (register client codec ins w).1 (insert (instance_key ins) ins t) good
        (register-Fits ins (codec.marshal ins) w t refl stored fits)
  after-Fits (unregisters ins ∷ calls) w t (gone, good) fits =
      after-Fits calls (unregister client codec ins w).1 (delete (instance_key ins) t) good
        (unregister-Fits ins w t gone fits)

  list_service_ok :
      (prefix : String) (w : W) (kvs : List String) (found : List ServiceInstance)
      → (client.get_prefix prefix w).0 ≡ ok kvs
      → decode_all codec kvs ≡ ok found
      → (list_service client codec prefix w).0 ≡ ok found
  unfolding list_service decode_response
  list_service_ok prefix w kvs found got decoded = rw got decoded

  lists :
      (prefix : String) (w : W) (t : Dict ServiceInstance) (kvs : List String)
      → IsKeyed t
      → Fits codec (store.view w) t
      → (client.get_prefix prefix w).0 ≡ ok kvs
      → (found : List ServiceInstance) × ((list_service client codec prefix w).0 ≡ ok found)
        × ((ins : ServiceInstance) → Memᴰ ins found ↔ IsListed t prefix ins)
  lists prefix w t kvs keyed fits got =
      let is = store.gets prefix w kvs got in
      let whole = store.view w in
      let (found, decoded, source) =
        decode_entries codec rt t prefix whole
          (Fits-entries codec rt t whole whole fits (store.single w) (λ k v h. h)) in
      (
        found,
        list_service_ok prefix w kvs found got (ap (decode_all codec) is ∙ decoded),
        λ ins. (
          λ m. Source-IsListed t prefix ins keyed (source ins m),
          λ listed.
              let (v, at, made) =
                Made-back codec rt t (lookup (instance_key ins) whole) ins
                  (rw listed.1 at (fits (instance_key ins))) in
              decode_all-mem codec v ins (values prefix whole) found (rt.back ins v made)
                (lookup-values (instance_key ins) prefix v whole at listed.0) decoded,
        ),
      )

  empty-Fits : (w : W) → store.view w ≡ [] → Fits codec (store.view w) []
  unfolding lookup
  empty-Fits w empty k = rw empty tt

  empty-IsKeyed : IsKeyed []
  unfolding lookup
  empty-IsKeyed k ins h = cc

  -- The pods share one etcd, which was empty at first, and any of their calls of `Register` and
  -- `UnRegister`, in any order, have returned no error. Then `ListService`, unless etcd answers its
  -- get with an error, returns no error, and an instance is in its list exactly when its key has
  -- the prefix that is asked for and it is what was last registered under this key, and not
  -- unregistered since. Instances are read back from the texts that they are marshaled to, and etcd
  -- keeps what its documentation says of puts, deletes and gets.
  pub list_service-table :
      (calls : List Call) (prefix : String) (w : W) (kvs : List String)
      → store.view w ≡ []
      → AllDone client codec calls w
      → (client.get_prefix prefix (after client codec calls w)).0 ≡ ok kvs
      → (found : List ServiceInstance) × ((list_service client codec prefix
            (after client codec calls w)).0
          ≡ ok found)
        × ((ins : ServiceInstance) → Memᴰ ins found ↔ IsListed (table [] calls) prefix ins)
  list_service-table calls prefix w kvs empty good got =
      lists prefix (after client codec calls w) (table [] calls) kvs
        (table-IsKeyed calls [] empty-IsKeyed) (after-Fits calls w [] good (empty-Fits w empty)) got
