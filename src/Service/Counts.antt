-- ===== src/Service/Counts.antt =====
-- The counts that the pods upload, as they are listed.
use text.Mathlib.Text.{starts_with}
use text.Mathlib.TextPositions.{starts_with-append}
use mathlib.Core.List.{Memᴰ}
use offlinepush.Base.{
  ◌≡◌, ◌≢◌, refl, List, [], ◌∷◌, String, true, none, some, All, ap, ◌∙◌, ◌=ₛ◌, Bool-cases, inl, inr,
  eq_iff, arith, eq_refl,
}
use offlinepush.Base.Dict.{Dict, lookup, insert, lookup-insert}
use offlinepush.Base.Result.{Result, ok, err}
use offlinepush.Config.{RegisterConfig}
use offlinepush.Json.{Codec, RoundTrips}
use offlinepush.Registry.{ServiceInstance}
use offlinepush.Counter.{Counter, Access, upload_instance, upload}
use offlinepush.Etcd
use offlinepush.Etcd.{Client, instance_key}
use offlinepush.Etcd.Listing.{ReadsPuts, register_lists}
use offlinepush.Service.{collect, counted, reset_instance, reset_counter, get_count}

collect-keeps :
    (l : List ServiceInstance) (res : Dict String) (a : String)
    → lookup a res ≢ none
    → lookup a (collect l res) ≢ none
unfolding collect
collect-keeps [] res a h = h
collect-keeps (sv ∷ l) res a h =
    collect-keeps l (insert sv.address sv.note res) a
      (ground (arith, lookup-insert sv.address a sv.note res))

collect-mem :
    (ins : ServiceInstance) (l : List ServiceInstance) (res : Dict String)
    → Memᴰ ins l
    → lookup ins.address (collect l res) ≢ none
unfolding collect
collect-mem ins [] res m = elim m [ ]
collect-mem ins (sv ∷ l) res (Memᴰ.head same) =
    collect-keeps l (insert sv.address sv.note res) ins.address
      (ground (arith, same, lookup-insert sv.address sv.address sv.note res, eq_refl sv.address))
collect-mem ins (sv ∷ l) res (Memᴰ.tail m) = collect-mem ins l (insert sv.address sv.note res) m

counted_inversion :
    (r : Result (List ServiceInstance)) (mp : Dict String)
    → counted r ≡ (mp, none)
    → (l : List ServiceInstance) × (r ≡ ok l) × (mp ≡ collect l [])
unfolding counted
counted_inversion (err e) mp h = cc
counted_inversion (ok l) mp h = (l, refl, cc)

-- Where every instance listed under an address is the same, the map has its note.
collect-same :
    (ins : ServiceInstance) (l : List ServiceInstance) (res : Dict String)
    → All (λ (i : ServiceInstance). i.address ≡ ins.address → i ≡ ins) l
    → lookup ins.address res ≡ some ins.note
    → lookup ins.address (collect l res) ≡ some ins.note
unfolding collect
collect-same ins [] res alike h = h
collect-same ins (sv ∷ l) res (same, alike) h =
    collect-same ins l (insert sv.address sv.note res) alike
      (elim (Bool-cases (sv.address =ₛ ins.address)) [
        | inl here ↦
            (let is = same ((eq_iff sv.address ins.address).0 here) in
              lookup-insert sv.address ins.address sv.note res
              ∙ rw here (ap (λ (i : ServiceInstance). some i.note) is))
        | inr other ↦ lookup-insert sv.address ins.address sv.note res ∙ rw other h
      ])

pub collect-note :
    (ins : ServiceInstance) (l : List ServiceInstance) (res : Dict String)
    → All (λ (i : ServiceInstance). i.address ≡ ins.address → i ≡ ins) l
    → Memᴰ ins l
    → lookup ins.address (collect l res) ≡ some ins.note
unfolding collect
collect-note ins [] res alike m = elim m [ ]
collect-note ins (sv ∷ l) res (same, alike) (Memᴰ.head is) =
    collect-same ins l (insert sv.address sv.note res) alike
      (ground (arith, is, lookup-insert sv.address sv.address sv.note res, eq_refl sv.address))
collect-note ins (sv ∷ l) res (same, alike) (Memᴰ.tail m) =
    collect-note ins l (insert sv.address sv.note res) alike m

module _ {W : Type 0} (client : Client W) (codec : Codec ServiceInstance) (reads : ReadsPuts client)
    (rt : RoundTrips codec) (cfg : RegisterConfig) where
  -- What a pod has registered under a service whose keys begin with the read key is in the map of
  -- `GetCount`, if that returns no error.
  listed_counts :
      (ins : ServiceInstance) (w : W) (mp : Dict String)
      → starts_with (instance_key ins) cfg.read_count_key ≡ true
      → (Etcd.register client codec ins w).0 ≡ none
      → (get_count (Etcd.registry client codec) cfg (Etcd.register client codec ins w).1).0
        ≡ (mp, none)
      → lookup ins.address mp ≢ none
  unfolding get_count
  listed_counts ins w mp within stored got =
      let w' = (Etcd.register client codec ins w).1 in
      let (l, listed, is) =
        counted_inversion (Etcd.list_service client codec cfg.read_count_key w').0 mp got in
      let mem =
        register_lists client codec reads rt ins cfg.read_count_key w l within stored listed in
      rw is (collect-mem ins l [] mem)

  -- If etcd's gets read what was put, instances are read back from their texts, and the key of a
  -- reset begins with the read key, as the two configurations have it, then after a reset that
  -- returns no error the map of `GetCount` has an entry for the address "", which is no pod, unless
  -- it returns an error.
  pub reset_is_counted :
      (w : W) (mp : Dict String)
      → starts_with (instance_key (reset_instance cfg)) cfg.read_count_key ≡ true
      → (reset_counter (Etcd.registry client codec) cfg w).0 ≡ none
      → (get_count
          (Etcd.registry client codec)
          cfg
          (reset_counter (Etcd.registry client codec) cfg w).1).0
        ≡ (mp, none)
      → lookup "" mp ≢ none
  unfolding reset_counter
  reset_is_counted w mp within stored got =
      listed_counts (reset_instance cfg) w mp within stored got

  -- If etcd's gets read what was put and instances are read back from their texts, then after an
  -- upload that returns no error, `GetCount` gives for the pod the text with both of its counts, if
  -- it returns no error and lists no other instance under the pod's name.
  pub upload-get_count :
      (c : Counter) (between : List Access) (w : W) (l : List ServiceInstance)
      → let rg = Etcd.registry client codec in
        let ins = upload_instance cfg c between in
        let w' = (upload rg cfg c between w).1 in
        (upload rg cfg c between w).0 ≡ none
        → (rg.list_service cfg.read_count_key w').0 ≡ ok l
        → All (λ (i : ServiceInstance). i.address ≡ cfg.pod_name → i ≡ ins) l
        → ((get_count rg cfg w').0.1 ≡ none)
          × (lookup cfg.pod_name (get_count rg cfg w').0.0 ≡ some ins.note)
  unfolding upload upload_instance get_count counted
  upload-get_count c between w l stored listed alike =
      let ins = upload_instance cfg c between in
      let w' = (Etcd.register client codec ins w).1 in
      let mem =
        register_lists client codec reads rt ins cfg.read_count_key w l
          (starts_with-append cfg.read_count_key _) stored listed in
      rw listed (refl, collect-note ins l [] alike mem)
