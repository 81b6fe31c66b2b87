-- ===== src/Service/Uploads.antt =====
-- The counts of a pod among those of all the others, over the table of instances that etcd keeps.
use text.Mathlib.Text.{starts_with}
use text.Mathlib.TextPositions.{starts_with-append}
use mathlib.Core.List.{Memᴰ}
use mathlib.Core.Option.{some-injective}
use mathlib.Core.Path.{subst}
use offlinepush.Base.{
  ◌≡◌, ◌≢◌, refl, sym, ap, ◌∙◌, List, [], ◌∷◌, ◌++◌, String, Option, none, some, true, ◌=ₛ◌, All,
  arith, eq_iff, eq_refl, Bool-cases, inl, inr,
}
use offlinepush.Base.Dict.{Dict, lookup, insert, delete, lookup-insert, lookup-delete}
use offlinepush.Base.Result.{ok}
use offlinepush.Config.{RegisterConfig}
use offlinepush.Json.{Codec, RoundTrips}
use offlinepush.Registry.{ServiceInstance}
use offlinepush.Counter.{Counter, Access, upload_instance}
use offlinepush.Etcd
use offlinepush.Etcd.{Client, instance_key}
use offlinepush.Etcd.Store.{
  IsStore, Call, registers, unregisters, subject, table, after, AllDone, IsListed,
}
use offlinepush.Etcd.Store.Listed.{list_service-table}
use offlinepush.Service.{collect, counted, get_count}
use offlinepush.Service.Counts.{collect-note}

-- A call about another key.
abbrev pub LeavesKey : String → Call → Type 0
LeavesKey k c = instance_key (subject c) ≢ k

table_kept :
    (k : String) (calls : List Call) (t : Dict ServiceInstance) {o : Option ServiceInstance}
    → All (LeavesKey k) calls
    → lookup k t ≡ o
    → lookup k (table t calls) ≡ o
table_kept k [] t h e = e
table_kept k (registers ins ∷ calls) t (leaves, h) e =
    table_kept k calls (insert (instance_key ins) ins t) h
      (ground (arith, eq_iff (instance_key ins) k, lookup-insert (instance_key ins) k ins t))
table_kept k (unregisters ins ∷ calls) t (leaves, h) e =
    table_kept k calls (delete (instance_key ins) t) h
      (ground (arith, eq_iff (instance_key ins) k, lookup-delete (instance_key ins) k t))

table_last :
    (ins : ServiceInstance) (before later : List Call) (t : Dict ServiceInstance)
    → All (LeavesKey (instance_key ins)) later
    → lookup (instance_key ins) (table t (before ++ (registers ins ∷ later))) ≡ some ins
table_last ins [] later t h =
    table_kept (instance_key ins) later (insert (instance_key ins) ins t) h (
      lookup-insert (instance_key ins) (instance_key ins) ins t
      ∙ rw (eq_refl (instance_key ins)) refl)
table_last ins (registers i ∷ before) later t h =
    table_last ins before later (insert (instance_key i) i t) h
table_last ins (unregisters i ∷ before) later t h =
    table_last ins before later (delete (instance_key i) t) h

-- What holds of an instance that a call registers.
abbrev pub Puts : (ServiceInstance → Type 0) → Call → Type 0
Puts P (registers ins) = P ins
Puts P (unregisters ins) = Unit

-- What holds of all that is registered holds of all in the table.
table_source :
    (P : ServiceInstance → Type 0) (calls : List Call) (t : Dict ServiceInstance)
    → All (Puts P) calls
    → ((k : String) (i : ServiceInstance) → lookup k t ≡ some i → P i)
    → (k : String) (i : ServiceInstance) → lookup k (table t calls) ≡ some i
    → P i
table_source P [] t h held k i found = held k i found
table_source P (registers ins ∷ calls) t (own, h) held key j last =
    table_source P calls (insert (instance_key ins) ins t) h
      (λ k i found. elim (Bool-cases (instance_key ins =ₛ k)) [
        | inl same ↦
            subst P
              (some-injective ins i (rw (lookup-insert (instance_key ins) k ins t, same) at found))
              own
        | inr other_ ↦ held k i (rw (lookup-insert (instance_key ins) k ins t, other_) at found)
      ])
      key j last
table_source P (unregisters ins ∷ calls) t (u, h) held key j last =
    table_source P calls (delete (instance_key ins) t) h
      (λ k i found. elim (Bool-cases (instance_key ins =ₛ k)) [
        | inl same ↦ cc (rw (lookup-delete (instance_key ins) k t, same) at found)
        | inr other_ ↦ held k i (rw (lookup-delete (instance_key ins) k t, other_) at found)
      ])
      key j last

no_entry : {P : Type 0} (k : String) (i : ServiceInstance) → lookup k [] ≡ some i → P
unfolding lookup
no_entry k i found = cc

All-mem :
    {P : ServiceInstance → Type 0} (l : List ServiceInstance)
    → ((i : ServiceInstance) → Memᴰ i l → P i)
    → All P l
All-mem [] h = tt
All-mem (i ∷ l) h = (h i (Memᴰ.head refl), All-mem l (λ j m. h j (Memᴰ.tail m)))

-- An instance under the pod's name whose key begins with the read key is one of its uploads.
abbrev pub IsUpload : RegisterConfig → ServiceInstance → Type 0
IsUpload cfg ins =
    ins.address ≡ cfg.pod_name
    → starts_with (instance_key ins) cfg.read_count_key ≡ true
    → ins.service_name ≡ cfg.read_count_key

module _ {W : Type 0} (client : Client W) (codec : Codec ServiceInstance) (rt : RoundTrips codec)
    (store : IsStore client) (cfg : RegisterConfig) where
  -- The uploads of a pod have one key.
  same_key :
      (c : Counter) (between : List Access) (i : ServiceInstance)
      → i.address ≡ cfg.pod_name
      → i.service_name ≡ cfg.read_count_key
      → instance_key i ≡ instance_key (upload_instance cfg c between)
  unfolding upload_instance
  same_key c between i a s = rw (a, s) refl

  only_upload :
      (c : Counter) (between : List Access) (t : Dict ServiceInstance) (i : ServiceInstance)
      → lookup (instance_key (upload_instance cfg c between)) t
        ≡ some (upload_instance cfg c between)
      → IsUpload cfg i
      → IsListed t cfg.read_count_key i
      → i.address ≡ cfg.pod_name
      → i ≡ upload_instance cfg c between
  only_upload c between t i last own (inside, held) a =
      some-injective i (upload_instance cfg c between) (
        sym held ∙ (ap (λ (k : String). lookup k t) (same_key c between i a (own a inside)) ∙ last))

  get_count_listed :
      (w : W) (l : List ServiceInstance)
      → (Etcd.list_service client codec cfg.read_count_key w).0 ≡ ok l
      → (get_count (Etcd.registry client codec) cfg w).0 ≡ (collect l [], none)
  unfolding get_count counted
  get_count_listed w l listed = rw listed refl

  -- The pods share one etcd, which was empty at first, and their calls of `Register` and
  -- `UnRegister`, in any order, have returned no error. The pod has uploaded its counts, and
  -- later nothing was registered or unregistered under the same key. Then `GetCount`, unless
  -- etcd answers its get with an error, returns no error and gives for the pod the text of the
  -- two counts that `Upload` loaded one after the other, whatever the other pods have uploaded, reset or registered: under the
  -- pod's own name nothing but its uploads is registered at keys that begin with the read key.
  -- Instances are read back from the texts that they are marshaled to, and etcd keeps what its
  -- documentation says of puts, deletes and gets.
  pub get_count-uploads :
      (c : Counter) (between : List Access) (before later : List Call) (w : W) (kvs : List String)
      → let ins = upload_instance cfg c between in
        let calls = before ++ (registers ins ∷ later) in
        let w' = after client codec calls w in
        store.view w ≡ []
        → AllDone client codec calls w
        → All (LeavesKey (instance_key ins)) later
        → All (Puts (IsUpload cfg)) calls
        → (client.get_prefix cfg.read_count_key w').0 ≡ ok kvs
        → (mp : Dict String) × ((get_count (Etcd.registry client codec) cfg w').0 ≡ (mp, none))
          × (lookup cfg.pod_name mp ≡ some ins.note)
  unfolding upload_instance
  get_count-uploads c between before later w kvs empty good leaves own got =
      let ins = upload_instance cfg c between in
      let calls = before ++ (registers ins ∷ later) in
      let (l, listed, exactly) =
        list_service-table client codec rt store calls cfg.read_count_key w kvs empty good got in
      let last = table_last ins before later [] leaves in
      let source = table_source (IsUpload cfg) calls [] own (λ k i found. no_entry k i found) in
      let there = (exactly ins).1 (starts_with-append cfg.read_count_key _, last) in
      (
        collect l [],
        get_count_listed (after client codec calls w) l listed,
        collect-note ins l []
            (All-mem l (λ i m.
              only_upload c between (table [] calls) i last
                (source (instance_key i) i ((exactly i).0 m).1) ((exactly i).0 m)))
            there,
      )
