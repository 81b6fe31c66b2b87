-- ===== src/Etcd/Store/Entries.antt =====
-- The pairs of a store, and the instances that their values are read into.
use text.Mathlib.Text.{starts_with}
use mathlib.Core.List.{Memᴰ}
use mathlib.Core.Option.{some-injective}
use offlinepush.Base.{
  ◌≡◌, refl, sym, ap, ◌∙◌, List, [], ◌∷◌, String, Option, none, some, true, false, ◌=ₛ◌, contains,
  All, arith, eq_iff, eq_refl, Bool-cases, inl, inr,
}
use offlinepush.Base.Counts.{IsDistinct}
use offlinepush.Base.Dict.{Dict, lookup, insert, delete, keys, lookup-insert, lookup-delete}
use offlinepush.Base.Result.{ok}
use offlinepush.Json.{Codec, RoundTrips}
use offlinepush.Registry.{ServiceInstance}
use offlinepush.Etcd.{instance_key, decode_next, decode_all}
use offlinepush.Etcd.Store.{values, Call, registers, unregisters, table, Made, Fits, IsListed}

-- Each instance stands under its own key.
abbrev pub IsKeyed : Dict ServiceInstance → Type 0
IsKeyed t = (k : String) (ins : ServiceInstance) → lookup k t ≡ some ins → k ≡ instance_key ins

insert-IsKeyed :
    (ins : ServiceInstance) (t : Dict ServiceInstance)
    → IsKeyed t
    → IsKeyed (insert (instance_key ins) ins t)
insert-IsKeyed ins t h k i found = elim (Bool-cases (instance_key ins =ₛ k)) [
  | inl same ↦
      sym ((eq_iff (instance_key ins) k).0 same)
      ∙ ap instance_key
          (some-injective ins i (rw (lookup-insert (instance_key ins) k ins t, same) at found))
  | inr other_ ↦ h k i (rw (lookup-insert (instance_key ins) k ins t, other_) at found)
]

delete-IsKeyed : (key : String) (t : Dict ServiceInstance) → IsKeyed t → IsKeyed (delete key t)
delete-IsKeyed key t h k i found = elim (Bool-cases (key =ₛ k)) [
  | inl same ↦ cc (rw (lookup-delete key k t, same) at found)
  | inr other_ ↦ h k i (rw (lookup-delete key k t, other_) at found)
]

pub table-IsKeyed :
    (calls : List Call) (t : Dict ServiceInstance) → IsKeyed t → IsKeyed (table t calls)
table-IsKeyed [] t h = h
table-IsKeyed (registers ins ∷ calls) t h =
    table-IsKeyed calls (insert (instance_key ins) ins t) (insert-IsKeyed ins t h)
table-IsKeyed (unregisters ins ∷ calls) t h =
    table-IsKeyed calls (delete (instance_key ins) t) (delete-IsKeyed (instance_key ins) t h)

-- A key that is found stands in the list, and its value among those of any of its prefixes.
pub lookup-values :
    (k prefix v : String) (m : Dict String)
    → lookup k m ≡ some v
    → starts_with k prefix ≡ true
    → Memᴰ v (values prefix m)
unfolding lookup
lookup-values k prefix v [] found within = cc
lookup-values k prefix v ((j, u) ∷ m) found within = elim (Bool-cases (j =ₛ k)) [
  | inl same ↦
      (let is : u ≡ v = cc (rw same at found) in
        let inside : starts_with j prefix ≡ true = rw ((eq_iff j k).0 same) within in
        rw inside (Memᴰ.head (sym is)))
  | inr other_ ↦ elim (Bool-cases (starts_with j prefix)) [
    | inl inside ↦ rw inside (Memᴰ.tail (lookup-values k prefix v m (rw other_ at found) within))
    | inr outside ↦ rw outside (lookup-values k prefix v m (rw other_ at found) within)
  ]
]

-- The pairs of a store, each with the instance that the table has under its key.
abbrev pub Entry : Codec ServiceInstance → Dict ServiceInstance → String × String → Type 0
Entry codec t (k, v) =
    (ins : ServiceInstance) × (codec.marshal ins ≡ ok v) × (lookup k t ≡ some ins)

-- Where an instance that is listed comes from.
abbrev pub Source : Dict ServiceInstance → String → ServiceInstance → Type 0
Source t prefix ins = (k : String) × (starts_with k prefix ≡ true) × (lookup k t ≡ some ins)

pub Source-IsListed :
    (t : Dict ServiceInstance) (prefix : String) (ins : ServiceInstance)
    → IsKeyed t
    → Source t prefix ins
    → IsListed t prefix ins
Source-IsListed t prefix ins keyed (k, inside, held) =
    let same = keyed k ins held in
    (
      sym (ap (λ (j : String). starts_with j prefix) same) ∙ inside,
      sym (ap (λ (j : String). lookup j t) same) ∙ held,
    )

Source-cons :
    (t : Dict ServiceInstance) (prefix k : String) (ins : ServiceInstance)
    (found : List ServiceInstance)
    → starts_with k prefix ≡ true
    → lookup k t ≡ some ins
    → ((i : ServiceInstance) → Memᴰ i found → Source t prefix i)
    → (i : ServiceInstance) → Memᴰ i (ins ∷ found)
    → Source t prefix i
Source-cons t prefix k ins found inside held source i (Memᴰ.head same) =
    (k, inside, held ∙ ap (λ (x : ServiceInstance). some x) (sym same))
Source-cons t prefix k ins found inside held source i (Memᴰ.tail m) = source i m

lookup_head : (k v : String) (m : Dict String) → lookup k ((k, v) ∷ m) ≡ some v
unfolding lookup
lookup_head k v m = rw (eq_refl k) refl

lookup_absent : (k : String) (m : Dict String) → contains (keys m) k ≡ false → lookup k m ≡ none
unfolding lookup
lookup_absent k [] h = refl
lookup_absent k ((j, u) ∷ m) h = ground (arith, lookup_absent k m)

lookup_tail :
    (k j v u : String) (m : Dict String)
    → contains (keys m) k ≡ false
    → lookup j m ≡ some u
    → lookup j ((k, v) ∷ m) ≡ some u
unfolding lookup
lookup_tail k j v u m new found = ground (arith, eq_iff k j, lookup_absent k m)

module _ (codec : Codec ServiceInstance) (rt : RoundTrips codec) (t : Dict ServiceInstance) where
  Made-some :
      (o : Option ServiceInstance) (v : String)
      → Made codec (some v) o
      → (ins : ServiceInstance) × (codec.marshal ins ≡ ok v) × (o ≡ some ins)
  Made-some none v h = absurd h
  Made-some (some ins) v h = (ins, h, refl)

  pub Made-back :
      (o : Option String) (ins : ServiceInstance)
      → Made codec o (some ins)
      → (v : String) × (o ≡ some v) × (codec.marshal ins ≡ ok v)
  Made-back none ins h = absurd h
  Made-back (some v) ins h = (v, refl, h)

  pub Fits-entries :
      (whole m : Dict String)
      → Fits codec whole t
      → IsDistinct (keys m)
      → ((k v : String) → lookup k m ≡ some v → lookup k whole ≡ some v)
      → All (Entry codec t) m
  Fits-entries whole [] fits apart within = tt
  Fits-entries whole ((k, v) ∷ m) fits (new, apart) within = (
    Made-some (lookup k t) v (rw (within k v (lookup_head k v m)) at (fits k)),
    Fits-entries whole m fits apart (λ j u found. within j u (lookup_tail k j v u m new found)),
  )

  pub decode_entries :
      (prefix : String) (m : Dict String)
      → All (Entry codec t) m
      → (found : List ServiceInstance) × (decode_all codec (values prefix m) ≡ ok found)
        × ((ins : ServiceInstance) → Memᴰ ins found → Source t prefix ins)
  unfolding decode_all decode_next
  decode_entries prefix [] h = ([], refl, λ ins m. elim m [ ])
  decode_entries prefix ((k, v) ∷ m) ((ins, made, held), h) =
      let (found, decoded, source) = decode_entries prefix m h in
      elim (Bool-cases (starts_with k prefix)) [
        | inl inside ↦
            rw (inside, rt.back ins v made, decoded)
              (ins ∷ found, refl, Source-cons t prefix k ins found inside held source)
        | inr outside ↦ rw outside (found, decoded, source)
      ]
