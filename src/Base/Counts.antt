-- ===== src/Base/Counts.antt =====
-- How often a name stands in a list, and what lists with equal counts have in common.
use mathlib.Core.Path.{◌≡◌, refl, sym, ap, ◌∙◌}
use mathlib.Core.Bool.{true, false}
use mathlib.Core.List.{List, [], ◌∷◌, ◌++◌, append_assoc}
use Prim.Native.Nat.{ℕ, ◌+◌, ◌<◌}
use Prim.Native.String.{String}
use native.Mathlib.Omega.{arith}
use text.Mathlib.TextEquality.{eq_iff}
use offlinepush.Base.{Bool-cases, inl, inr, if◌then◌else◌}
use offlinepush.Base.Texts.{◌=ₛ◌, contains}
use offlinepush.Base.Bags.{bag, bag_swap, bag-append}

-- No name stands twice in the list.
abbrev pub IsDistinct : List String → Type 0
IsDistinct [] = Unit
IsDistinct (n ∷ ns) = (contains ns n ≡ false) × IsDistinct ns

abbrev pub count : String → List String → ℕ
count s [] = 0
count s (n ∷ ns) = (if n =ₛ s then 1 else 0) + count s ns

pub count_absent : (s : String) (ns : List String) → contains ns s ≡ false → count s ns ≡ 0
count_absent s [] h = refl
count_absent s (n ∷ ns) h = ground (arith, count_absent s ns)

pub count_once :
    (s : String) (ns : List String) → IsDistinct ns → contains ns s ≡ true → count s ns ≡ 1
count_once s (n ∷ ns) (apart, distinct) h = elim (Bool-cases (n =ₛ s)) [
  | inl same ↦ rw same (omega (arith, count_absent s ns (rw ((eq_iff n s).0 same) at apart)))
  | inr other ↦ rw other (omega (arith, count_once s ns distinct (rw other at h)))
]
count_once s [] distinct h = cc

-- In a list without repetition the count says whether the name is there.
pub count-IsDistinct :
    (s : String) (ns : List String) → IsDistinct ns → count s ns ≡ (if contains ns s then 1 else 0)
count-IsDistinct s ns distinct = elim (Bool-cases (contains ns s)) [
  | inl there ↦ rw there (count_once s ns distinct there)
  | inr not_there ↦ rw not_there (count_absent s ns not_there)
]

pub count-append : (s : String) (ms ns : List String) → count s (ms ++ ns) ≡ count s ms + count s ns
count-append s [] ns = omega arith
count-append s (m ∷ ms) ns = omega (arith, count-append s ms ns)

-- A name that is counted stands somewhere.
place_of :
    (s : String) (ns : List String)
    → 0 < count s ns
    → (before : List String) × (after : List String) × (ns ≡ before ++ (s ∷ after))
place_of s [] h = absurd (omega arith)
place_of s (n ∷ ns) h = elim (Bool-cases (n =ₛ s)) [
  | inl same ↦ ([], ns, ap (λ m. m ∷ ns) ((eq_iff n s).0 same))
  | inr other ↦
      (let (before, after, split) = place_of s ns (ground (arith, h, other)) in
        (n ∷ before, after, ap (λ l. n ∷ l) split))
]

module _ {ℓ} {B : Type ℓ} (f : String → List B) where
  -- the lists of all the names, one behind the other
  abbrev pub flat : List String → List B
  flat [] = []
  flat (n ∷ ns) = f n ++ flat ns

  flat-append : (ms ns : List String) → flat (ms ++ ns) ≡ flat ms ++ flat ns
  flat-append [] ns = refl
  flat-append (m ∷ ms) ns =
      ap (λ l. f m ++ l) (flat-append ms ns) ∙ sym (append_assoc (f m) (flat ms) (flat ns))

  flat-middle :
      (before : List String) (s : String) (after : List String)
      → bag (flat (before ++ (s ∷ after))) ≡ bag (f s ++ flat (before ++ after))
  flat-middle before s after =
      ap bag (flat-append before (s ∷ after))
      ∙ (bag_swap (flat before) (f s) (flat after)
          ∙ ap (λ l. bag (f s ++ l)) (sym (flat-append before after)))

  -- Lists with equal counts differ in their order alone.
  pub flat_of_counts :
      (ms ns : List String)
      → ((s : String) → count s ms ≡ count s ns)
      → bag (flat ms) ≡ bag (flat ns)
  flat_of_counts [] [] h = refl
  flat_of_counts [] (n ∷ ns) h = absurd (ground (arith, h n, eq_iff n n))
  flat_of_counts (m ∷ ms) ns h =
      let (before, after, split) = place_of m ns (ground (arith, h m, eq_iff m m)) in
      let rest : (s : String) → count s ms ≡ count s (before ++ after) = λ s. omega (
        arith,
        h s,
        ap (count s) split,
        count-append s before (m ∷ after),
        count-append s before after,
      ) in
      bag-append {xs = f m} refl (flat_of_counts ms (before ++ after) rest)
      ∙ (sym (flat-middle before m after) ∙ ap (λ l. bag (flat l)) (sym split))
