-- ===== src/Base/Dict.antt =====
-- A Go map with string keys, as an association list. Its order of iteration is that of the list.
use Prim.Native.String.{String}
use mathlib.Core.Path.{◌≡◌, refl, subst}
use mathlib.Core.Option.{Option, none, some, some-injective}
use mathlib.Core.List.{List, [], ◌∷◌}
use native.Mathlib.Omega.{arith}
use text.Mathlib.TextEquality.{eq_iff}
use offlinepush.Base.{Bool-cases, inl, inr}
use offlinepush.Base.Lists.{All}
use offlinepush.Base.Tests.{if◌then◌else◌}
use offlinepush.Base.Texts.{◌=ₛ◌}

abbrev pub Dict {ℓ} : Type ℓ → Type ℓ
Dict V = List (String × V)

module _ {ℓ} {V : Type ℓ} where
  -- v, ok := m[k]
  unfoldable pub lookup : String → Dict V → Option V
  lookup k [] = none
  lookup k ((j, v) ∷ m) = if j =ₛ k then some v else lookup k m

  -- m[k] = v
  unfoldable pub insert : String → V → Dict V → Dict V
  insert k v [] = (k, v) ∷ []
  insert k v ((j, w) ∷ m) = if j =ₛ k then (k, v) ∷ m else (j, w) ∷ insert k v m

  -- delete(m, k)
  unfoldable pub delete : String → Dict V → Dict V
  delete k [] = []
  delete k ((j, w) ∷ m) = let rest = delete k m in if j =ₛ k then rest else (j, w) ∷ rest

  -- the keys, in the order of iteration
  abbrev pub keys : Dict V → List String
  keys [] = []
  keys ((k, v) ∷ m) = k ∷ keys m

  pub lookup-insert :
      (k j : String) (v : V) (m : Dict V)
      → lookup j (insert k v m) ≡ (if k =ₛ j then some v else lookup j m)
  unfolding insert lookup
  lookup-insert k j v [] = refl
  lookup-insert k j v ((head, old) ∷ rest) =
      ground (eq_iff head k, eq_iff head j, eq_iff k j, lookup-insert k j v rest, arith)

  pub lookup-delete :
      (k j : String) (m : Dict V) → lookup j (delete k m) ≡ (if k =ₛ j then none else lookup j m)
  unfolding lookup delete
  lookup-delete k j [] = ground arith
  lookup-delete k j ((i, w) ∷ m) =
      ground (arith, eq_iff k j, eq_iff i k, eq_iff i j, lookup-delete k j m)

-- What holds of every value holds of the one under a key.
pub lookup-All {ℓ κ} :
    {V : Type ℓ} (P : V → Type κ) (k : String) (m : Dict V) {v : V}
    → All (λ (e : String × V). P e.1) m
    → lookup k m ≡ some v
    → P v
unfolding lookup
lookup-All P k [] h e = cc
lookup-All P k ((j, w) ∷ m) (own, rest) e = elim (Bool-cases (j =ₛ k)) [
  | inl same ↦ subst P (some-injective _ _ (rw same at e)) own
  | inr other ↦ lookup-All P k m rest (rw other at e)
]

pub lookup-empty {ℓ} : {V : Type ℓ} (k : String) → lookup {V = V} k [] ≡ none
unfolding lookup
lookup-empty k = refl

pub ruleset dict_laws = (lookup-empty, lookup-insert, lookup-delete)
