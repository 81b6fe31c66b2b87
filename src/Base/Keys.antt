-- ===== src/Base/Keys.antt =====
-- The keys of a map, each of which stands in it once.
use Prim.Native.String.{String}
use mathlib.Core.Path.{◌≡◌, refl}
use mathlib.Core.Bool.{false, ◌||◌}
use mathlib.Core.List.{[], ◌∷◌}
use native.Mathlib.Omega.{arith}
use text.Mathlib.TextEquality.{eq_iff}
use offlinepush.Base.Texts.{◌=ₛ◌, contains}
use offlinepush.Base.Counts.{IsDistinct}
use offlinepush.Base.Dict.{Dict, insert, delete, keys}

module _ {ℓ} {V : Type ℓ} where
  pub keys-insert :
      (k n : String) (v : V) (m : Dict V)
      → contains (keys (insert k v m)) n ≡ (k =ₛ n || contains (keys m) n)
  unfolding insert
  keys-insert k n v [] = refl
  keys-insert k n v ((j, w) ∷ m) = ground (arith, eq_iff j k, keys-insert k n v m)

  pub insert-IsDistinct :
      (k : String) (v : V) (m : Dict V) → IsDistinct (keys m) → IsDistinct (keys (insert k v m))
  unfolding insert
  insert-IsDistinct k v [] h = (refl, tt)
  insert-IsDistinct k v ((j, w) ∷ m) (apart, h) =
      ground (arith, eq_iff j k, eq_iff k j, keys-insert k j v m, insert-IsDistinct k v m h)

  keys-delete :
      (k n : String) (m : Dict V)
      → contains (keys m) n ≡ false
      → contains (keys (delete k m)) n ≡ false
  unfolding delete
  keys-delete k n [] h = refl
  keys-delete k n ((j, w) ∷ m) h = ground (arith, keys-delete k n m)

  pub delete-IsDistinct :
      (k : String) (m : Dict V) → IsDistinct (keys m) → IsDistinct (keys (delete k m))
  unfolding delete
  delete-IsDistinct k [] h = tt
  delete-IsDistinct k ((j, w) ∷ m) (apart, h) =
      ground (arith, keys-delete k j m apart, delete-IsDistinct k m h)
