-- ===== src/Base/Bags.antt =====
-- Lists up to order: the multisets of the library, with the laws for lists that are put together.
use mathlib.Core.Path.{◌≡◌, refl, sym, ap, ◌∙◌}
use mathlib.Core.List.{List, ◌++◌, append_assoc, perm_append_comm}
use mathlib.Core.List.Perm
use mathlib.Core.Quot.{sound}
use mathlib.Mathlib.Data.Multiset.Defs.{Multiset, of_list}
use mathlib.Mathlib.Data.Multiset.AddSub.{add}

-- The items of a list, whatever their order.
abbrev pub Bag {ℓ} : Type ℓ → Type ℓ
Bag = Multiset

abbrev pub bag {ℓ} : {A : Type ℓ} → List A → Bag A
bag = of_list

abbrev pub sum {ℓ} : {A : Type ℓ} → Bag A → Bag A → Bag A
sum = add

module _ {ℓ} {A : Type ℓ} where
  -- Two lists in front of a third may change places.
  pub bag_swap : (xs ys zs : List A) → bag (xs ++ (ys ++ zs)) ≡ bag (ys ++ (xs ++ zs))
  bag_swap xs ys zs =
      ap bag (sym (append_assoc xs ys zs))
      ∙ (sound (Perm.append_right zs (perm_append_comm xs ys)) ∙ ap bag (append_assoc ys xs zs))

  pub bag-append :
      {xs xs' ys ys' : List A}
      → bag xs ≡ bag xs'
      → bag ys ≡ bag ys'
      → bag (xs ++ ys) ≡ bag (xs' ++ ys')
  bag-append {xs} {xs'} {ys} {ys'} h k =
      ap (λ (s : Bag A). add s (bag ys)) h ∙ ap (λ (s : Bag A). add (bag xs') s) k

  -- What leaves a list in the middle may stand at the end of another.
  pub bag_move :
      (sent part before left after : List A)
      → bag ((sent ++ part) ++ (before ++ (left ++ after)))
        ≡ bag (sent ++ (before ++ ((part ++ left) ++ after)))
  bag_move sent part before left after =
      ap bag (append_assoc sent part (before ++ (left ++ after)))
      ∙ bag-append {xs = sent} refl (
          bag_swap part before (left ++ after)
          ∙ ap (λ (l : List A). bag (before ++ l)) (sym (append_assoc part left after)))
