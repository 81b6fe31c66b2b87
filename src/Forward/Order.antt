-- ===== src/Forward/Order.antt =====
-- What the reader of a forwarding goroutine gets of the values offered.
use offlinepush.Base.{
  false, All, sym, ap, ◌≡◌, refl, ◌∙◌, List, [], ◌∷◌, ◌++◌, append-nil, append_assoc,
}
use offlinepush.Forward.{
  is_waiting, Place, Forward, Act, running, waiting, ended, sending, arrives, turns, receives, ends,
  subscribed, offer, turn, deliver, stop, act, acts,
}

module _ {A : Type 0} where
  -- The third list is the other two put together, each in its order.
  pub data IsMerge : List A → List A → List A → Type 0 where
    empty : IsMerge [] [] []
    left : {xs ys zs : List A} (x : A) → IsMerge xs ys zs → IsMerge (xs ++ x ∷ []) ys (zs ++ x ∷ [])
    right :
        {xs ys zs : List A} (y : A) → IsMerge xs ys zs → IsMerge xs (ys ++ y ∷ []) (zs ++ y ∷ [])

  -- The values offered, in order.
  abbrev pub arrivals : List (Act A) → List A
  arrivals [] = []
  arrivals (arrives x ∷ rest) = x ∷ arrivals rest
  arrivals (turns ∷ rest) = arrivals rest
  arrivals (receives ∷ rest) = arrivals rest
  arrivals (ends ∷ rest) = arrivals rest

  -- The value that the goroutine holds.
  abbrev pub held : Place A → List A
  held (sending x) = x ∷ []
  held running = []
  held waiting = []
  held ended = []

  abbrev pub taken : Forward A → List A
  taken s = s.delivered ++ held s.place

  IsMerged : Forward A → List A → Type 0
  IsMerged s zs = IsMerge (taken s) s.dropped zs

  offer-IsMerge :
      (x : A) (p : Place A) (s : Forward A) (zs : List A)
      → s.place ≡ p
      → IsMerge (taken s) s.dropped zs
      → IsMerge (taken (offer x p s)) (offer x p s).dropped (zs ++ x ∷ [])
  unfolding offer
  offer-IsMerge x waiting s zs at m = left x (rw (at, append-nil s.delivered) at m)
  offer-IsMerge x running s zs at m = right x m
  offer-IsMerge x (sending y) s zs at m = right x m
  offer-IsMerge x ended s zs at m = right x m

  turn-taken : (p : Place A) (s : Forward A) → s.place ≡ p → taken (turn p s) ≡ taken s
  unfolding turn
  turn-taken running s at = rw at refl
  turn-taken waiting s at = refl
  turn-taken ended s at = refl
  turn-taken (sending x) s at = refl

  deliver-taken : (p : Place A) (s : Forward A) → s.place ≡ p → taken (deliver p s) ≡ taken s
  unfolding deliver
  deliver-taken running s at = refl
  deliver-taken waiting s at = refl
  deliver-taken ended s at = refl
  deliver-taken (sending x) s at = rw at (append-nil (s.delivered ++ x ∷ []))

  stop-taken : (p : Place A) (s : Forward A) → s.place ≡ p → taken (stop p s) ≡ taken s
  unfolding stop
  stop-taken running s at = rw at refl
  stop-taken waiting s at = rw at refl
  stop-taken ended s at = refl
  stop-taken (sending x) s at = refl

  same_dropped :
      (p : Place A) (s : Forward A)
      → ((turn p s).dropped ≡ s.dropped)
        × ((deliver p s).dropped ≡ s.dropped)
        × ((stop p s).dropped ≡ s.dropped)
  unfolding turn deliver stop
  same_dropped running s = (refl, refl, refl)
  same_dropped waiting s = (refl, refl, refl)
  same_dropped ended s = (refl, refl, refl)
  same_dropped (sending x) s = (refl, refl, refl)

  act-IsMerge :
      (a : Act A) (s : Forward A) (zs : List A)
      → IsMerge (taken s) s.dropped zs
      → IsMerge (taken (act a s)) (act a s).dropped (zs ++ arrivals (a ∷ []))
  unfolding act
  act-IsMerge (arrives x) s zs m = offer-IsMerge x s.place s zs refl m
  act-IsMerge turns s zs m =
      rw (turn-taken s.place s refl, (same_dropped s.place s).0, append-nil zs) m
  act-IsMerge receives s zs m =
      rw (deliver-taken s.place s refl, (same_dropped s.place s).1, append-nil zs) m
  act-IsMerge ends s zs m =
      rw (stop-taken s.place s refl, (same_dropped s.place s).2, append-nil zs) m

  arrivals-cons :
      (a : Act A) (rest : List (Act A)) → arrivals (a ∷ rest) ≡ arrivals (a ∷ []) ++ arrivals rest
  arrivals-cons (arrives x) rest = refl
  arrivals-cons turns rest = refl
  arrivals-cons receives rest = refl
  arrivals-cons ends rest = refl

  acts-IsMerge :
      (todo : List (Act A)) (s : Forward A) (zs : List A)
      → IsMerge (taken s) s.dropped zs
      → IsMerge (taken (acts todo s)) (acts todo s).dropped (zs ++ arrivals todo)
  unfolding acts
  acts-IsMerge [] s zs m = rw (append-nil zs) m
  acts-IsMerge (a ∷ rest) s zs m =
      rw (arrivals-cons a rest, ← append_assoc zs (arrivals (a ∷ [])) (arrivals rest))
        (acts-IsMerge rest (act a s) (zs ++ arrivals (a ∷ [])) (act-IsMerge a s zs m))

  -- Whatever happens after a subscription, the values that the reader has got, with the one that
  -- the goroutine still holds, and the values dropped make up the values offered, each in its
  -- order: nothing comes twice, too early or from nowhere, and what is not dropped is on its way.
  pub subscribed-IsMerge :
      (todo : List (Act A))
      → let s = acts todo subscribed in IsMerge (taken s) s.dropped (arrivals todo)
  subscribed-IsMerge todo = acts-IsMerge todo subscribed [] empty

  -- Anything but that the goroutine comes back to its select.
  abbrev pub NoTurn : Act A → Type 0
  NoTurn turns = ⊥
  NoTurn (arrives x) = Unit
  NoTurn receives = Unit
  NoTurn ends = Unit

  offer_missed :
      (x : A) (p : Place A) (s : Forward A)
      → is_waiting p ≡ false
      → s.place ≡ p
      → (is_waiting (offer x p s).place ≡ false)
        × (taken (offer x p s) ≡ taken s)
        × ((offer x p s).dropped ≡ s.dropped ++ x ∷ [])
  unfolding offer
  offer_missed x waiting s off at = cc
  offer_missed x running s off at = (rw at refl, refl, refl)
  offer_missed x (sending y) s off at = (rw at refl, refl, refl)
  offer_missed x ended s off at = (rw at refl, refl, refl)

  deliver_missed :
      (p : Place A) (s : Forward A)
      → is_waiting p ≡ false
      → s.place ≡ p
      → (is_waiting (deliver p s).place ≡ false) × (is_waiting (stop p s).place ≡ false)
  unfolding deliver stop
  deliver_missed waiting s off at = cc
  deliver_missed running s off at = (rw at refl, refl)
  deliver_missed (sending x) s off at = (refl, rw at refl)
  deliver_missed ended s off at = (rw at refl, rw at refl)

  -- A goroutine that does not wait, and does not come back to its select, drops all that is
  -- offered, and what its reader has got or is getting stays the same.
  pub acts_missed :
      (todo : List (Act A)) (s : Forward A)
      → is_waiting s.place ≡ false
      → All NoTurn todo
      → let s' = acts todo s in (s'.dropped ≡ s.dropped ++ arrivals todo) × (taken s' ≡ taken s)
  unfolding acts act
  acts_missed [] s off h = (sym (append-nil s.dropped), refl)
  acts_missed (turns ∷ todo) s off (h, hs) = absurd h
  acts_missed (arrives x ∷ todo) s off (h, hs) =
      let (still, same, lost) = offer_missed x s.place s off refl in
      let (dropped, kept) = acts_missed todo (offer x s.place s) still hs in
      (
        dropped
            ∙ (ap (λ (l : List A). l ++ arrivals todo) lost
                ∙ append_assoc s.dropped (x ∷ []) (arrivals todo)),
        kept ∙ same,
      )
  acts_missed (receives ∷ todo) s off (h, hs) =
      let (dropped, kept) =
        acts_missed todo (deliver s.place s) (deliver_missed s.place s off refl).0 hs in
      (
        dropped ∙ ap (λ (l : List A). l ++ arrivals todo) (same_dropped s.place s).1,
        kept ∙ deliver-taken s.place s refl,
      )
  acts_missed (ends ∷ todo) s off (h, hs) =
      let (dropped, kept) =
        acts_missed todo (stop s.place s) (deliver_missed s.place s off refl).1 hs in
      (
        dropped ∙ ap (λ (l : List A). l ++ arrivals todo) (same_dropped s.place s).2,
        kept ∙ stop-taken s.place s refl,
      )

  -- A value that is offered while the goroutine waits is on its way to the reader, and until the
  -- goroutine comes back to its select all later offers are dropped; once the reader has taken the
  -- value and the goroutine has come back, it waits again.
  pub acts-burst :
      (x : A) (later : List (Act A)) (s : Forward A)
      → s.place ≡ waiting
      → All NoTurn later
      → let s' = act (arrives x) s in
        ((acts later s').dropped ≡ s.dropped ++ arrivals later)
        × (taken (acts later s') ≡ s.delivered ++ x ∷ [])
        × ((acts (receives ∷ turns ∷ []) s').place ≡ waiting)
  unfolding acts act offer deliver turn
  acts-burst x later s at h =
      let (dropped, kept) = acts_missed later (record s { place = sending x }) refl h in
      rw at (dropped, kept, refl)
