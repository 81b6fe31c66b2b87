-- ===== src/Lock/Apply.antt =====
-- `Apply` waits through lost races and ends at the first event that is not one.
use offlinepush.Base.{◌≡◌, refl, ◌∙◌, List, [], ◌∷◌, ◌++◌, Option, All, arith, ap}
use offlinepush.Base.Result.{Error, err, failed_to_preempt_lock}
use offlinepush.Lock.{ApplyOutcome, again, result, ApplyEvent, tried, apply_step, continue, apply}

-- A tick at which another pod holds the lock.
abbrev pub LosesRace : {L : Type 0} → ApplyEvent L → Type 0
LosesRace e = e ≡ tried (err failed_to_preempt_lock)

LosesRace-step : {L : Type 0} (e : ApplyEvent L) → apply_step e ≡ again → LosesRace e
unfolding apply_step
LosesRace-step e h = ground arith

again-ne-result :
    {L : Type 0} {l : Option L} {failure : Option Error}
    → ◌≡◌ {A = ApplyOutcome L} again (result l failure)
    → ⊥
again-ne-result h = cc

-- The events hold one at which `Apply` returns these results, after lost races only.
abbrev pub Ends : {L : Type 0} → List (ApplyEvent L) → Option L → Option Error → Type 0
Ends {L} es l failure =
    (before : List (ApplyEvent L)) × (e : ApplyEvent L) × (after : List (ApplyEvent L)) × (es
      ≡ before ++ e ∷ after)
    × All LosesRace before
    × (apply_step e ≡ result l failure)

-- When `Apply` returns, it does so at the first event that is not a lost race, with that event's
-- results: the lock and nil, nil and the error of TryLock, or nil and context.Canceled.
pub apply-result :
    {L : Type 0} (es : List (ApplyEvent L)) (l : Option L) (failure : Option Error)
    → apply es ≡ result l failure
    → Ends es l failure
unfolding apply
apply-result [] l failure h = absurd (again-ne-result h)
apply-result {L} (e ∷ es) l failure h = go (apply_step e) refl h (apply-result es l failure)
  where
    go :
        (o : ApplyOutcome L)
        → apply_step e ≡ o
        → continue o (apply es) ≡ result l failure
        → (apply es ≡ result l failure → Ends es l failure)
        → Ends (e ∷ es) l failure
    go again s h ih =
        let (before, e', after, split, lost, last) = ih h in
        (e ∷ before, e', after, ap (λ ys. e ∷ ys) split, (LosesRace-step e s, lost), last)
    go (result l' f') s h ih = ([], e, es, refl, tt, s ∙ h)
