-- ===== src/RateLimit/Reference.antt =====
-- The limiter against one that forgets nothing: the script's pruning of the set changes no answer.
use offlinepush.Base.{
  ℕ, ◌+◌, ◌≤◌, ◌<◌, ◌≡◌, refl, ap, ◌∙◌, List, [], ◌∷◌, Bool, true, false, leb, ltb, length, All,
  arith, Bool-cases, inl, inr, if◌then◌else◌,
}
use offlinepush.RateLimit.{
  SlidingWindowLimiter, remove_expired, is_member, add_member, limit, limits,
}

-- How many of the times lie within the last `window` milliseconds.
abbrev pub within : ℕ → ℕ → List ℕ → ℕ
within window now [] = 0
within window now (s ∷ ss) = (if ltb now (s + window) then 1 else 0) + within window now ss

-- Calls at their times, with the list of all admissions so far: a call is limited when `rate`
-- admissions lie within the last `interval`, and is entered in the list otherwise.
abbrev pub reference : SlidingWindowLimiter → List ℕ → List ℕ → List Bool
reference r [] admitted = []
reference r (now ∷ times) admitted =
    let full = leb r.rate (within r.interval now admitted) in
    let limited = reference r times admitted in
    let entered = reference r times (now ∷ admitted) in full ∷ (if full then limited else entered)

-- The times are later than `now`, each later than the one before.
abbrev pub Rises : ℕ → List ℕ → Type 0
Rises now [] = Unit
Rises now (t ∷ times) = (now < t) × Rises t times

length-within :
    (window now : ℕ) (ss : List ℕ) → length (remove_expired window now ss) ≡ within window now ss
unfolding remove_expired
length-within window now [] = refl
length-within window now (s ∷ ss) = ground (arith, length-within window now ss)

-- What has expired now has expired later.
remove_expired_later :
    (window now later : ℕ) (ss : List ℕ)
    → now ≤ later
    → remove_expired window later (remove_expired window now ss) ≡ remove_expired window later ss
unfolding remove_expired
remove_expired_later window now later [] h = refl
remove_expired_later window now later (s ∷ ss) h = elim (Bool-cases (leb (s + window) now)) [
  | inl old ↦
      (let later_old : leb (s + window) later ≡ true = ground arith in
        rw (old, later_old) (remove_expired_later window now later ss h))
  | inr new ↦ rw new (
      ap (λ rest. if leb (s + window) later then rest else s ∷ rest)
        (remove_expired_later window now later ss h))
]

remove_expired-All :
    (P : ℕ → Type 0) (window now : ℕ) (ss : List ℕ)
    → All P ss
    → All P (remove_expired window now ss)
unfolding remove_expired
remove_expired-All P window now [] h = tt
remove_expired-All P window now (s ∷ ss) (p, h) = elim (Bool-cases (leb (s + window) now)) [
  | inl old ↦ rw old (remove_expired-All P window now ss h)
  | inr new ↦ rw new (p, remove_expired-All P window now ss h)
]

earlier_absent : (now : ℕ) (ss : List ℕ) → All (λ (s : ℕ). s < now) ss → is_member now ss ≡ false
earlier_absent now [] h = refl
earlier_absent now (s ∷ ss) (p, h) = ground (arith, earlier_absent now ss h)

All-later :
    (now later : ℕ) (ss : List ℕ)
    → now < later
    → All (λ (s : ℕ). s < now) ss
    → All (λ (s : ℕ). s < later) ss
All-later now later [] h all = tt
All-later now later (s ∷ ss) h (p, all) = (omega arith, All-later now later ss h all)

-- The set and the list of admissions have the same unexpired times, from a time on.
pub record Follows (window now : ℕ) (ss admitted : List ℕ) : Type 0 where
  pub same :
      (later : ℕ)
      → now ≤ later
      → remove_expired window later ss ≡ remove_expired window later admitted
  pub earlier : All (λ (s : ℕ). s < now) ss

module _ (r : SlidingWindowLimiter) where
  pub limited_alike :
      (now : ℕ) (ss admitted : List ℕ)
      → Follows r.interval now ss admitted
      → leb r.rate (length (remove_expired r.interval now ss))
        ≡ leb r.rate (within r.interval now admitted)
  limited_alike now ss admitted f =
      ap (λ kept. leb r.rate (length kept)) (f.same now (omega arith))
      ∙ ap (leb r.rate) (length-within r.interval now admitted)

  pub kept-Follows :
      (now next : ℕ) (ss admitted : List ℕ)
      → now < next
      → Follows r.interval now ss admitted
      → Follows r.interval next (remove_expired r.interval now ss) admitted
  kept-Follows now next ss admitted less f = record {
    same = λ later h.
        remove_expired_later r.interval now later ss (omega arith) ∙ f.same later (omega arith);
    earlier = remove_expired-All _ r.interval now ss (All-later now next ss less f.earlier);
  }

  pub entered-Follows :
      (now next : ℕ) (kept admitted : List ℕ)
      → now < next
      → Follows r.interval next kept admitted
      → Follows r.interval next (now ∷ kept) (now ∷ admitted)
  unfolding remove_expired
  entered-Follows now next kept admitted less f = record {
    same = λ later h.
        ap (λ rest. if leb (now + r.interval) later then rest else now ∷ rest) (f.same later h);
    earlier = (less, f.earlier);
  }

  pub limit_room :
      (now : ℕ) (ss : List ℕ)
      → All (λ (s : ℕ). s < now) ss
      → leb r.rate (length (remove_expired r.interval now ss)) ≡ false
      → limit r now ss ≡ (false, now ∷ remove_expired r.interval now ss)
  unfolding limit add_member
  limit_room now ss earlier room =
      rw
        (
          room,
          earlier_absent now (remove_expired r.interval now ss)
              (remove_expired-All _ r.interval now ss earlier),
        )
        refl

  pub limit_full :
      (now : ℕ) (ss : List ℕ)
      → leb r.rate (length (remove_expired r.interval now ss)) ≡ true
      → limit r now ss ≡ (true, remove_expired r.interval now ss)
  unfolding limit
  limit_full now ss full = rw full refl

  pub Follows-later :
      (now next : ℕ) (ss admitted : List ℕ)
      → now < next
      → Follows r.interval now ss admitted
      → Follows r.interval next ss admitted
  Follows-later now next ss admitted less f = record {
    same = λ later h. f.same later (omega arith);
    earlier = All-later now next ss less f.earlier;
  }

  limits_follow :
      (times : List ℕ) (last : ℕ) (ss admitted : List ℕ)
      → Rises last times
      → ((now : ℕ) → last < now → Follows r.interval now ss admitted)
      → (limits r times ss).0 ≡ reference r times admitted
  unfolding limits
  limits_follow [] last ss admitted rises f = refl
  limits_follow (now ∷ times) last ss admitted (less, rises) f =
      let here = f now less in
      let alike = limited_alike now ss admitted here in
      let kept = remove_expired r.interval now ss in
      elim (Bool-cases (leb r.rate (length kept))) [
        | inl full ↦
            rw (limit_full now ss full, ← alike, full)
              (ap (λ bs. true ∷ bs)
                (limits_follow times now kept admitted rises
                  (λ next h. kept-Follows now next ss admitted h here)))
        | inr room ↦
            rw (limit_room now ss here.earlier room, ← alike, room)
              (ap (λ bs. false ∷ bs)
                (limits_follow times now (now ∷ kept) (now ∷ admitted) rises (λ next h.
                  entered-Follows now next kept admitted h
                    (kept-Follows now next ss admitted h here))))
      ]

  -- For calls that come one after the other, none in the same millisecond as another, the script
  -- limits the same calls as a limiter that keeps every admission for ever and limits a call if and
  -- only if at least `rate` of them lie within the last `interval` milliseconds.
  pub limits-reference :
      (times : List ℕ) (first : ℕ)
      → Rises first times
      → (limits r times []).0 ≡ reference r times []
  limits-reference times first rises =
      limits_follow times first [] [] rises
        (λ now h. record { same = λ later g. refl; earlier = tt })
