-- ===== src/RateLimit/Window.antt =====
-- What the sliding window bounds, and what it does not.
use offlinepush.Base.{
  ℕ, zero, suc, ◌+◌, ◌≤◌, ◌<◌, ◌≡◌, refl, List, [], ◌∷◌, true, false, leb, length, replicate, All,
  arith, Bool-cases, inl, inr,
}
use offlinepush.RateLimit.{
  SlidingWindowLimiter, remove_expired, is_member, add_member, limit, limits,
}

-- At a time, the set holds at most `rate` admissions, all from the window that ends there.
pub record IsWindow (r : SlidingWindowLimiter) (now : ℕ) (ss : List ℕ) : Type 0 where
  pub few : length ss ≤ r.rate
  pub recent : All (λ (s : ℕ). (s ≤ now) × (now < s + r.interval)) ss

length-remove_expired :
    (window now : ℕ) (ss : List ℕ) → length (remove_expired window now ss) ≤ length ss
unfolding remove_expired
length-remove_expired window now [] = omega arith
length-remove_expired window now (s ∷ ss) = ground (arith, length-remove_expired window now ss)

remove_expired_recent :
    (window now : ℕ) (ss : List ℕ)
    → All (λ (s : ℕ). s ≤ now) ss
    → All (λ (s : ℕ). (s ≤ now) × (now < s + window)) (remove_expired window now ss)
unfolding remove_expired
remove_expired_recent window now [] h = tt
remove_expired_recent window now (s ∷ ss) (le, h) = elim (Bool-cases (leb (s + window) now)) [
  | inl old ↦ rw old (remove_expired_recent window now ss h)
  | inr new ↦ rw new ((le, ground arith), remove_expired_recent window now ss h)
]

add_member-IsWindow :
    (r : SlidingWindowLimiter) (now : ℕ) (ss : List ℕ)
    → 0 < r.interval
    → length ss < r.rate
    → All (λ (s : ℕ). (s ≤ now) × (now < s + r.interval)) ss
    → IsWindow r now (add_member now ss)
unfolding add_member
add_member-IsWindow r now ss i room recent = elim (Bool-cases (is_member now ss)) [
  | inl old ↦ rw old (record { few = omega arith; recent = recent })
  | inr new ↦ rw new (record { few = omega arith; recent = ((omega arith, omega arith), recent) })
]

-- With an interval that is not zero, a call at a time not before the earlier calls, to a set of at
-- most `rate` admissions, leaves at most `rate` admissions in the set, each from the last
-- `interval` milliseconds, whether it is limited or not.
pub limit-IsWindow :
    (r : SlidingWindowLimiter) (now : ℕ) (ss : List ℕ)
    → 0 < r.interval
    → length ss ≤ r.rate
    → All (λ (s : ℕ). s ≤ now) ss
    → IsWindow r now (limit r now ss).1
unfolding limit
limit-IsWindow r now ss i few past =
    let kept = remove_expired r.interval now ss in
    let short : length (remove_expired r.interval now ss) ≤ length ss =
      length-remove_expired r.interval now ss in
    let recent = remove_expired_recent r.interval now ss past in
    elim (Bool-cases (leb r.rate (length kept))) [
      | inl full ↦ rw full (record { few = omega arith; recent = recent })
      | inr room ↦ rw room (add_member-IsWindow r now kept i (ground arith) recent)
    ]

-- A call in a millisecond in which a call was admitted already, while the set has room, is admitted
-- and leaves the set as it is.
same_time :
    (r : SlidingWindowLimiter) (now : ℕ) (ss : List ℕ)
    → remove_expired r.interval now ss ≡ ss
    → is_member now ss ≡ true
    → length ss < r.rate
    → limit r now ss ≡ (false, ss)
unfolding limit
same_time r now ss kept here room =
    let open_ : leb r.rate (length ss) ≡ false = ground arith in rw (kept, open_, here) refl

first_admitted :
    (r : SlidingWindowLimiter) (now : ℕ) → 1 ≤ r.rate → limit r now [] ≡ (false, now ∷ [])
unfolding limit
first_admitted r now h = ground arith

fresh_kept :
    (r : SlidingWindowLimiter) (now : ℕ)
    → 0 < r.interval
    → remove_expired r.interval now (now ∷ []) ≡ now ∷ []
unfolding remove_expired
fresh_kept r now h = ground arith

member_self : (now : ℕ) → is_member now (now ∷ []) ≡ true
member_self now = ground arith

limits_same_time :
    (n : ℕ) (r : SlidingWindowLimiter) (now : ℕ) (ss : List ℕ)
    → remove_expired r.interval now ss ≡ ss
    → is_member now ss ≡ true
    → length ss < r.rate
    → limits r (replicate n now) ss ≡ (replicate n false, ss)
unfolding limits
limits_same_time zero r now ss kept here room = refl
limits_same_time (suc n) r now ss kept here room =
    rw (same_time r now ss kept here room, limits_same_time n r now ss kept here room) refl

-- With an interval that is not zero and a rate of two or more, any number of calls in the same
-- millisecond are all admitted to an empty window, for the script files each under its time alone:
-- the set then holds one admission.
pub limits_burst :
    (n : ℕ) (r : SlidingWindowLimiter) (now : ℕ)
    → 0 < r.interval
    → 2 ≤ r.rate
    → limits r (replicate (suc n) now) [] ≡ (replicate (suc n) false, now ∷ [])
unfolding limits
limits_burst n r now i two =
    let first : limit r now [] ≡ (false, now ∷ []) = first_admitted r now (omega arith) in
    rw
      (
        first,
        limits_same_time n r now (now ∷ []) (fresh_kept r now i) (member_self now) (omega arith),
      )
      refl
