-- ===== src/RateLimit/Rate.antt =====
-- The promise of the limiter: in no stretch of `interval` milliseconds, wherever it begins, are more
-- than `rate` calls admitted.
use offlinepush.Base.{
  ℕ, ◌+◌, ◌≤◌, ◌<◌, List, [], ◌∷◌, Bool, leb, ltb, ◌&&◌, arith, Bool-cases, inl, inr, if◌then◌else◌,
}
use offlinepush.RateLimit.{SlidingWindowLimiter, limits}
use offlinepush.RateLimit.Reference.{within, reference, Rises, limits-reference}

-- The times of the calls that were not limited, the last one first, before earlier ones.
abbrev pub admitted : List ℕ → List Bool → List ℕ → List ℕ
admitted [] bs before = before
admitted (now ∷ times) [] before = before
admitted (now ∷ times) (limited ∷ bs) before =
    admitted times bs (if limited then before else now ∷ before)

-- How many times lie in the stretch of `window` milliseconds that begins at `from`.
abbrev pub in_stretch : ℕ → ℕ → List ℕ → ℕ
in_stretch from window [] = 0
in_stretch from window (s ∷ ss) =
    (if leb from s && ltb s (from + window) then 1 else 0) + in_stretch from window ss

-- Each admission found fewer than `rate` earlier ones in its window.
abbrev pub FoundRoom : SlidingWindowLimiter → List ℕ → Type 0
FoundRoom r [] = Unit
FoundRoom r (s ∷ ss) = (within r.interval s ss < r.rate) × FoundRoom r ss

stretch-within :
    (window from s : ℕ) (ss : List ℕ)
    → s < from + window
    → in_stretch from window ss ≤ within window s ss
stretch-within window from s [] h = omega arith
stretch-within window from s (t ∷ ss) h = ground (arith, stretch-within window from s ss h)

pub FoundRoom-stretch :
    (r : SlidingWindowLimiter) (from : ℕ) (ss : List ℕ)
    → FoundRoom r ss
    → in_stretch from r.interval ss ≤ r.rate
FoundRoom-stretch r from [] h = omega arith
FoundRoom-stretch r from (s ∷ ss) (room, h) =
    elim (Bool-cases (leb from s && ltb s (from + r.interval))) [
      | inl inside ↦ rw inside (omega (arith, stretch-within r.interval from s ss (ground arith)))
      | inr outside ↦ rw outside (omega (arith, FoundRoom-stretch r from ss h))
    ]

reference-FoundRoom :
    (r : SlidingWindowLimiter) (times before : List ℕ)
    → FoundRoom r before
    → FoundRoom r (admitted times (reference r times before) before)
reference-FoundRoom r [] before h = h
reference-FoundRoom r (now ∷ times) before h =
    elim (Bool-cases (leb r.rate (within r.interval now before))) [
      | inl full ↦ rw full (reference-FoundRoom r times before h)
      | inr room ↦ rw room (reference-FoundRoom r times (now ∷ before) (ground arith, h))
    ]

-- For calls that come one after the other, none in the same millisecond as another, at most `rate`
-- of those that the script admits lie in any stretch of `interval` milliseconds.
pub rate_kept :
    (r : SlidingWindowLimiter) (times : List ℕ) (first from : ℕ)
    → Rises first times
    → in_stretch from r.interval (admitted times (limits r times []).0 []) ≤ r.rate
rate_kept r times first from rises =
    rw (limits-reference r times first rises)
      (FoundRoom-stretch r from _ (reference-FoundRoom r times [] tt))
