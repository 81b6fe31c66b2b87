-- ===== src/RateLimit/Tests.antt =====
-- The limiter at concrete inputs.
use offlinepush.Base.{◌≤◌, ◌≡◌, [], ◌∷◌, true, false, replicate, ℕ, List, arith}
use offlinepush.RateLimit.{SlidingWindowLimiter, limits}
use offlinepush.RateLimit.Reference.{Rises, limits-reference}
use offlinepush.RateLimit.Rate.{in_stretch, admitted, rate_kept}
use offlinepush.RateLimit.Window.{limits_burst}

abbrev two_a_second : SlidingWindowLimiter
two_a_second = record { interval = 1000; rate = 2 }

limits_burst_example : limits two_a_second (replicate 50 7) [] ≡ (replicate 50 false, 7 ∷ [])
limits_burst_example = limits_burst 49 two_a_second 7 (omega arith) (omega arith)

-- the third call is limited, and the fifth is not: the first two admissions are over a second old
abbrev five : List ℕ
five = 100 ∷ 400 ∷ 900 ∷ 1200 ∷ 1500 ∷ []

abbrev rises : Rises 0 five
rises = (omega arith, (omega arith, (omega arith, (omega arith, (omega arith, tt)))))

limits-reference_example :
    (limits two_a_second five []).0 ≡ false ∷ false ∷ true ∷ false ∷ false ∷ []
limits-reference_example = limits-reference two_a_second five 0 rises

rate_kept_example : in_stretch 300 1000 (admitted five (limits two_a_second five []).0 []) ≤ 2
rate_kept_example = rate_kept two_a_second five 0 300 rises
