-- ===== src/Retry.antt =====
-- internal/component/retry.go: a strategy that retries a fixed number of times.
pub mod Counting
use offlinepush.Base.{ℕ, zero, suc, List, [], ◌∷◌, Bool}
use offlinepush.Base.Int.{ℤ, pos, leb_ℤ}
use offlinepush.Base.Int64.{◌+₆₄◌}

-- The interval is in nanoseconds.
pub record FixIntervalRetry : Type 0 where
  pub interval : ℤ
  pub max : ℤ
  pub cnt : ℤ

-- `Next` returns the interval and whether to retry, and counts the call.
unfoldable pub next : FixIntervalRetry → (ℤ × Bool) × FixIntervalRetry
unfolding ◌+₆₄◌
next f = let f' = record f { cnt = f.cnt +₆₄ pos 1 } in ((f'.interval, leb_ℤ f'.cnt f'.max), f')

-- The answers of so many calls in a row.
unfoldable pub nexts : ℕ → FixIntervalRetry → List Bool
nexts zero f = []
nexts (suc k) f = let ((interval, again), f') = next f in again ∷ nexts k f'
