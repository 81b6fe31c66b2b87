-- ===== src/RateLimit.antt =====
-- pkg/ratelimit: the limiter, and its script slide_window.lua over the sorted set of one key, whose
-- members are their own scores. Redis runs a script alone, so a call is one step. The expiry that the
-- script sets removes the set only when the next call would drop all its members.
pub mod Window
pub mod Reference
pub mod Rate
mod Tests
use offlinepush.Base.{
  ℕ, ◌+◌, List, [], ◌∷◌, Bool, true, false, ltb, leb, ◌==◌, length, if◌then◌else◌,
}
use offlinepush.Base.{◌||◌, Option, none, some}
use offlinepush.Base.Result.{Error}

-- The limiter's fields; durations in milliseconds.
pub record SlidingWindowLimiter : Type 0 where
  pub interval : ℕ
  pub rate : ℕ

-- ZREMRANGEBYSCORE key -inf (now - window)
unfoldable pub remove_expired : ℕ → ℕ → List ℕ → List ℕ
remove_expired window now [] = []
remove_expired window now (s ∷ ss) =
    let rest = remove_expired window now ss in if leb (s + window) now then rest else s ∷ rest

abbrev pub is_member : ℕ → List ℕ → Bool
is_member s [] = false
is_member s (t ∷ ts) = t == s || is_member s ts

-- ZADD key now now
unfoldable pub add_member : ℕ → List ℕ → List ℕ
add_member now ss = if is_member now ss then ss else now ∷ ss

-- The script: whether the call is limited, and the set after it.
unfoldable pub limit : SlidingWindowLimiter → ℕ → List ℕ → Bool × List ℕ
unfolding remove_expired add_member
limit r now ss =
    let ss' = remove_expired r.interval now ss in
    if leb r.rate (length ss') then (true, ss') else (false, add_member now ss')

-- `Limit`: the script's answer, or the error with which redis has failed before it ran; the Boolean
-- beside an error is false.
unfoldable pub limit_call :
    SlidingWindowLimiter → Option Error → ℕ → List ℕ → (Bool × Option Error) × List ℕ
unfolding limit
limit_call r none now ss = let (limited, ss') = limit r now ss in ((limited, none), ss')
limit_call r (some e) now ss = ((false, some e), ss)

-- Scripts one after the other, at their times: whether each is limited, and the set after all.
unfoldable pub limits : SlidingWindowLimiter → List ℕ → List ℕ → List Bool × List ℕ
limits r [] ss = ([], ss)
limits r (now ∷ times) ss =
    let (b, ss') = limit r now ss in let (bs, ss'') = limits r times ss' in (b ∷ bs, ss'')
