-- ===== src/Pusher/Tests.antt =====
-- The pushers at concrete inputs.
use offlinepush.Base.{
  ◌==◌, ℕ, ◌+◌, ◌≤◌, ◌≡◌, refl, List, [], ◌∷◌, map, String, Option, none, some, Bool, true, false,
  length, ltb, replicate, arith, if◌then◌else◌,
}
use offlinepush.Base.Int.{pos}
use offlinepush.Base.Result.{Error, deadline_exceeded, other}
use offlinepush.Domain.{Message}
use offlinepush.Pusher.{FailoverPusher, ping_msg, push_limited}
use offlinepush.Pusher.Failover.{answers, expected, failures_after_success}
use offlinepush.RateLimit.{SlidingWindowLimiter}
use offlinepush.RateLimit.Rate.{in_stretch}
use offlinepush.Pusher.Throttled.{Gate, times_of}
use offlinepush.Pusher.Throttled.Pushes.{push_all, untouched, pushes_within_rate}
use offlinepush.Pusher.RateLimited.{Settles, push_limited-Settles}

abbrev service : Bool → FailoverPusher
service b = record { healthy = b; name = "apns"; cnt = pos 0; threshold = pos 1; probes = [] }

abbrev errors : List Error
errors = deadline_exceeded ∷ other "reset" ∷ deadline_exceeded ∷ []

failures_after_success_example :
    ((answers (service true) (none ∷ map some errors)).0 ≡ none ∷ expected 1 (map some errors))
    × ((answers (service true) (none ∷ map some errors)).1.cnt ≡ pos (length errors))
    × ((answers (service true) (none ∷ map some errors)).1.healthy
        ≡ (if ltb 1 (length errors) then false else true))
failures_after_success_example = failures_after_success (service true) 1 errors refl (omega arith)

-- a limiter that limits nobody, and a provider that counts its messages and always times out
abbrev unlimited : String → ℕ → (Bool × Option Error) × ℕ
unlimited name w = ((false, none), w)

abbrev slow : String → Message → ℕ → Option Error × ℕ
slow name msg w = (some deadline_exceeded, w + 1)

push_limited-Settles_example :
    Settles 10 (service true ∷ []) (push_limited unlimited slow ping_msg (service true ∷ []) 0)
push_limited-Settles_example =
    push_limited-Settles unlimited slow ping_msg (service true ∷ []) 0 (omega arith)

-- Two services of different names, of which one is out of use; the provider takes every message.
abbrev two_a_second : SlidingWindowLimiter
two_a_second = record { interval = 1000; rate = 2 }

abbrev taken : String → Message → ℕ → Option Error × ℕ
taken name msg n = (none, n + 1)

abbrev three_calls : List (Message × List FailoverPusher)
three_calls = replicate 3 (ping_msg, service true ∷ service false ∷ [])

-- Redis fails once, after the first call.
abbrev once : Gate ℕ → Option Error
once g = if g.clock == 10 then some deadline_exceeded else none

abbrev after_three : Gate ℕ
after_three =
    push_all two_a_second (λ g. 9) once taken three_calls
      (untouched two_a_second (λ g. 9) once taken 0 0)

pushes_within_rate_example :
    (in_stretch 5 1000 (times_of "apns" after_three.log) ≤ 2)
    × (length after_three.unlimited ≤ after_three.failures)
pushes_within_rate_example =
    pushes_within_rate two_a_second (λ g. 9) once taken three_calls 0 5 0 "apns"
