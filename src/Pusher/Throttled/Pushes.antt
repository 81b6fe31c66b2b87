-- ===== src/Pusher/Throttled/Pushes.antt =====
-- Whole calls of `Push` over a throttled gate.
use offlinepush.Base.{
  ℕ, zero, suc, arith, ◌+◌, ◌%◌, ◌≤◌, ◌≡◌, refl, ap, inl, inr, List, [], ◌∷◌, String, Option, none,
  some, Bool, true, false, length, get_elem?, set, leb, Bool-cases, Option-cases, if◌then◌else◌,
}
use offlinepush.Base.Dict.{lookup}
use offlinepush.Base.Result.{Error}
use offlinepush.Domain.{Message}
use offlinepush.RateLimit.{SlidingWindowLimiter, limit, limit_call}
use offlinepush.RateLimit.Reference.{limit_room, limit_full}
use offlinepush.RateLimit.Rate.{in_stretch, FoundRoom-stretch}
use offlinepush.Pusher.RateLimited.{push_next, push_delivered, Attempt-cases}
use offlinepush.Pusher.{
  FailoverPusher, Attempt, delivered, next, PushOutcome, returned, panicked, on_answer, push,
  after_push, after_limit, attempt, push_rounds, push_limited,
}
use offlinepush.Pusher.Throttled.{
  Gate, set_of, times_of, now_of, limit_as, failed-IsThrottled, limit_gate, provide, IsThrottled,
  own, kept, full-IsThrottled, room-IsThrottled,
}

module _ {P : Type 0} (r : SlidingWindowLimiter) (gap : Gate P → ℕ) (fault : Gate P → Option Error)
    (provider : String → Message → P → Option Error × P) where
  abbrev pub limiter : String → Gate P → (Bool × Option Error) × Gate P
  limiter = limit_gate r gap fault provider

  abbrev pub sender : String → Message → Gate P → Option Error × Gate P
  sender = provide r gap fault provider

  -- The gate after an attempt, and after a whole `Push`.
  abbrev attempted : Attempt (Gate P) → Gate P
  attempted (delivered f g) = g
  attempted (next f g) = g

  abbrev pub pushed : PushOutcome (Gate P) → Gate P → Gate P
  pushed (returned e svcs g') g = g'
  pushed panicked g = g

  after_push-world :
      (o : Option Error) (f : FailoverPusher) (g : Gate P)
      → attempted (after_push limiter sender (o, (f, g))) ≡ g
  unfolding after_push
  after_push-world none f g = refl
  after_push-world (some e) f g = refl

  if_IsThrottled :
      (b : Bool) (x y : Attempt (Gate P))
      → (b ≡ true → IsThrottled r gap fault provider (attempted x))
      → (b ≡ false → IsThrottled r gap fault provider (attempted y))
      → IsThrottled r gap fault provider (attempted (if b then x else y))
  if_IsThrottled true x y h k = h refl
  if_IsThrottled false x y h k = k refl

  pushed_on :
      (f : FailoverPusher) (msg : Message) (g : Gate P)
      → IsThrottled r gap fault provider (sender f.name msg g).1
      → IsThrottled r gap fault provider
          (attempted (after_push limiter sender (push limiter sender f msg g)))
  unfolding push
  pushed_on f msg g h =
      let answer = on_answer f (sender f.name msg g).0 in
      rw (after_push-world answer.0 answer.1 (sender f.name msg g).1) h

  -- The limiter's call of an attempt, answered or failed.
  limited_as :
      (o : Option Error) (f : FailoverPusher) (msg : Message) (g : Gate P)
      → IsThrottled r gap fault provider g
      → IsThrottled r gap fault provider
          (attempted (after_limit limiter sender f msg (limit_as r gap fault provider o f.name g)))
  unfolding after_limit kept limit_as limit_call
  limited_as (some e) f msg g h =
      pushed_on f msg (limit_as r gap fault provider (some e) f.name g).1
        (failed-IsThrottled r gap fault provider f.name g h e msg)
  limited_as none f msg g h =
      let answer = limit r (now_of r gap fault provider g) (set_of f.name g) in
      let w = (limit_as r gap fault provider none f.name g).1 in
      let on = after_push limiter sender (push limiter sender f msg w) in
      elim (Bool-cases (leb r.rate (length (kept r gap fault provider f.name g h)))) [
        | inl full ↦
            (let limited : answer.0 ≡ true =
                ap (λ (a : Bool × List ℕ). a.0)
                  (limit_full r (now_of r gap fault provider g) (set_of f.name g) full) in
              if_IsThrottled answer.0 (next f w) on
                (λ l. full-IsThrottled r gap fault provider f.name g h full)
                (λ l. absurd (cc limited)))
        | inr open_ ↦
            (let free : answer.0 ≡ false =
                ap (λ (a : Bool × List ℕ). a.0)
                  (limit_room r (now_of r gap fault provider g) (set_of f.name g)
                    (own r gap fault provider f.name g h).earlier open_) in
              if_IsThrottled answer.0 (next f w) on (λ l. absurd (cc free))
                (λ l.
                  pushed_on f msg w (room-IsThrottled r gap fault provider f.name g h msg open_)))
      ]

  attempt-IsThrottled :
      (f : FailoverPusher) (msg : Message) (g : Gate P)
      → IsThrottled r gap fault provider g
      → IsThrottled r gap fault provider (attempted (attempt limiter sender f msg g))
  unfolding attempt
  attempt-IsThrottled f msg g h =
      if_IsThrottled f.healthy (after_limit limiter sender f msg (limiter f.name g)) (next f g)
        (λ well. limited_as (fault g) f msg g h) (λ out. h)

  no_service :
      (n k : ℕ) (msg : Message) (svcs : List FailoverPusher) (g : Gate P)
      → get_elem? svcs (k % length svcs) ≡ none
      → push_rounds limiter sender (suc n) k msg svcs g ≡ panicked
  unfolding push_rounds
  no_service n k msg svcs g missing = rw (missing, push_rounds) refl

  push_rounds-IsThrottled :
      (n k : ℕ) (msg : Message) (svcs : List FailoverPusher) (g h : Gate P)
      → IsThrottled r gap fault provider g
      → IsThrottled r gap fault provider h
      → IsThrottled r gap fault provider (pushed (push_rounds limiter sender n k msg svcs g) h)
  push_rounds-IsThrottled zero k msg svcs g h ok_g ok_h = unfold push_rounds in ok_g
  push_rounds-IsThrottled (suc n) k msg svcs g h ok_g ok_h =
      let at = k % length svcs in
      elim (Option-cases (get_elem? svcs at)) [
        | inl missing ↦ rw (no_service n k msg svcs g missing) ok_h
        | inr (f, found) ↦
            (let tried = attempt-IsThrottled f msg g ok_g in
              elim (Attempt-cases limiter sender (attempt limiter sender f msg g)) [
                | inl (f', g', is) ↦
                    rw (push_delivered limiter sender n k msg svcs g found is) (rw is at tried)
                | inr (f', g', is) ↦ rw (push_next limiter sender n k msg svcs g found is) (
                    push_rounds-IsThrottled n (k + 1) msg (set svcs at f') g' h (rw is at tried)
                      ok_h)
              ])
      ]

  -- One `Push` after the other, each with the services as the goroutines of the pushers have left them.
  abbrev pub push_all : List (Message × List FailoverPusher) → Gate P → Gate P
  push_all [] g = g
  push_all ((msg, svcs) ∷ calls) g =
      push_all calls (pushed (push_limited limiter sender msg svcs g) g)

  push_all-IsThrottled :
      (calls : List (Message × List FailoverPusher)) (g : Gate P)
      → IsThrottled r gap fault provider g
      → IsThrottled r gap fault provider (push_all calls g)
  unfolding push_limited
  push_all-IsThrottled [] g h = h
  push_all-IsThrottled ((msg, svcs) ∷ calls) g h =
      push_all-IsThrottled calls (pushed (push_limited limiter sender msg svcs g) g)
        (push_rounds-IsThrottled 10 0 msg svcs g g h h)

  abbrev pub untouched : ℕ → P → Gate P
  untouched clock p = record {
    clock = clock;
    is_failed = false;
    failures = 0;
    sets = [];
    log = [];
    unlimited = [];
    providers = p;
  }

  untouched-IsThrottled : (clock : ℕ) (p : P) → IsThrottled r gap fault provider (untouched clock p)
  unfolding lookup
  untouched-IsThrottled clock p = record {
    follows = λ name now less. record { same = λ later h. refl; earlier = tt };
    room = λ name. tt;
    few = omega arith;
  }

  -- The limiter of `RateLimitPusher` is the sliding window, which starts with empty sets; no two of
  -- its calls come in the same millisecond, and any of them may fail, before the script runs. Then
  -- of the messages of any `Push` calls, one after the other, at most `rate` of those that the
  -- script let through reach the provider of one name in any stretch of `interval` milliseconds,
  -- by the times of these calls, whatever the providers answer and whichever services are out of
  -- use. A message whose call of the limiter failed goes through as well: there are at most as
  -- many of these as failed calls, and so none if redis always answers.
  pub pushes_within_rate :
      (calls : List (Message × List FailoverPusher)) (clock from : ℕ) (p : P) (name : String)
      → let g = push_all calls (untouched clock p) in
        (in_stretch from r.interval (times_of name g.log) ≤ r.rate)
        × (length g.unlimited ≤ g.failures)
  pushes_within_rate calls clock from p name =
      let h = push_all-IsThrottled calls (untouched clock p) (untouched-IsThrottled clock p) in
      (FoundRoom-stretch r from _ (h.room name), h.few)
