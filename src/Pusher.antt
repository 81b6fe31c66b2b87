-- ===== src/Pusher.antt =====
-- internal/component/pusher/failover.go: a pusher that counts the errors of a service provider in a
-- row and takes it out of use; a goroutine pings the provider until it is well again.
-- The provider is not part of the repository: its answers are arguments.
pub mod Failover
pub mod RateLimited
pub mod Throttled
mod Tests
use offlinepush.Base.{
  ℕ, suc, ◌+◌, List, [], ◌∷◌, ◌++◌, String, Option, none, some, Bool, true, false, ltb, leb, length,
  get_elem?, set, ◌%◌, if◌then◌else◌,
}
use offlinepush.Base.Int.{ℤ, pos, ltb_ℤ}
use offlinepush.Base.Int32.{◌+₃₂◌}
use offlinepush.Base.Result.{Error, deadline_exceeded, pusher_error}
use offlinepush.Domain.{Topic, Device, Message}

-- `FailoverPusher` without its provider and logger, and with the counts of the goroutines that
-- `markNotAvailable` has started and that still run. `cnt` and `threshold` are int32.
pub record FailoverPusher : Type 0 where
  pub healthy : Bool
  pub name : String
  pub cnt : ℤ
  pub threshold : ℤ
  pub probes : List ℕ

abbrev pub ping_msg : Message
ping_msg = record {
  topic = record { name = "Ping"; domain = "" };
  device = record { type = ""; id = pos 0 };
}

-- The switch on the provider's answer.
unfoldable pub count_answer : Option Error → ℤ → ℤ
count_answer none cnt = pos 0
count_answer (some deadline_exceeded) cnt = cnt +₃₂ pos 1
count_answer (some _) cnt = cnt +₃₂ pos 1

unfoldable pub mark_not_available : FailoverPusher → FailoverPusher
mark_not_available f = record f { healthy = false; probes = f.probes ++ 0 ∷ [] }

-- `Push` after the provider has answered.
unfoldable pub on_answer : FailoverPusher → Option Error → Option Error × FailoverPusher
unfolding mark_not_available
on_answer f e =
    let f' = record f { cnt = count_answer e f.cnt } in
    if ltb_ℤ f'.threshold f'.cnt then (some pusher_error, mark_not_available f') else (e, f')

-- What a ping's answer makes of a probe: it runs on with a count, or it has recovered the pusher.
pub data Probe : Type 0 where
  probing : ℕ → Probe
  recovered : Probe

unfoldable pub probe_answer : ℕ → Option Error → Probe
probe_answer cnt none = if leb 10 (cnt + 1) then recovered else probing (cnt + 1)
probe_answer cnt (some e) = probing 0

-- The loop of one goroutine over the answers to its pings: what is left of them when it returns.
unfoldable pub probe : ℕ → List (Option Error) → Option (List (Option Error))
unfolding probe_answer
probe cnt [] = none
probe cnt (e ∷ es) = elim (probe_answer cnt e) [
  | probing cnt' ↦ probe cnt' es
  | recovered ↦ some es
]

-- internal/component/pusher/ratelimit.go. `W` is the state of the limiter and of the providers.
pub data Attempt (W : Type 0) : Type 0 where
  delivered next : FailoverPusher → W → Attempt W

pub data PushOutcome (W : Type 0) : Type 0 where
  returned : Option Error → List FailoverPusher → W → PushOutcome W
  -- the runtime error of `k%len(r.svcs)` when there is no service
  panicked : PushOutcome W

module _ {W : Type 0} (limit : String → W → (Bool × Option Error) × W)
    (provider : String → Message → W → Option Error × W) where
  unfoldable pub push : FailoverPusher → Message → W → Option Error × (FailoverPusher × W)
  push f msg w =
      let (e, w') = provider f.name msg w in let (result, f') = on_answer f e in (result, (f', w'))

  -- `switch er`: nil ends the loop, any error only logs
  unfoldable pub after_push : Option Error × (FailoverPusher × W) → Attempt W
  after_push (none, (f, w)) = delivered f w
  after_push (some e, (f, w)) = next f w

  -- What follows the limiter's answer; its error is only logged.
  unfoldable pub after_limit : FailoverPusher → Message → (Bool × Option Error) × W → Attempt W
  unfolding push after_push
  after_limit f msg ((limited, e), w) = if limited then next f w else after_push (push f msg w)

  -- One round of the loop.
  unfoldable pub attempt : FailoverPusher → Message → W → Attempt W
  unfolding after_limit
  attempt f msg w = if f.healthy then after_limit f msg (limit f.name w) else next f w

  -- The rounds that are left, from round k.
  unfoldable pub push_rounds : ℕ → ℕ → Message → List FailoverPusher → W → PushOutcome W
  push_rounds ℕ.zero k msg svcs w = returned (some pusher_error) svcs w
  push_rounds (suc n) k msg svcs w =
      let at = k % length svcs in
      elim (get_elem? svcs at) [
        | none ↦ panicked
        | some f ↦ elim (attempt f msg w) [
          | delivered f' w' ↦ returned none (set svcs at f') w'
          | next f' w' ↦ push_rounds n (k + 1) msg (set svcs at f') w'
        ]
      ]

  unfoldable pub push_limited : Message → List FailoverPusher → W → PushOutcome W
  unfolding push_rounds
  push_limited msg svcs w = push_rounds 10 0 msg svcs w
