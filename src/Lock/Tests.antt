-- ===== src/Lock/Tests.antt =====
-- The lock controller at concrete inputs.
use offlinepush.Base.{ℕ, arith, ◌↔◌, ◌≢◌, ◌≡◌, refl, Option, none, some, true}
use offlinepush.Base.Result.{Error, canceled, deadline_exceeded, refresh_failed}
use offlinepush.Lock.{
  unlock_panics, tolerated, send_retry, RefreshState, returned, blocked, on_tick, on_retry, Round,
  Step,
}
use offlinepush.Config.{LockConfig, dev_config}
use offlinepush.Lock.Lease.{Silent, renewed, ticked, retried}
use offlinepush.Lock.Refresh.{Step-blocked}

abbrev waiting : RefreshState
waiting = record { retry_cnt = 0; pending = true }

abbrev served : Round ℕ
served = record {
  lock = some 7;
  failure = none;
  refresh = refresh_failed;
  nil_lock = unlock_panics;
}

abbrev closing : Round ℕ
closing = record { lock = none; failure = some canceled; refresh = canceled; nil_lock = tolerated }

Step-blocked_example :
    (Step waiting blocked ↔ (waiting.pending ≡ true))
    × ((answer : Option Error)
        → (on_retry waiting answer ≢ blocked)
          × (on_tick waiting answer ≡ blocked → answer ≡ some deadline_exceeded))
Step-blocked_example = Step-blocked waiting

abbrev lease : LockConfig
lease = (dev_config "pod1").lock

-- The tick after the renewal and four retries, each served at once.
abbrev four_retries : Silent lease 0 (returned refresh_failed) 6500
unfolding on_tick on_retry send_retry
four_retries =
    retried 0
      (retried 0
        (retried 0 (retried 0 (ticked 5000 renewed (omega arith) refl) refl refl) refl refl) refl
        refl)
      refl refl
