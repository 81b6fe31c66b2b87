-- ===== src/Lock/Lease.antt =====
-- How long `AutoRefresh` goes on when redis answers no more: the lease of the lock may end before it.
use offlinepush.Base.{ℕ, ◌+◌, ◌*◌, ◌≤◌, ◌≡◌, ◌⊎◌, true, false, some}
use offlinepush.Base.Result.{deadline_exceeded}
use offlinepush.Config.{LockConfig}
use offlinepush.Lock.{
  RefreshState, fresh, Outcome, running, returned, blocked, on_tick, on_retry, run_timeout,
}

-- The loop and the milliseconds since redis renewed the lease for a tick, `late` milliseconds after
-- this tick, when no refresh after it is answered: each ends with its timeout. The next tick is one
-- interval after the tick before; the goroutine may wait any time before it is served.
pub data Silent (cfg : LockConfig) (late : ℕ) : Outcome → ℕ → Type 0 where
  renewed : Silent cfg late (running fresh) 0
  ticked :
      {s : RefreshState} {o : Outcome} {clock : ℕ} (wait : ℕ)
      → Silent cfg late (running s) clock
      → cfg.refresh_interval ≤ clock + wait + late
      → o ≡ on_tick s (some deadline_exceeded)
      → Silent cfg late o (clock + wait + run_timeout)
  retried :
      {s : RefreshState} {o : Outcome} {clock : ℕ} (wait : ℕ)
      → Silent cfg late (running s) clock
      → s.pending ≡ true
      → o ≡ on_retry s (some deadline_exceeded)
      → Silent cfg late o (clock + wait + run_timeout)

state_of : Outcome → RefreshState → RefreshState
state_of (running s) t = s
state_of (returned e) t = t
state_of blocked t = t

module _ (cfg : LockConfig) (late : ℕ) where
  -- How late it is at least: one interval and one timeout for the tick and for each retry so far.
  IsLate : Outcome → ℕ → Type 0
  IsLate (running s) clock =
      ((s.pending ≡ false) × (s.retry_cnt ≡ 0))
      ⊎ ((s.pending ≡ true)
          × (cfg.refresh_interval + (s.retry_cnt + 1) * run_timeout ≤ clock + late)
          × (s.retry_cnt ≤ 3))
  IsLate (returned e) clock = cfg.refresh_interval + 5 * run_timeout ≤ clock + late
  IsLate blocked clock = Unit
