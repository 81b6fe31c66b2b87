-- ===== src/Lock/Refresh.antt =====
-- The retries of `AutoRefresh`: how many there are, and when the loop can block itself.
use offlinepush.Base.{
  ℕ, zero, suc, ◌+◌, ◌≤◌, ◌≡◌, refl, ◌↔◌, Option, some, true, false, arith, leb, if◌then◌else◌, sym,
  ◌∙◌, ◌≢◌,
}
use offlinepush.Base.Result.{Error, deadline_exceeded, refresh_failed}
use offlinepush.Lock.{
  RefreshState, Outcome, running, returned, blocked, on_tick, on_retry, Step, tick, retry, done,
  Reach, start, step,
}

-- Between two cases of the select.
pub record IsSound (s : RefreshState) : Type 0 where
  pub capped : s.retry_cnt ≤ 3
  pub idle : s.pending ≡ false → s.retry_cnt ≡ 0

on_tick-IsSound :
    (s t : RefreshState) (answer : Option Error)
    → IsSound s
    → on_tick s answer ≡ running t
    → IsSound t
unfolding on_tick
on_tick-IsSound s t answer h e = ground arith

on_retry-IsSound :
    (s t : RefreshState) (answer : Option Error)
    → IsSound s
    → on_retry s answer ≡ running t
    → IsSound t
unfolding on_retry
on_retry-IsSound s t answer h e = ground arith

Step-IsSound : (s t : RefreshState) {o : Outcome} → Step s o → IsSound s → o ≡ running t → IsSound t
Step-IsSound s t (tick answer e) h r = on_tick-IsSound s t answer h (sym e ∙ r)
Step-IsSound s t (retry answer p e) h r = on_retry-IsSound s t answer h (sym e ∙ r)
Step-IsSound s t (done e) h r = cc

-- In every state that `AutoRefresh` reaches, whatever the answers and the choices of its select, at
-- most three retries have timed out in a row, and none is counted while no retry is due.
pub Reach-IsSound : {s : RefreshState} → Reach s → IsSound s
Reach-IsSound start = record { capped = omega arith; idle = λ e. refl }
Reach-IsSound (step {s} {t} r st e) = Step-IsSound s t st (Reach-IsSound r) e

-- n retries in a row, each of which times out
abbrev pub retry_again : Outcome → Outcome
retry_again (running s) = on_retry s (some deadline_exceeded)
retry_again o = o

abbrev pub timeouts : ℕ → Outcome → Outcome
timeouts zero o = o
timeouts (suc n) o = timeouts n (retry_again o)

timeouts-returned : (n : ℕ) (e : Error) → timeouts n (returned e) ≡ returned e
timeouts-returned zero e = refl
timeouts-returned (suc n) e = timeouts-returned n e

-- From a state with a retry due and c retries counted (c at most 3), n more retries that time out
-- leave the loop running with c + n counted if that is at most 3, and otherwise make `AutoRefresh`
-- return ErrRefreshFailed: the fourth timed-out retry in a row gives the lock up, and not before.
pub timeouts_lem :
    (n : ℕ) (s : RefreshState)
    → s.pending ≡ true
    → s.retry_cnt ≤ 3
    → timeouts n (running s) ≡ (
        if leb (s.retry_cnt + n) 3
        then running (record s { retry_cnt = s.retry_cnt + n })
        else returned refresh_failed)
unfolding on_retry
timeouts_lem zero s p h = ground arith
timeouts_lem (suc n) s p h = ground (
  arith,
  timeouts-returned n refresh_failed,
  timeouts_lem n (record { retry_cnt = s.retry_cnt + 1; pending = true }),
)

on_tick_blocked :
    (s : RefreshState) (answer : Option Error)
    → on_tick s answer ≡ blocked
    → (answer ≡ some deadline_exceeded) × (s.pending ≡ true)
unfolding on_tick
on_tick_blocked s answer h = ground arith

on_retry_unblocked : (s : RefreshState) (answer : Option Error) → on_retry s answer ≢ blocked
unfolding on_retry
on_retry_unblocked s answer h = ground arith

blocked_tick : (s : RefreshState) → s.pending ≡ true → on_tick s (some deadline_exceeded) ≡ blocked
unfolding on_tick
blocked_tick s p = rw p

pending_of_Step : (s : RefreshState) {o : Outcome} → Step s o → o ≡ blocked → s.pending ≡ true
pending_of_Step s (tick answer e) b = (on_tick_blocked s answer (sym e ∙ b)).1
pending_of_Step s (retry answer p e) b = p
pending_of_Step s (done e) b = cc

-- From any state, some case of the select can block `AutoRefresh` on its own send exactly when a
-- retry is due; it is then the ticker's case, with a refresh that times out, and never the retry's.
pub Step-blocked :
    (s : RefreshState)
    → (Step s blocked ↔ (s.pending ≡ true))
      × ((answer : Option Error)
          → (on_retry s answer ≢ blocked)
            × (on_tick s answer ≡ blocked → answer ≡ some deadline_exceeded))
Step-blocked s = (
  (λ st. pending_of_Step s st refl, λ p. tick (some deadline_exceeded) (sym (blocked_tick s p))),
  λ answer. (on_retry_unblocked s answer, λ b. (on_tick_blocked s answer b).0),
)
