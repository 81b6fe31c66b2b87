-- ===== src/Lock.antt =====
-- internal/lock/lock.go: the controller that competes for a redis lock and keeps it alive.
-- redis_lock is not part of the repository: what `TryLock` and `Refresh` answer is an argument.
pub mod Refresh
pub mod Apply
pub mod Run
pub mod Lease
mod Tests
use offlinepush.Base.{ℕ, zero, suc, ◌+◌, List, [], ◌∷◌, ◌++◌, Option, none, some, Bool, true, false}
use offlinepush.Base.{◌≡◌, ltb, if◌then◌else◌}
use offlinepush.Base.Result.{
  Error, Result, ok, err, canceled, deadline_exceeded, refresh_failed, failed_to_preempt_lock,
}

-- The variables of `AutoRefresh`: the retry counter, and whether `retryCh`, of capacity 1, is full.
pub record RefreshState : Type 0 where
  pub retry_cnt : ℕ
  pub pending : Bool

abbrev pub fresh : RefreshState
fresh = record { retry_cnt = 0; pending = false }

-- How a case of the `select` ends: the loop goes on, the function returns its error, or the send
-- on the full channel blocks, with no other goroutine to receive.
pub data Outcome : Type 0 where
  running : RefreshState → Outcome
  returned : Error → Outcome
  blocked : Outcome

-- `retryCh <- struct{}{}`
unfoldable pub send_retry : RefreshState → Outcome
send_retry s = if s.pending then blocked else running (record s { pending = true })

-- `case <-ticker.C`, with what `Refresh` answers
unfoldable pub on_tick : RefreshState → Option Error → Outcome
unfolding send_retry
on_tick s none = running (record s { retry_cnt = 0 })
on_tick s (some deadline_exceeded) = send_retry s
on_tick s (some _) = returned refresh_failed

-- `case <-retryCh`: the token is taken out before the refresh
unfoldable pub on_retry : RefreshState → Option Error → Outcome
unfolding send_retry
on_retry s none = running (record s { retry_cnt = 0; pending = false })
on_retry s (some deadline_exceeded) =
    let s' = record s { retry_cnt = s.retry_cnt + 1; pending = false } in
    if ltb 3 s'.retry_cnt then returned refresh_failed else send_retry s'
on_retry s (some _) = returned refresh_failed

-- The `select`: it may take any case that is ready. The ticker may be ready at any time.
pub data Step (s : RefreshState) : Outcome → Type 0 where
  tick : (answer : Option Error) {o : Outcome} → o ≡ on_tick s answer → Step s o
  retry :
      (answer : Option Error) {o : Outcome} → s.pending ≡ true → o ≡ on_retry s answer → Step s o
  done : (e : Error) → Step s (returned e)

-- A run of `AutoRefresh` up to a state of its loop.
pub data Reach : RefreshState → Type 0 where
  start : Reach fresh
  step : {s t : RefreshState} {o : Outcome} → Reach s → Step s o → o ≡ running t → Reach t

-- What a case of the `select` of `Apply` leads to: another round, or the two results.
pub data ApplyOutcome (L : Type 0) : Type 0 where
  again : ApplyOutcome L
  result : Option L → Option Error → ApplyOutcome L

-- An event of `Apply`: a tick, with what `TryLock` answers, or the end of the context.
pub data ApplyEvent (L : Type 0) : Type 0 where
  tried : Result L → ApplyEvent L
  ctx_done : ApplyEvent L

unfoldable pub apply_step : {L : Type 0} → ApplyEvent L → ApplyOutcome L
apply_step (tried (ok l)) = result (some l) none
apply_step (tried (err failed_to_preempt_lock)) = again
apply_step (tried (err e)) = result none (some e)
apply_step ctx_done = result none (some canceled)

-- The rest of the loop runs only after `again`.
abbrev pub continue : {L : Type 0} → ApplyOutcome L → ApplyOutcome L → ApplyOutcome L
continue again rest = rest
continue (result l failure) rest = result l failure

-- The loop of `Apply` over the events; `again` means that none of them ended it.
unfoldable pub apply : {L : Type 0} → List (ApplyEvent L) → ApplyOutcome L
apply [] = again
apply (e ∷ es) = continue (apply_step e) (apply es)

-- What `Run` does to the rest of the program: it sets `m.l`, which may be nil, wakes those who wait for
-- the start or the stop of the business, and unlocks `m.l`.
pub data Action (L : Type 0) : Type 0 where
  assign : Option L → Action L
  broadcast_start broadcast_stop : Action L
  unlock : Option L → Action L

-- What the methods of package redis_lock do on a nil lock: `Refresh` may panic, or only `Unlock`, or
-- neither; `AutoRefresh` then returns an error as for any lock.
pub data NilLock : Type 0 where
  refresh_panics unlock_panics tolerated : NilLock

-- One round of the loop of `Run`: the results of `Apply`, the error that `AutoRefresh` returns, and what
-- a nil lock does in this round.
pub record Round (L : Type 0) : Type 0 where
  pub lock : Option L
  pub failure : Option Error
  pub refresh : Error
  pub nil_lock : NilLock

-- How `Run` stands after its rounds; a panic ends the program.
pub data RunEnd : Type 0 where
  going finished panicked : RunEnd

abbrev pub is_canceled : Error → Bool
is_canceled canceled = true
is_canceled _ = false

abbrev pub apply_canceled : Option Error → Bool
apply_canceled none = false
apply_canceled (some e) = is_canceled e

-- A round from `m.l = lock` on, and whether it panics. `AutoRefresh` never returns nil, so its error
-- branch is always taken.
unfoldable pub serve_nil : {L : Type 0} → NilLock → List (Action L) × Bool
serve_nil refresh_panics = (assign none ∷ broadcast_start ∷ [], true)
serve_nil unlock_panics = (assign none ∷ broadcast_start ∷ broadcast_stop ∷ [], true)
serve_nil tolerated = (assign none ∷ broadcast_start ∷ broadcast_stop ∷ unlock none ∷ [], false)

unfoldable pub serve : {L : Type 0} → Option L → NilLock → List (Action L) × Bool
unfolding serve_nil
serve none nil_lock = serve_nil nil_lock
serve (some l) nil_lock =
    (assign (some l) ∷ broadcast_start ∷ broadcast_stop ∷ unlock (some l) ∷ [], false)

-- The timeout with which `Run` calls `AutoRefresh`, in milliseconds.
abbrev pub run_timeout : ℕ
run_timeout = 300

-- The ends of a round: `Apply` was canceled, the round panicked, `AutoRefresh` was canceled, or the
-- loop goes on.
unfoldable pub close :
    {L : Type 0}
    → Bool
    → Bool
    → List (Action L) × Bool
    → List (Action L) × RunEnd
    → List (Action L) × RunEnd
close true b acts later = ([], finished)
close false b (acts, true) later = (acts, panicked)
close false true (acts, false) later = (acts, finished)
close false false (acts, false) (later, end) = (acts ++ later, end)

-- The actions of `Run`, and how it stands.
unfoldable pub run : {L : Type 0} → List (Round L) → List (Action L) × RunEnd
unfolding serve close
run [] = ([], going)
run (r ∷ rs) =
    close (apply_canceled r.failure) (is_canceled r.refresh) (serve r.lock r.nil_lock) (run rs)

-- `Stop`: unlocks `m.l` if it is not nil.
unfoldable pub stop : {L : Type 0} → Option L → List (Action L)
stop none = []
stop (some l) = unlock (some l) ∷ []
