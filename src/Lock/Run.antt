-- ===== src/Lock/Run.antt =====
-- The order in which `Run` takes a lock, starts and stops the business, and gives the lock back.
use offlinepush.Base.{◌≡◌, ◌⊎◌, List, [], ◌∷◌, Option, none, some, Bool, false, All, ◌||◌}
use offlinepush.Base.Result.{Error, ok, err, canceled, failed_to_preempt_lock}
use offlinepush.Lock.{
  Action, assign, broadcast_start, broadcast_stop, unlock, Round, is_canceled, apply_canceled,
  ApplyEvent, tried, ctx_done, ApplyOutcome, again, result, apply,
}

-- What an observer of the actions knows of the pod: the lock that it has, and whether the business runs.
pub data Phase (L : Type 0) : Type 0 where
  idle : Phase L
  held serving stopped : L → Phase L

-- The actions lead from one phase to another, each allowed where it is done: the business is started
-- only with a lock, and only a lock that it has, with the business stopped, is given back.
pub data Watch {L : Type 0} : Phase L → List (Action L) → Phase L → Type 0 where
  over : {p : Phase L} → Watch p [] p
  takes :
      {l : L} {acts : List (Action L)} {q : Phase L}
      → Watch (held l) acts q
      → Watch idle (assign (some l) ∷ acts) q
  starts :
      {l : L} {acts : List (Action L)} {q : Phase L}
      → Watch (serving l) acts q
      → Watch (held l) (broadcast_start ∷ acts) q
  stops :
      {l : L} {acts : List (Action L)} {q : Phase L}
      → Watch (stopped l) acts q
      → Watch (serving l) (broadcast_stop ∷ acts) q
  gives_back :
      {l : L} {acts : List (Action L)} {q : Phase L}
      → Watch idle acts q
      → Watch (stopped l) (unlock (some l) ∷ acts) q

-- Redis answers `TryLock` with the lock, or that another has it.
abbrev pub Answers : {L : Type 0} → ApplyEvent L → Type 0
Answers (tried (ok l)) = Unit
Answers (tried (err e)) = e ≡ failed_to_preempt_lock
Answers ctx_done = Unit

-- A round whose `Apply` ran on events without any other error of redis.
pub record Applied {L : Type 0} (r : Round L) : Type 0 where
  pub events : List (ApplyEvent L)
  pub answered : All Answers events
  pub applied : apply events ≡ result r.lock r.failure

-- The context was canceled in one of the rounds.
abbrev pub any_canceled : {L : Type 0} → List (Round L) → Bool
any_canceled [] = false
any_canceled (r ∷ rs) = apply_canceled r.failure || (is_canceled r.refresh || any_canceled rs)

-- The results of `Apply`: a lock without an error, or no lock and the context's error.
Locked : {L : Type 0} → Option L → Option Error → Type 0
Locked {L} lock failure =
    ((l : L) × (lock ≡ some l) × (failure ≡ none)) ⊎ ((lock ≡ none) × (failure ≡ some canceled))

lock_of : {L : Type 0} → ApplyOutcome L → Option L
lock_of again = none
lock_of (result l e) = l

failure_of : {L : Type 0} → ApplyOutcome L → Option Error
failure_of again = none
failure_of (result l e) = e
