-- ===== src/Producer/Task/Ending.antt =====
-- A task ends: the goroutines have a bounded number of steps in all, whatever fails.
use offlinepush.Base.{
  ℕ, zero, suc, ◌+◌, ◌-◌, ◌*◌, ◌/◌, ◌^◌, ◌≤◌, ◌<◌, ◌≡◌, ◌⊎◌, refl, ap, ◌∙◌, List, [], ◌∷◌, ◌++◌,
  map, length, String, Option, none, some, Bool, true, false, All, arith, Option-cases, inl, inr,
}
use offlinepush.Base.Int.{ℤ, pos, pos_part, ltb_ℤ}
use offlinepush.Base.Int64.{◌+₆₄◌, pos-add₆₄}
use offlinepush.Base.Result.{Error}
use offlinepush.Config.{PushConfig}
use offlinepush.Dao.{Gorm, Cursor}
use offlinepush.Producer.{ProducerMessage, World, round}
use offlinepush.Producer.Task.Readers.{IsAt, HasReturned, All-middle, All-reader, below_num}
use offlinepush.Producer.Task.{
  Reader, Task, reader, after_round, next, advance, Step, reads, Reach, here, further,
}

-- The rounds that a goroutine has before it, and its return.
abbrev pub todo : ℕ → Reader → ℕ
todo num r = elim r.result [ none ↦ suc ((num - pos_part r.i + 99) / 100) | some e ↦ 0 ]

abbrev pub todos : ℕ → List Reader → ℕ
todos num [] = 0
todos num (r ∷ rs) = todo num r + todos num rs

todos-middle :
    (num : ℕ) (before : List Reader) (r : Reader) (after : List Reader)
    → todos num (before ++ (r ∷ after)) ≡ todo num r + todos num (before ++ after)
todos-middle num [] r after = refl
todos-middle num (x ∷ before) r after = omega (arith, todos-middle num before r after)

running_todo :
    (num k : ℕ) (r : Reader)
    → r.i ≡ pos k
    → r.result ≡ none
    → todo num r ≡ suc ((num - k + 99) / 100)
running_todo num k r i running = rw (running, i) refl

returned_todo : (num : ℕ) (r : Reader) (e : Option Error) → r.result ≡ some e → todo num r ≡ 0
returned_todo num r e gone = rw gone refl

begin-todos :
    (num : ℕ) (types : List String)
    → todos num (map reader types) ≡ length types * suc ((num + 99) / 100)
begin-todos num [] = omega arith
begin-todos num (t ∷ types) = omega (arith, begin-todos num types)

-- Either all have returned, or one is still running.
still_running :
    (rs : List Reader)
    → All HasReturned rs
      ⊎ ((before : List Reader) × (r : Reader) × (after : List Reader) × (rs
            ≡ before ++ (r ∷ after))
          × (r.result ≡ none))
still_running [] = inl tt
still_running (r ∷ rs) = elim (Option-cases r.result) [
  | inl running ↦ inr ([], r, rs, refl, running)
  | inr (e, gone) ↦ elim (still_running rs) [
    | inl all ↦ inl ((λ h. cc), all)
    | inr (before, s, after, split, running) ↦
        inr (r ∷ before, s, after, ap (λ l. r ∷ l) split, running)
  ]
]

after_round-todo :
    (num k : ℕ) (r : Reader) (e : Option Error) (cursor : Cursor)
    → r.i ≡ pos k
    → r.result ≡ none
    → k < num
    → num + 100 < 2 ^ 63
    → (todo num (after_round r e cursor) < todo num r) × IsAt num (after_round r e cursor)
unfolding after_round
after_round-todo num k r none cursor i running less b =
    let next_i : r.i +₆₄ pos 100 ≡ pos (k + 100) =
      ap (λ (z : ℤ). z +₆₄ pos 100) i ∙ pos-add₆₄ k 100 (omega arith) in
    rw (running, next_i, i) (omega arith, (refl, omega arith))
after_round-todo num k r (some e) cursor i running less b =
    rw (running, i) (omega arith, (refl, omega arith))

module _ {D K : Type 0} (gorm : Gorm D) (send : List ProducerMessage → K → Option Error × K)
    (cfg : PushConfig) (num : ℕ) (asked : cfg.num ≡ pos num) (fits : num + 100 < 2 ^ 63) where
  next-todo :
      (b : Bool) (r : Reader) (w : World D K) (k : ℕ)
      → ltb_ℤ r.i cfg.num ≡ b
      → r.i ≡ pos k
      → k < num + 100
      → r.result ≡ none
      → let r' = (next gorm send cfg b r w).0 in (todo num r' < todo num r) × IsAt num r'
  unfolding next
  next-todo false r w k more i at running =
      (omega (arith, running_todo num k r i running), rw i (refl, at))
  next-todo true r w k more i at running =
      let one = round gorm send cfg.topic r.typ cfg.num r.i r.cursor w in
      after_round-todo num k r one.0 one.1.0 i running (below_num r.i cfg.num k num i asked more)
        fits

  -- A step leaves less to do.
  Step-todos :
      {t u : Task D K}
      → All (IsAt num) t.readers
      → Step gorm send cfg t u
      → (todos num u.readers < todos num t.readers) × All (IsAt num) u.readers
  unfolding advance
  Step-todos {t} h (reads before r after e running) =
      let (at, put) = All-middle (IsAt num) before r after (rw e at h) in
      let r' = (advance gorm send cfg r t.world).0 in
      let (fewer, at') =
        next-todo (ltb_ℤ r.i cfg.num) r t.world (pos_part r.i) refl at.0 at.1 running in
      (
        omega (
          arith,
          ap (todos num) e,
          todos-middle num before r after,
          todos-middle num before r' after,
          fewer,
        ),
        put r' at',
      )

  -- the steps of a run
  abbrev pub steps : {t u : Task D K} → Reach gorm send cfg t u → ℕ
  steps here = 0
  steps (further r s) = suc (steps r)

  Reach-todos :
      {t u : Task D K} (r : Reach gorm send cfg t u)
      → All (IsAt num) t.readers
      → (steps r + todos num u.readers ≤ todos num t.readers) × All (IsAt num) u.readers
  Reach-todos here h = (omega arith, h)
  Reach-todos (further r s) h =
      let (few, at) = Reach-todos r h in
      let (fewer, at') = Step-todos at s in (omega (arith, few, fewer), at')

  Reach-trans :
      {t u v : Task D K}
      → Reach gorm send cfg t u
      → Reach gorm send cfg u v
      → Reach gorm send cfg t v
  Reach-trans r here = r
  Reach-trans r (further q s) = further (Reach-trans r q) s

  -- From any state the task can go on to its end.
  pub can_end :
      (n : ℕ) (t : Task D K)
      → todos num t.readers ≤ n
      → All (IsAt num) t.readers
      → (u : Task D K) × Reach gorm send cfg t u × All HasReturned u.readers
  can_end zero t few h = elim (still_running t.readers) [
    | inl all ↦ (t, here, all)
    | inr (before, r, after, split, running) ↦
        absurd (omega (arith, (Step-todos {t = t} h (reads before r after split running)).0))
  ]
  can_end (suc n) t few h = elim (still_running t.readers) [
    | inl all ↦ (t, here, all)
    | inr (before, r, after, split, running) ↦
        (let step = reads before r after split running in
          let (fewer, at) = Step-todos {t = t} h step in
          let (u, rest, all) = can_end n _ (omega (arith, fewer, few)) at in
          (u, Reach-trans (further here step) rest, all))
  ]

  -- Whatever the database and the broker answer, and in whatever order they run, goroutines that
  -- start together, one for each of some types, as those of one pod for a task or those of all
  -- pods, take at most one step for each hundred of `num` begun and one for the return, for each
  -- type; and wherever they stand, they can go on until every one has returned. The number must not
  -- be negative, and it must fit an int with one batch added.
  pub task_ends :
      (types : List String) (w : World D K) (t : Task D K)
      (r : Reach gorm send cfg (record { readers = map reader types; world = w }) t)
      → (steps r ≤ length types * suc ((num + 99) / 100))
        × ((u : Task D K) × Reach gorm send cfg t u × All HasReturned u.readers)
  task_ends types w t r =
      let (few, at) = Reach-todos r (All-reader num types) in
      (omega (arith, few, begin-todos num types), can_end (todos num t.readers) t (omega arith) at)
