-- ===== src/Pusher/Failover.antt =====
-- When a provider is taken out of use, and when it comes back.
use offlinepush.Base.{
  ℕ, zero, suc, ◌+◌, ◌-◌, ◌^◌, ◌≤◌, ◌<◌, ◌≡◌, refl, ap, ◌∙◌, sym, List, [], ◌∷◌, ◌++◌, map,
  append_assoc, Option, none, some, false, ltb, leb, length, replicate, arith, Bool-cases, inl, inr,
  if◌then◌else◌,
}
use offlinepush.Base.Int.{pos}
use offlinepush.Base.Int32.{◌+₃₂◌, pos-add₃₂}
use offlinepush.Base.Result.{Error, pusher_error, deadline_exceeded}
use offlinepush.Pusher.{FailoverPusher, count_answer, on_answer, probe}

-- The results of pushes one after the other, by the provider's answers, and the pusher after them.
unfoldable pub answers : FailoverPusher → List (Option Error) → List (Option Error) × FailoverPusher
answers f [] = ([], f)
answers f (e ∷ es) =
    let (result, f') = on_answer f e in
    let (results, f'') = answers f' es in (result ∷ results, f'')

count_error : (e : Error) (c : ℕ) → c + 1 < 2 ^ 31 → count_answer (some e) (pos c) ≡ pos (c + 1)
unfolding count_answer
count_error e c h = rw (pos-add₃₂ c 1 h) at (cases e)
  where
    cases : (e : Error) → count_answer (some e) (pos c) ≡ pos c +₃₂ pos 1
    cases deadline_exceeded = refl
    cases _ = refl

-- A failing push, by the count before it.
fail_step :
    (f : FailoverPusher) (e : Error) (c t : ℕ)
    → f.cnt ≡ pos c
    → f.threshold ≡ pos t
    → c + 1 < 2 ^ 31
    → ((on_answer f (some e)).0 ≡ (if ltb t (c + 1) then some pusher_error else some e))
      × ((on_answer f (some e)).1.cnt ≡ pos (c + 1))
      × ((on_answer f (some e)).1.threshold ≡ pos t)
      × ((on_answer f (some e)).1.healthy ≡ (if ltb t (c + 1) then false else f.healthy))
unfolding on_answer
fail_step f e c t hc ht b =
    let counted : count_answer (some e) f.cnt ≡ pos (c + 1) = rw hc (count_error e c b) in
    ground (arith, counted)

-- The provider's own errors while the allowance lasts, and PusherError from then on.
abbrev pub expected : ℕ → List (Option Error) → List (Option Error)
expected k [] = []
expected zero (e ∷ es) = some pusher_error ∷ expected zero es
expected (suc k) (e ∷ es) = e ∷ expected k es

expected_step :
    (t c : ℕ) (e : Option Error) (es : List (Option Error))
    → expected (t - c) (e ∷ es)
      ≡ (if ltb t (c + 1) then some pusher_error else e) ∷ expected (t - (c + 1)) es
expected_step t c e es = elim (Bool-cases (ltb t (c + 1))) [
  | inl over ↦
      (let now : t - c ≡ 0 = ground arith in
        let later : t - (c + 1) ≡ 0 = ground arith in rw (now, later, over) refl)
  | inr room ↦ (let now : t - c ≡ suc (t - (c + 1)) = ground arith in rw (now, room) refl)
]

fail_results :
    (es : List Error) (f : FailoverPusher) (c t : ℕ)
    → f.cnt ≡ pos c
    → f.threshold ≡ pos t
    → c + length es < 2 ^ 31
    → ((answers f (map some es)).0 ≡ expected (t - c) (map some es))
      × ((answers f (map some es)).1.cnt ≡ pos (c + length es))
unfolding answers
fail_results [] f c t hc ht b = (refl, hc ∙ ap pos (omega arith))
fail_results (e ∷ es) f c t hc ht b =
    let (res, cnt, thr, health) = fail_step f e c t hc ht (omega arith) in
    let (results, count) =
      fail_results es (on_answer f (some e)).1 (c + 1) t cnt thr (omega arith) in
    (
      rw (res, results) (sym (expected_step t c (some e) (map some es))),
      count ∙ ap pos (omega arith),
    )

-- nothing but a probe makes a pusher healthy
on_answer_unhealthy :
    (f : FailoverPusher) (e : Option Error) → f.healthy ≡ false → (on_answer f e).1.healthy ≡ false
unfolding on_answer
on_answer_unhealthy f e h = ground arith

pub answers_unhealthy :
    (f : FailoverPusher) (es : List (Option Error))
    → f.healthy ≡ false
    → (answers f es).1.healthy ≡ false
unfolding answers
answers_unhealthy f [] h = h
answers_unhealthy f (e ∷ es) h = answers_unhealthy (on_answer f e).1 es (on_answer_unhealthy f e h)

fail_health :
    (es : List Error) (f : FailoverPusher) (c t : ℕ)
    → f.cnt ≡ pos c
    → f.threshold ≡ pos t
    → c ≤ t
    → c + length es < 2 ^ 31
    → (answers f (map some es)).1.healthy ≡ (if ltb t (c + length es) then false else f.healthy)
unfolding answers
fail_health [] f c t hc ht h b = ground arith
fail_health (e ∷ es) f c t hc ht h b =
    let (res, cnt, thr, health) = fail_step f e c t hc ht (omega arith) in
    elim (Bool-cases (ltb t (c + 1))) [
      | inl over ↦ ground (arith, answers_unhealthy (on_answer f (some e)).1 (map some es))
      | inr room ↦ ground (arith, fail_health es (on_answer f (some e)).1 (c + 1) t cnt thr)
    ]

ok_step :
    (f : FailoverPusher) (t : ℕ)
    → f.threshold ≡ pos t
    → on_answer f none ≡ (none, record f { cnt = pos 0 })
unfolding on_answer count_answer
ok_step f t ht = ground arith

answers_ok :
    (f : FailoverPusher) (t : ℕ) (es : List (Option Error))
    → f.threshold ≡ pos t
    → let g = record f { cnt = pos 0 } in
      answers f (none ∷ es) ≡ (none ∷ (answers g es).0, (answers g es).1)
unfolding answers
answers_ok f t es ht =
    ap (λ (r : Option Error × FailoverPusher). (r.0 ∷ (answers r.1 es).0, (answers r.1 es).1))
      (ok_step f t ht)

-- After a push that succeeds, a pusher with threshold t (not negative) hands on the provider's own
-- errors for the next t failures in a row and PusherError for all later ones; it counts every one,
-- and goes out of use exactly if there are more than t. (The number of failures must fit an int32.)
pub failures_after_success :
    (f : FailoverPusher) (t : ℕ) (es : List Error)
    → f.threshold ≡ pos t
    → length es < 2 ^ 31
    → ((answers f (none ∷ map some es)).0 ≡ none ∷ expected t (map some es))
      × ((answers f (none ∷ map some es)).1.cnt ≡ pos (length es))
      × ((answers f (none ∷ map some es)).1.healthy
          ≡ (if ltb t (length es) then false else f.healthy))
failures_after_success f t es ht b =
    let g : FailoverPusher = record f { cnt = pos 0 } in
    let (results, count) = fail_results es g 0 t refl ht (omega arith) in
    let health = fail_health es g 0 t refl ht (omega arith) (omega arith) in
    let all : t - 0 ≡ t = omega arith in
    let len : 0 + length es ≡ length es = omega arith in
    rw (answers_ok f t (map some es) ht)
      (ap (λ rs. none ∷ rs) (rw all at results), rw len at count, rw len at health)

replicate_shift :
    (c : ℕ) (es : List (Option Error))
    → replicate c none ++ none ∷ es ≡ replicate (suc c) none ++ es
replicate_shift zero es = refl
replicate_shift (suc c) es = ap (λ xs. none ∷ xs) (replicate_shift c es)

-- the answers end in a row of ten without an error, before `rest`
abbrev pub Recovers : List (Option Error) → List (Option Error) → Type 0
Recovers es rest = (before : List (Option Error)) × (es ≡ before ++ (replicate 10 none ++ rest))

probe_from :
    (c : ℕ) (es rest : List (Option Error))
    → c < 10
    → probe c es ≡ some rest
    → Recovers (replicate c none ++ es) rest
unfolding probe
probe_from c [] rest h e = cc
probe_from c (some f ∷ es) rest h e =
    let (before, split) = probe_from 0 es rest (omega arith) e in
    (
      replicate c none ++ some f ∷ before,
      ap (λ xs. replicate c none ++ some f ∷ xs) split
          ∙ sym (append_assoc (replicate c none) (some f ∷ before) (replicate 10 none ++ rest)),
    )
probe_from c (none ∷ es) rest h e = elim (Bool-cases (leb 10 (c + 1))) [
  | inl full ↦
      (let nine : c ≡ 9 = ground arith in
        let same : es ≡ rest = ground arith in rw (nine, same) ([], refl))
  | inr more ↦
      (let (before, split) = probe_from (suc c) es rest (ground arith) (ground arith) in
        (before, replicate_shift c es ∙ split))
]

-- A probe of `markNotAvailable` makes its pusher healthy only right after ten answers in a row
-- without an error to its pings.
pub probe-Recovers : (es rest : List (Option Error)) → probe 0 es ≡ some rest → Recovers es rest
probe-Recovers es rest h = probe_from 0 es rest (omega arith) h
