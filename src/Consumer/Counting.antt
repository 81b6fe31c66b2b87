-- ===== src/Consumer/Counting.antt =====
-- The pod's counter against the messages of its batches, which run at the same time.
use offlinepush.Base.{
  ℕ, ◌+◌, ◌≤◌, ◌≡◌, refl, sym, ap, ◌∙◌, List, [], ◌∷◌, ◌++◌, append-nil, length, length-append, All,
  arith,
}
use offlinepush.Base.Int.{pos, ◌+ℤ◌}
use offlinepush.Base.Int64.{wrap64}
use offlinepush.Base.Dict.{Dict}
use offlinepush.Base.Int.{ℤ}
use offlinepush.Counter.{Counter, Access, pushed, hoped, reset_hope, reset_pushed, accesses}
use offlinepush.Counter.Counting.{count_pushed, KeepsPushed, accesses-append, pushed_since}
use offlinepush.Consumer.{
  Batch, Pod, begin, start_batch, Step, begins, moves, returns, stops, elsewhere, measured, Run,
  here, next, Returns,
}
use offlinepush.Consumer.Waiting.{
  uncounted, IsWaiting, begin-IsWaiting, Move-IsWaiting, Move-uncounted, Returns-uncounted,
}

-- The messages of the calls that have not returned, and those of them that are not counted.
abbrev pub in_flight : List Batch → ℕ
in_flight [] = 0
in_flight (b ∷ bs) = length b.msgs + in_flight bs

abbrev pub all_uncounted : List Batch → ℕ
all_uncounted [] = 0
all_uncounted (b ∷ bs) = uncounted b + all_uncounted bs

pub in_flight-middle :
    (before : List Batch) (b : Batch) (after : List Batch)
    → in_flight (before ++ (b ∷ after)) ≡ length b.msgs + in_flight (before ++ after)
in_flight-middle [] b after = refl
in_flight-middle (x ∷ before) b after = omega (arith, in_flight-middle before b after)

all_uncounted-middle :
    (before : List Batch) (b : Batch) (after : List Batch)
    → all_uncounted (before ++ (b ∷ after)) ≡ uncounted b + all_uncounted (before ++ after)
all_uncounted-middle [] b after = refl
all_uncounted-middle (x ∷ before) b after = omega (arith, all_uncounted-middle before b after)

All-middle :
    (before : List Batch) (b : Batch) (after : List Batch)
    → All IsWaiting (before ++ (b ∷ after))
    → IsWaiting b
      × All IsWaiting (before ++ after)
      × ((c : Batch) → IsWaiting c → All IsWaiting (before ++ (c ∷ after)))
All-middle [] b after (h, hs) = (h, hs, λ c p. (p, hs))
All-middle (x ∷ before) b after (h, hs) =
    let (own, rest, put) = All-middle before b after hs in (own, (h, rest), λ c p. (h, put c p))

uncounted_bound : (bs : List Batch) → All IsWaiting bs → all_uncounted bs ≤ in_flight bs
uncounted_bound [] h = omega arith
uncounted_bound (b ∷ bs) (own, h) = omega (arith, own.total, uncounted_bound bs h)

pub count_pushed-append :
    (l m : List Access) → count_pushed (l ++ m) ≡ count_pushed l + count_pushed m
count_pushed-append [] m = omega arith
count_pushed-append (pushed ∷ l) m = omega (arith, count_pushed-append l m)
count_pushed-append (hoped d ∷ l) m = count_pushed-append l m
count_pushed-append (reset_hope ∷ l) m = count_pushed-append l m
count_pushed-append (reset_pushed ∷ l) m = count_pushed-append l m

not_counted : (a : Access) → (a ≡ pushed → ⊥) → count_pushed (a ∷ []) ≡ 0
not_counted pushed h = absurd (h refl)
not_counted (hoped d) h = refl
not_counted reset_hope h = refl
not_counted reset_pushed h = refl

-- What holds after the accesses `l` of a pod that began with the counter `c`.
pub record IsCounted (c : Counter) (l : List Access) (p : Pod) : Type 0 where
  pub counter : p.counter ≡ accesses c l
  pub number : count_pushed l + all_uncounted p.batches ≡ length p.handled + in_flight p.batches
  pub waiting : All IsWaiting p.batches

appended :
    (c : Counter) (l m : List Access) (d : Counter)
    → d ≡ accesses c l
    → accesses d m ≡ accesses c (l ++ m)
appended c l m d h = ap (λ (x : Counter). accesses x m) h ∙ sym (accesses-append c l m)

Step-IsCounted :
    {c : Counter} {l m : List Access} {p q : Pod}
    → IsCounted c l p
    → Step p m q
    → IsCounted c (l ++ m) q
unfolding begin accesses
Step-IsCounted {c} {l} {m} {p} h (begins sarama_msgs msgs on) = rw (append-nil l) (record {
  counter = h.counter;
  number = omega (arith, h.number);
  waiting = (begin-IsWaiting sarama_msgs msgs, h.waiting);
})
Step-IsCounted {c} {l} {m} {p} h (moves before b after {b' = b'} e s) =
    let (own, rest, put) = All-middle before b after (rw e at h.waiting) in
    let (number, same) = Move-uncounted s in
    record {
      counter = appended c l m p.counter h.counter;
      number = omega (
        arith,
        h.number,
        number,
        ap length same,
        ap all_uncounted e,
        ap in_flight e,
        all_uncounted-middle before b after,
        all_uncounted-middle before b' after,
        in_flight-middle before b after,
        in_flight-middle before b' after,
        count_pushed-append l m,
      );
      waiting = put b' (Move-IsWaiting own s);
    }
Step-IsCounted {c} {l} {m} {p} h (returns before b after e ret fine) =
    let (own, rest, put) = All-middle before b after (rw e at h.waiting) in
    let (taken, idle, all_done, none_left) = Returns-uncounted own ret in
    rw (append-nil l) (record {
      counter = h.counter;
      number = omega (
        arith,
        h.number,
        none_left,
        ap all_uncounted e,
        ap in_flight e,
        all_uncounted-middle before b after,
        in_flight-middle before b after,
        length-append p.handled b.msgs,
      );
      waiting = rest;
    })
Step-IsCounted {c} {l} h (stops on error) =
    rw (append-nil l) (record { counter = h.counter; number = h.number; waiting = h.waiting })
Step-IsCounted {c} {l} {m} {p} h (elsewhere a other_) = record {
  counter = appended c l (a ∷ []) p.counter h.counter;
  number = omega (arith, h.number, not_counted a other_, count_pushed-append l (a ∷ []));
  waiting = h.waiting;
}
Step-IsCounted {c} {l} h (measured gauge) =
    rw (append-nil l) (record { counter = h.counter; number = h.number; waiting = h.waiting })

pub Run-IsCounted :
    {c : Counter} (gauge : Dict ℤ) {l : List Access} {p : Pod}
    → Run (start_batch c gauge) l p
    → IsCounted c l p
unfolding start_batch accesses
Run-IsCounted gauge here = record { counter = refl; number = refl; waiting = tt }
Run-IsCounted gauge (next r s) = Step-IsCounted (Run-IsCounted gauge r) s

-- However the batches of a pod, their workers and the other goroutines interleave: when a handler
-- can return, none of its messages was refused and every one is finished, so a batch in which
-- `Invoke` returned an error never returns.
pub Returns-all :
    (c : Counter) (gauge : Dict ℤ) (l : List Access) (p : Pod) (before : List Batch) (b : Batch)
    (after : List Batch)
    → Run (start_batch c gauge) l p
    → p.batches ≡ before ++ (b ∷ after)
    → Returns b
    → (b.logged ≡ 0) × (b.rest ≡ []) × (b.running ≡ []) × (b.counted ≡ [])
Returns-all c gauge l p before b after r e ret =
    let (own, rest, put) = All-middle before b after (rw e at (Run-IsCounted gauge r).waiting) in
    let (taken, idle, all_done, none_left) = Returns-uncounted own ret in
    (taken, ret.looped, idle, all_done)

-- However the batches of a pod, their workers and the other goroutines interleave, if the count of
-- pushed messages is not reset, it grows by at least the messages of the handlers that have
-- returned, at most those of all handlers that were called, and exactly by the former when no
-- handler is running; the sum is wrapped to 64 bits.
pub handled_is_pushed :
    (c : Counter) (x : ℤ) (gauge : Dict ℤ) (l : List Access) (p : Pod)
    → c.pushed_count ≡ wrap64 x
    → All KeepsPushed l
    → Run (start_batch c gauge) l p
    → (n : ℕ) × (p.counter.pushed_count ≡ wrap64 (x +ℤ pos n))
      × (length p.handled ≤ n)
      × (n ≤ length p.handled + in_flight p.batches)
handled_is_pushed c x gauge l p from keeps r =
    let h = Run-IsCounted gauge r in
    (
      count_pushed l,
      ap (λ (d : Counter). d.pushed_count) h.counter ∙ pushed_since l c x keeps from,
      omega (arith, h.number, uncounted_bound p.batches h.waiting),
      omega (arith, h.number),
    )
