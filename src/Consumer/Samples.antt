-- ===== src/Consumer/Samples.antt =====
-- A pod that handles one message, for the tests.
use offlinepush.Base.{refl, List, [], ◌∷◌}
use offlinepush.Base.Int.{ℤ, pos, ◌-ℤ◌}
use offlinepush.Base.Dict.{insert, lookup}
use offlinepush.Domain.{Message}
use offlinepush.Counter.{new_counter, Access, pushed, hoped, accesses}
use offlinepush.Producer.{gauge_value, gauge_add}
use offlinepush.Consumer.{
  ConsumerMessage, Batch, begin, invoked, work, done, takes, works, signals, Returns, finish, Pod,
  start_batch, begins, moves, returns, elsewhere, Run, here, next,
}

abbrev pub hello : Message
hello = record {
  topic = record { name = "card"; domain = "" };
  device = record { type = ""; id = pos 7 };
}

abbrev pub received : ConsumerMessage
received = record { topic = "card"; partition = pos 3 }

abbrev pub begun : Batch
begun = begin (received ∷ []) (hello ∷ [])

abbrev pub waiting : Batch
waiting = work hello [] (invoked hello [] begun)

abbrev pub finished : Batch
finished = done [] waiting

pub finished-Returns : Returns finished
unfolding begin invoked work done ◌-ℤ◌
finished-Returns = record { looped = refl; waited = refl }

abbrev pub start : Pod
start = start_batch new_counter (gauge_add "card" (pos 1) [])

abbrev pub log : ℤ → List Access
log n = hoped n ∷ pushed ∷ []

-- The producer raises the hope count by `n`, and the message is counted.
abbrev pub one : ℤ → Pod
one n = record start { batches = finished ∷ []; counter = accesses new_counter (log n) }

pub one-Run : (n : ℤ) → Run start (log n) (one n)
unfolding start_batch accesses begin invoked work
one-Run n =
    next
      (next
        (next
          (next (next here (elsewhere (hoped n) (λ h. cc)))
            (begins (received ∷ []) (hello ∷ []) refl))
          (moves [] begun [] refl (takes hello refl)))
        (moves [] (invoked hello [] begun) [] refl (works hello [] [] refl)))
      (moves [] waiting [] refl (signals hello [] [] refl))

-- Its handler has returned.
abbrev pub after_one : ℤ → Pod
after_one n = record (one n) {
  batches = [];
  handled = hello ∷ [];
  gauge = gauge_add "card" (pos 0) [];
}

pub after_one-Run : (n : ℤ) → Run start (log n) (after_one n)
unfolding start_batch finish gauge_add gauge_value insert lookup begin invoked work done
after_one-Run n = next (one-Run n) (returns [] finished [] refl finished-Returns refl)
