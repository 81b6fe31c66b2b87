-- ===== src/Consumer/Tests.antt =====
-- The consumer at concrete inputs.
use offlinepush.Base.{ℕ, ◌+◌, ◌≤◌, ◌≡◌, refl, [], ◌∷◌}
use offlinepush.Base.Int.{pos, ◌+ℤ◌}
use offlinepush.Base.Int64.{wrap64}
use offlinepush.Base.Dict.{insert, lookup}
use offlinepush.Counter.{new_counter}
use offlinepush.Producer.{gauge_value, gauge_add}
use offlinepush.Consumer.{
  begin, invoked, work, done, finish, Pod, start_batch, begins, returns, Run, next,
}
use offlinepush.Consumer.Samples.{
  hello, received, begun, finished, finished-Returns, start, log, one, one-Run,
}
use offlinepush.Consumer.Counting.{in_flight, Returns-all, handled_is_pushed}

-- Two batches at a time: a second one was called, while the first has been finished by its worker.
abbrev two : Pod
two = record (one (pos 2)) { batches = begun ∷ finished ∷ [] }

two-Run : Run start (log (pos 2)) two
unfolding start_batch
two-Run = next (one-Run (pos 2)) (begins (received ∷ []) (hello ∷ []) refl)

Returns-all_example :
    (finished.logged ≡ 0) × (finished.rest ≡ []) × (finished.running ≡ []) × (finished.counted ≡ [])
Returns-all_example =
    Returns-all new_counter (gauge_add "card" (pos 1) []) (log (pos 2)) two (begun ∷ []) finished []
      two-Run refl finished-Returns

abbrev after_first : Pod
after_first = record two {
  batches = begun ∷ [];
  handled = hello ∷ [];
  gauge = gauge_add "card" (pos 0) [];
}

after_first-Run : Run start (log (pos 2)) after_first
unfolding start_batch finish gauge_add gauge_value insert lookup begin invoked work done
after_first-Run = next two-Run (returns (begun ∷ []) finished [] refl finished-Returns refl)

handled_is_pushed_example :
    (n : ℕ) × (after_first.counter.pushed_count ≡ wrap64 (pos 0 +ℤ pos n))
    × (1 ≤ n)
    × (n ≤ 1 + in_flight after_first.batches)
unfolding wrap64
handled_is_pushed_example =
    handled_is_pushed new_counter (pos 0) (gauge_add "card" (pos 1) []) (log (pos 2)) after_first
      refl ((λ h. cc), ((λ h. cc), tt)) after_first-Run
