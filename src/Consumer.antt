-- ===== src/Consumer.antt =====
-- internal/component/consumer.go and worker.go: the handler of batches, which sarama calls for each of
-- its claims in a goroutine of its own, and the workers of the pod. All batches share the pod's
-- counter and gauge. The pool of package ants and sarama's group are the choice between the steps.
pub mod Waiting
pub mod Counting
pub mod Gauge
pub mod Partitions
pub mod Samples
mod Tests
use Prim.Native.String.{◌++◌ as concat}
use offlinepush.Base.{
  ◌≡◌, ◌≢◌, ℕ, zero, suc, List, [], ◌∷◌, ◌++◌, Option, none, some, length, Bool, true, false,
  String,
}
use offlinepush.Base.Int.{ℤ, pos, ◌-ℤ◌}
use offlinepush.Base.Decimal.{decimal}
use offlinepush.Base.Dict.{Dict, insert, keys}
use offlinepush.Base.Result.{Error}
use offlinepush.Domain.{Message}
use offlinepush.Counter.{Counter, Access, pushed, access, accesses}
use offlinepush.Producer.{gauge_value}

-- The fields of `sarama.ConsumerMessage` that the handler reads.
pub record ConsumerMessage : Type 0 where
  pub topic : String
  pub partition : ℤ

-- One call of `BatchConsume`: its arguments, the messages that the loop has not reached, those that a
-- worker is pushing, those that are counted but not yet taken off the wait group, the counter of the
-- wait group, and the number of errors that were logged.
pub record Batch : Type 0 where
  pub sarama_msgs : List ConsumerMessage
  pub msgs : List Message
  pub rest : List Message
  pub running : List Message
  pub counted : List Message
  pub wg : ℤ
  pub logged : ℕ

-- `wg.Add(len(msgs))`, before the loop
unfoldable pub begin : List ConsumerMessage → List Message → Batch
begin sarama_msgs msgs = record {
  sarama_msgs = sarama_msgs;
  msgs = msgs;
  rest = msgs;
  running = [];
  counted = [];
  wg = pos (length msgs);
  logged = 0;
}

-- `workPool.Invoke` took the message, or returned an error, which is logged.
unfoldable pub invoked : Message → List Message → Batch → Batch
invoked m ms b = record b { rest = ms; running = m ∷ b.running }

unfoldable pub refused : List Message → Batch → Batch
refused ms b = record b { rest = ms; logged = suc b.logged }

-- `Push` sleeps and returns no error.
unfoldable pub push : Message → Option Error
push m = none

-- `Work`, whose `Push` has returned: the message is counted, whether or not there was an error, and
-- only then taken off the wait group. Between the two other goroutines may act.
unfoldable pub work : Message → List Message → Batch → Batch
work m running b = record b { running = running; counted = m ∷ b.counted }

unfoldable pub done : List Message → Batch → Batch
unfolding ◌-ℤ◌
done counted b = record b { counted = counted; wg = b.wg -ℤ pos 1 }

-- A step of one batch or of one of its workers, with its accesses to the pod's counter.
pub data Move : Batch → List Access → Batch → Type 0 where
  takes :
      {b : Batch} (m : Message) {ms : List Message} → b.rest ≡ m ∷ ms → Move b [] (invoked m ms b)
  refuses :
      {b : Batch} (m : Message) {ms : List Message} → b.rest ≡ m ∷ ms → Move b [] (refused ms b)
  works :
      {b : Batch} (m : Message) (before after : List Message)
      → b.running ≡ before ++ (m ∷ after)
      → Move b (pushed ∷ []) (work m (before ++ after) b)
  signals :
      {b : Batch} (m : Message) (before after : List Message)
      → b.counted ≡ before ++ (m ∷ after)
      → Move b [] (done (before ++ after) b)

-- The loop is over and `wg.Wait()` returns.
pub record Returns (b : Batch) : Type 0 where
  pub looped : b.rest ≡ []
  pub waited : b.wg ≡ pos 0

-- After the wait: the gauge of the first message's topic is lowered by the number of kafka messages.
-- `none` is the panic of `msgs[0]` on no message.
unfoldable pub gauge_sub : String → ℤ → Dict ℤ → Dict ℤ
unfolding gauge_value ◌-ℤ◌
gauge_sub topic n gauge = insert topic (gauge_value topic gauge -ℤ n) gauge

unfoldable pub finish : ℕ → List Message → Dict ℤ → Option (Dict ℤ)
unfolding gauge_sub
finish zero msgs gauge = some gauge
finish (suc n) [] gauge = none
finish (suc n) (m ∷ ms) gauge = some (gauge_sub m.topic.name (pos (suc n)) gauge)

-- The set `mp` of the topics and partitions of a batch, which the log names in any order.
unfoldable pub partition_name : ConsumerMessage → String
unfolding decimal
partition_name m = concat m.topic (concat ":" (decimal m.partition))

unfoldable pub partition_set : List ConsumerMessage → Dict (Unit {0}) → Dict (Unit {0})
unfolding partition_name
partition_set [] mp = mp
partition_set (m ∷ ms) mp = partition_set ms (insert (partition_name m) tt mp)

-- `strings.Join(res, ",")`
unfoldable pub join : List String → String
join [] = ""
join (s ∷ []) = s
join (s ∷ t ∷ ss) = concat s (concat "," (join (t ∷ ss)))

unfoldable pub logged_partitions : List ConsumerMessage → String
unfolding partition_set join
logged_partitions ms = join (keys (partition_set ms []))

-- The consumer of a pod: whether the one call of `Consume` runs, the calls of the handler that have
-- not returned, and the messages of those that have.
pub record Pod : Type 0 where
  pub consuming : Bool
  pub batches : List Batch
  pub handled : List Message
  pub counter : Counter
  pub gauge : Dict ℤ

-- `StartBatch`, once the group is there: `Consume` is called once, in a goroutine.
unfoldable pub start_batch : Counter → Dict ℤ → Pod
start_batch counter gauge = record {
  consuming = true;
  batches = [];
  handled = [];
  counter = counter;
  gauge = gauge;
}

-- A step of the pod and its accesses to the counter: sarama calls the handler, a batch moves, the
-- handler returns, `Consume` returns (its error is only logged), or another goroutine of the pod
-- changes the counter or the gauge.
pub data Step (p : Pod) : List Access → Pod → Type 0 where
  begins :
      (sarama_msgs : List ConsumerMessage) (msgs : List Message)
      → p.consuming ≡ true
      → Step p [] (record p { batches = begin sarama_msgs msgs ∷ p.batches })
  moves :
      (before : List Batch) (b : Batch) (after : List Batch) {l : List Access} {b' : Batch}
      → p.batches ≡ before ++ (b ∷ after)
      → Move b l b'
      → Step p l (record p { batches = before ++ (b' ∷ after); counter = accesses p.counter l })
  returns :
      (before : List Batch) (b : Batch) (after : List Batch) {gauge : Dict ℤ}
      → p.batches ≡ before ++ (b ∷ after)
      → Returns b
      → finish (length b.sarama_msgs) b.msgs p.gauge ≡ some gauge
      → Step p []
          (record p { batches = before ++ after; handled = p.handled ++ b.msgs; gauge = gauge })
  stops : p.consuming ≡ true → Option Error → Step p [] (record p { consuming = false })
  elsewhere :
      (a : Access) → a ≢ pushed → Step p (a ∷ []) (record p { counter = access p.counter a })
  measured : (gauge : Dict ℤ) → Step p [] (record p { gauge = gauge })

pub data Run (p : Pod) : List Access → Pod → Type 0 where
  here : Run p [] p
  next : {l m : List Access} {q r : Pod} → Run p l q → Step q m r → Run p (l ++ m) r
