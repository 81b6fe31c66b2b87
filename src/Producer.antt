-- ===== src/Producer.antt =====
-- internal/component/producer.go: reads the devices of a task page by page and sends a message for
-- each to kafka. The broker is the parameter `send`; the database is the parameter of `Dao`.
mod Steps
pub mod Delivery
pub mod Loop
pub mod Task
mod Tests
use mathlib.Core.Option
use offlinepush.Base.{ℕ, zero, suc, List, [], ◌++◌, String, Option, none, some, map, length}
use offlinepush.Base.{if◌then◌else◌, true, false}
use offlinepush.Base.Int.{ℤ, pos, ltb_ℤ, ◌+ℤ◌}
use offlinepush.Base.Int64.{◌+₆₄◌, ◌-₆₄◌}
use offlinepush.Base.Dict.{Dict, lookup, insert}
use offlinepush.Base.Result.{Error, Result, ok, err}
use offlinepush.Domain.{Topic, Device, Message}
use offlinepush.Dao.{Gorm, Cursor}
use offlinepush.Config.{PushConfig}
use offlinepush.Json.{Codec}
use offlinepush.Registry.{Event}
use offlinepush.Repository

-- `sarama.ProducerMessage`: the topic's name, and the value before its JSON encoding.
pub record ProducerMessage : Type 0 where
  pub topic : String
  pub value : Message

-- What the producer acts on: the database, the broker, and the gauge of `prometheus.MessageGauge`.
-- `sent` records the messages that the broker accepted. The gauge's floats are whole numbers.
pub record World (D K : Type 0) : Type 0 where
  pub db : D
  pub broker : K
  pub sent : List ProducerMessage
  pub gauge : Dict ℤ

-- MessageGauge.WithLabelValues(topic).Add(…)
unfoldable pub gauge_value : String → Dict ℤ → ℤ
gauge_value topic gauge = Option.get_or (lookup topic gauge) (pos 0)

unfoldable pub gauge_add : String → ℤ → Dict ℤ → Dict ℤ
unfolding gauge_value ◌+ℤ◌
gauge_add topic n gauge = insert topic (gauge_value topic gauge +ℤ n) gauge

abbrev pub batch_size : ℕ
batch_size = 100

unfoldable pub batch_limit : ℤ → ℤ → ℤ
batch_limit num i = if ltb_ℤ (num -₆₄ i) (pos batch_size) then num -₆₄ i else pos batch_size

unfoldable pub message : Topic → Device → ProducerMessage
message topic d = record { topic = topic.name; value = record { topic = topic; device = d } }

-- What `watchTaskCh` makes of an event on the channel of manual tasks: nothing if the note cannot be
-- read, and else a task for `doTask`.
unfoldable pub task_read : PushConfig × Option Error → Option PushConfig
task_read (cfg, some e) = none
task_read (cfg, none) = some cfg

unfoldable pub manual_task : Codec PushConfig → Event → Option PushConfig
unfolding task_read
manual_task codec evt = task_read (codec.unmarshal evt.ins.note)

module _ {D K : Type 0} (gorm : Gorm D) (send : List ProducerMessage → K → Option Error × K) where
  -- After SendMessages: on success the gauge counts the batch.
  unfoldable pub after_send :
      Topic → List ProducerMessage → Option Error → World D K → Option Error × World D K
  unfolding gauge_add
  after_send topic msgs none w = (
    none,
    record w { sent = w.sent ++ msgs; gauge = gauge_add topic.name (pos (length msgs)) w.gauge },
  )
  after_send topic msgs (some failure) w = (some failure, w)

  unfoldable pub send_batch : Topic → List Device → World D K → Option Error × World D K
  unfolding message after_send
  send_batch topic ds w =
      let msgs = map (message topic) ds in
      let (e, broker') = send msgs w.broker in
      after_send topic msgs e (record w { broker = broker' })

  -- After FindDevicesPage: an error ends the loop, and no message of this page is sent.
  unfoldable pub after_find :
      Topic → Result (List Device) → Cursor → World D K → Option Error × (Cursor × World D K)
  unfolding send_batch
  after_find topic (err failure) cursor w = (some failure, (cursor, w))
  after_find topic (ok ds) cursor w = let (e, w') = send_batch topic ds w in (e, (cursor, w'))

  -- One round of the loop of `ReadAndSend`: the error that ends it, and the cursor after it.
  unfoldable pub round :
      Topic → String → ℤ → ℤ → Cursor → World D K → Option Error × (Cursor × World D K)
  unfolding batch_limit after_find
  round topic typ num i cursor w =
      let (found, (cursor', db')) =
        Repository.find_devices_page gorm typ (batch_limit num i) cursor w.db in
      after_find topic found cursor' (record w { db = db' })

  -- `for i < num { …; i += batchSize }` on fuel; `none` says that the fuel ran out.
  unfoldable pub rounds :
      ℕ → Topic → String → ℤ → ℤ → Cursor → World D K → Option (Option Error × World D K)
  rounds zero topic typ num i cursor w = none
  rounds (suc fuel) topic typ num i cursor w = elim (ltb_ℤ i num) [
    | true ↦
        (let (e, (cursor', w')) = round topic typ num i cursor w in
          elim e [
            | none ↦ rounds fuel topic typ num (i +₆₄ pos batch_size) cursor' w'
            | some failure ↦ some (some failure, w')
          ])
    | false ↦ some (none, w)
  ]

  unfoldable pub read_and_send :
      ℕ → Topic → String → ℤ → World D K → Option (Option Error × World D K)
  read_and_send fuel topic typ num w =
      rounds fuel topic typ num (pos 0) (record { position = pos 0 }) w
