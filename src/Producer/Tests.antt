-- ===== src/Producer/Tests.antt =====
-- Runs of the producer over small tables, and the theorems at concrete inputs.
use offlinepush.Base.{
  ℕ, ◌≡◌, refl, List, [], ◌∷◌, Option, none, some, take, arith, length, ◌+◌, ◌≤◌,
}
use offlinepush.Base.Int.{pos, ◌-ℤ◌}
use offlinepush.Base.Int64.{◌+₆₄◌, ◌-₆₄◌, wrap64}
use offlinepush.Base.Dict.{lookup, insert}
use offlinepush.Repository
use offlinepush.Base.Result.{Error, other}
use offlinepush.Domain.{Topic}
use offlinepush.Dao
use offlinepush.Dao.{Query}
use offlinepush.Dao.Table.{scan_gorm, scan_gorm-IndexScan, scan_gorm-RespectsLimit, above, rows_of}
use offlinepush.Producer.{ProducerMessage, World, message, round, rounds, read_and_send}
use offlinepush.Producer.Delivery.{Delivered, read_and_send-delivers}
use offlinepush.Producer.Loop.{read_and_send-returns}

abbrev row : ℕ → Dao.Device
row n = record { id = pos n; type = "DeviceA"; cid = pos n; ctime = pos 0; utime = pos 0 }

abbrev three_rows : List Dao.Device
three_rows = row 1 ∷ row 4 ∷ row 9 ∷ []

abbrev accept : List ProducerMessage → ℕ → Option Error × ℕ
accept msgs k = (none, k + 1)

abbrev refuse : List ProducerMessage → ℕ → Option Error × ℕ
refuse msgs k = (some (other "kafka"), k)

abbrev start : World (List Dao.Device) ℕ
start = record { db = three_rows; broker = 0; sent = []; gauge = [] }

abbrev card : Topic
card = record { name = "card"; domain = "www.card.iHome.com" }

read_and_send-delivers_example :
    (w' : World (List Dao.Device) ℕ) × (read_and_send scan_gorm accept 2 card "DeviceA"
        (pos 2)
        start
      ≡ some (none, w'))
    × Delivered (λ db. db) card (take 2 (above (pos 0) (rows_of "DeviceA" three_rows))) start w'
read_and_send-delivers_example =
    read_and_send-delivers scan_gorm accept (λ db. db) scan_gorm-IndexScan (λ msgs k. refl) 1 card
      "DeviceA" 2 start (omega arith) (omega arith) (omega arith)

read_and_send-returns_example :
    (e : Option Error) × (w' : World (List Dao.Device) ℕ) × (read_and_send scan_gorm refuse 3 card
        "DeviceA"
        (pos 150)
        start
      ≡ some (e, w'))
    × (length w'.sent ≤ 0 + 150)
read_and_send-returns_example =
    read_and_send-returns scan_gorm refuse scan_gorm-RespectsLimit 2 card "DeviceA" (pos 150) start
      (omega arith) (omega arith)

-- The two rows past the cursor, without their type.
two_sent :
    read_and_send scan_gorm accept 2 card "DeviceA" (pos 2) start
    ≡ some (
      none,
      record start {
        broker = 1;
        sent =
            message card (record { type = ""; id = pos 1 })
            ∷ message card (record { type = ""; id = pos 4 })
            ∷ [];
        gauge = ("card", pos 2) ∷ [];
      },
    )
unfolding read_and_send round rounds Repository.find_devices_page Dao.find_devices_page ◌+₆₄◌ wrap64
    ◌-₆₄◌ insert ◌-ℤ◌ lookup Repository.entity_to_domain
two_sent = refl
