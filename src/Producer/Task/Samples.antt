-- ===== src/Producer/Task/Samples.antt =====
-- A task of one device type, its first round and its return, for the tests.
use offlinepush.Base.{
  ℕ, ◌+◌, ◌*◌, ◌/◌, suc, All, ◌≤◌, ◌≡◌, ◌≢◌, some, refl, List, [], ◌∷◌, length, String, Option,
  none, true, arith, if◌then◌else◌, ◌=ₛ◌, Bool-cases, inl, inr,
}
use offlinepush.Base.Int.{pos}
use offlinepush.Base.Result.{Error}
use offlinepush.Config.{PushConfig}
use offlinepush.Dao
use offlinepush.Dao.Table.{scan_gorm, IsAscending, rows_of}
use offlinepush.Producer.{ProducerMessage, World}
use offlinepush.Producer.Task.{Task, reader, advance, Reach, here, further, reads}
use offlinepush.Producer.Task.Readers.{HasReturned}

abbrev pub cfg : PushConfig
cfg = record {
  topic = record { name = "card"; domain = "" };
  device_type_list = "DeviceA" ∷ [];
  cron = "";
  qps = pos 0;
  num = pos 2;
}

abbrev pub row : Dao.Device
row = record { id = pos 1; type = "DeviceA"; cid = pos 4; ctime = pos 0; utime = pos 0 }

abbrev pub rows : List Dao.Device
rows = row ∷ record row { id = pos 2; cid = pos 7 } ∷ []

abbrev pub accept : List ProducerMessage → ℕ → Option Error × ℕ
accept msgs k = (none, k + 1)

abbrev pub before : World (List Dao.Device) ℕ
before = record { db = rows; broker = 0; sent = []; gauge = [] }

abbrev pub both : List String → List String → List String
both xs ys = xs

abbrev pub start : Task (List Dao.Device) ℕ
start = record { readers = reader "DeviceA" ∷ []; world = before }

abbrev pub after_one : Task (List Dao.Device) ℕ
after_one =
    let moved = advance scan_gorm accept cfg (reader "DeviceA") before in
    record { readers = moved.0 ∷ []; world = moved.1 }

pub one_round : Reach scan_gorm accept cfg start after_one
one_round = further here (reads [] (reader "DeviceA") [] refl refl)

-- the goroutine finds `i` at 100, and returns
abbrev pub after_two : Task (List Dao.Device) ℕ
after_two =
    let moved =
      advance scan_gorm accept cfg (advance scan_gorm accept cfg (reader "DeviceA") before).0
        after_one.world in
    record { readers = moved.0 ∷ []; world = moved.1 }

pub two_steps : Reach scan_gorm accept cfg start after_two
unfolding advance offlinepush.Producer.round offlinepush.Repository.find_devices_page
    Dao.find_devices_page
two_steps = further one_round (reads [] _ [] refl refl)

returned : (e : Option Error) → some e ≢ none
returned e h = cc

pub all_returned : All HasReturned after_two.readers
unfolding advance offlinepush.Producer.round offlinepush.Repository.find_devices_page
    Dao.find_devices_page offlinepush.Base.Int64.◌+₆₄◌ offlinepush.Base.Int64.wrap64
all_returned = (λ h. returned none h, tt)

pub rows_ascend : (typ : String) → IsAscending (rows_of typ rows)
rows_ascend typ = elim (Bool-cases (row.type =ₛ typ)) [
  | inl same ↦ rw same ((omega arith, tt), (tt, tt))
  | inr other ↦ rw other tt
]
