-- ===== src/Repository.antt =====
-- internal/repository/repository.go: devices of the domain over rows of the table.
pub mod Inserting
pub mod Creating
mod Tests
use offlinepush.Base.{List, String, Option, none, some, map}
use offlinepush.Base.Int.{ℤ, pos}
use offlinepush.Base.Result.{Error, Result, ok, err}
use offlinepush.Domain.{Device}
use offlinepush.Dao
use offlinepush.Dao.{Gorm, Cursor}

unfoldable pub domain_to_entity : Device → Dao.Device
domain_to_entity d = record { id = pos 0; type = d.type; cid = d.id; ctime = pos 0; utime = pos 0 }

unfoldable pub entity_to_domain : Dao.Device → Device
entity_to_domain d = record { type = d.type; id = d.cid }

-- `if err != nil { return nil, err }`, and the loop that converts the rows
unfoldable pub convert : List Dao.Device × Option Error → Result (List Device)
convert (rows, none) = ok (map entity_to_domain rows)
convert (rows, some e) = err e

module _ {D : Type 0} (gorm : Gorm D) where
  unfoldable pub create : ℤ → Device → D → Option Error × D
  create now d db = Dao.insert gorm now (domain_to_entity d) db

  unfoldable pub batch_insert : List Device → D → Option Error × D
  batch_insert ds db = Dao.batch_insert gorm (map domain_to_entity ds) db

  unfoldable pub find_devices : String → D → Result (List Device) × D
  unfolding convert
  find_devices typ db = let (found, db') = Dao.find_devices gorm typ db in (convert found, db')

  unfoldable pub find_devices_page : String → ℤ → Cursor → D → Result (List Device) × (Cursor × D)
  unfolding convert
  find_devices_page typ limit cursor db =
      let (found, rest) = Dao.find_devices_page gorm typ limit cursor db in (convert found, rest)
