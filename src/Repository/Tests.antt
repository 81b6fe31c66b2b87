-- ===== src/Repository/Tests.antt =====
-- The repository over a table in memory.
use offlinepush.Base.Bags.{bag}
use offlinepush.Repository.Creating.{create-find_devices}
use offlinepush.Base.{◌⊎◌, inl, ap, sym, ◌≡◌, refl, List, [], ◌∷◌, ◌++◌, String, Option, none, some}
use offlinepush.Base.Int.{pos}
use offlinepush.Base.Result.{Error, ok}
use offlinepush.Domain.{Device}
use offlinepush.Dao
use offlinepush.Dao.{DbError}
use offlinepush.Dao.Table.{scan_gorm}
use offlinepush.Repository.{create, batch_insert, find_devices}
use offlinepush.Repository.Inserting.{one_if, Stores, of_type, batch_insert-find_devices}

abbrev db : List Dao.Device
db = record { id = pos 1; type = "DeviceA"; cid = pos 4; ctime = pos 0; utime = pos 0 } ∷ []

abbrev batch : List Device
batch = record { type = "DeviceB"; id = pos 2 } ∷ record { type = "DeviceA"; id = pos 3 } ∷ []

commits :
    (r : Option DbError × List Dao.Device) (start : List Dao.Device)
    → r.0 ≡ none
    → scan_gorm.transaction (λ x. r) start ≡ r
commits (none, after) start h = refl
commits (some e, after) start h = cc

rolls_back :
    (r : Option DbError × List Dao.Device) (start : List Dao.Device) (e : DbError)
    → r.0 ≡ some e
    → scan_gorm.transaction (λ x. r) start ≡ (some e, start)
rolls_back (none, after) start e h = cc
rolls_back (some f, after) start e h = cc

scan_gorm-Stores : Stores scan_gorm (λ x. x)
scan_gorm-Stores = record {
  created = λ d x h. (d, refl, refl, refl);
  commit = λ f x h. inl (commits (f x) x h);
  rollback = λ f x e h. rolls_back (f x) x e h;
  finds = λ typ x rows h. ap (λ (r : List Dao.Device × Option Error). bag r.0) (sym h);
}

batch_insert-find_devices_example :
    (((batch_insert scan_gorm batch db).0 ≡ none)
      → (typ : String) (before after : List Device) → (find_devices scan_gorm typ db).0 ≡ ok before
      → (find_devices scan_gorm typ (batch_insert scan_gorm batch db).1).0 ≡ ok after
      → bag after ≡ bag (before ++ of_type typ batch))
    × ((e : Error)
        → (batch_insert scan_gorm batch db).0 ≡ some e
        → (batch_insert scan_gorm batch db).1 ≡ db)
batch_insert-find_devices_example =
    batch_insert-find_devices scan_gorm (λ x. x) scan_gorm-Stores batch db

-- The device of the first row is created once more.
abbrev again : Device
again = record { type = "DeviceA"; id = pos 4 }

create-find_devices_example :
    (((create scan_gorm (pos 9) again db).0 ≡ none)
      × ((typ : String) (before after : List Device)
          → (find_devices scan_gorm typ db).0 ≡ ok before
          → (find_devices scan_gorm typ (create scan_gorm (pos 9) again db).1).0 ≡ ok after
          → bag after ≡ bag (before ++ one_if typ "DeviceA" (pos 4))))
    ⊎ ((e : Error) × ((create scan_gorm (pos 9) again db).0 ≡ some e)
        × ((create scan_gorm (pos 9) again db).1 ≡ db))
create-find_devices_example =
    create-find_devices scan_gorm (λ x. x) scan_gorm-Stores (λ row x f h. cc) (pos 9) again db
