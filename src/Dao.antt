-- ===== src/Dao.antt =====
-- internal/repository/dao/device.go: the device table behind gorm. gorm and MySQL are the parameter
-- `Gorm`: a query is the value that the code builds, and the state of the database is a type `D`.
pub mod Table
pub mod Paging
use offlinepush.Base.{ℕ, List, [], ◌∷◌, String, Option, none, some, last?, ◌==◌, if◌then◌else◌}
use offlinepush.Base.Int.{ℤ}
use offlinepush.Base.Result.{Error, duplicate_record, other}

-- The table's row, `dao.Device`.
pub record Device : Type 0 where
  pub id : ℤ
  pub type : String
  pub cid : ℤ
  pub ctime : ℤ
  pub utime : ℤ

-- `Select(…).Where("type = ? AND c_id > ?", typ, after).Limit(limit)`. No `select` means all columns.
pub record Query : Type 0 where
  pub select : List String
  pub type : String
  pub after : Option ℤ
  pub limit : Option ℤ

-- What the driver reports: a `*mysql.MySQLError` by its number, or any other error.
pub data DbError : Type 0 where
  mysql : ℕ → DbError
  failed : Error → DbError

-- gorm over a database in state `D`. A `find` may return rows beside an error.
pub record Gorm (D : Type 0) : Type 0 where
  pub create : Device → D → Option DbError × D
  pub find : Query → D → (List Device × Option Error) × D
  pub transaction : (D → Option DbError × D) → D → Option DbError × D

-- `dao.Cursor`, its field `data`.
pub record Cursor : Type 0 where
  pub position : ℤ

abbrev pub get : Cursor → ℤ
get c = c.position

abbrev pub set : Cursor → ℤ → Cursor
set c d = record c { position = d }

abbrev pub unique_conflicts : ℕ
unique_conflicts = 1062

-- The error that `Insert` returns for what the driver reports.
unfoldable pub insert_error : Option DbError → Option Error
insert_error none = none
insert_error (some (mysql n)) =
    if n == unique_conflicts then some duplicate_record else some (other "mysql")
insert_error (some (failed e)) = some e

-- The error value of a driver error that is passed on as it is.
unfoldable pub raw_error : Option DbError → Option Error
raw_error none = none
raw_error (some (mysql n)) = some (other "mysql")
raw_error (some (failed e)) = some e

-- The query of `FindDevicesPage`.
abbrev pub page_query : String → ℤ → Cursor → Query
page_query typ limit cursor = record {
  select = "c_id" ∷ [];
  type = typ;
  after = some (get cursor);
  limit = some limit;
}

module _ {D : Type 0} (gorm : Gorm D) where
  -- `now` is `time.Now().UnixMilli()`.
  unfoldable pub insert : ℤ → Device → D → Option Error × D
  insert now d db =
      let (e, db') = gorm.create (record d { utime = now; ctime = now }) db in (insert_error e, db')

  unfoldable pub find_devices : String → D → (List Device × Option Error) × D
  find_devices typ db =
      gorm.find (record { select = []; type = typ; after = none; limit = none }) db

  -- `if len(res) > 0 { cursor.Set(res[len(res)-1].CID) }`
  unfoldable pub advance : Cursor → List Device → Cursor
  advance cursor res = elim (last? res) [ none ↦ cursor | some d ↦ set cursor d.cid ]

  -- The cursor moves also when the query returns an error beside its rows.
  unfoldable pub find_devices_page :
      String → ℤ → Cursor → D → (List Device × Option Error) × (Cursor × D)
  unfolding advance
  find_devices_page typ limit cursor db =
      let (found, db') = gorm.find (page_query typ limit cursor) db in
      (found, (advance cursor found.0, db'))

  -- The loop inside the transaction: it stops at the first error.
  unfoldable pub insert_next : Option DbError × D → (D → Option DbError × D) → Option DbError × D
  insert_next (none, db) rest = rest db
  insert_next (some failure, db) rest = (some failure, db)

  unfoldable pub insert_all : List Device → D → Option DbError × D
  insert_all [] db = (none, db)
  insert_all (d ∷ ds) db = insert_next (gorm.create d db) (insert_all ds)

  unfoldable pub batch_insert : List Device → D → Option Error × D
  unfolding insert_all
  batch_insert ds db = let (e, db') = gorm.transaction (insert_all ds) db in (raw_error e, db')
