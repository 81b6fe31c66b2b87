-- ===== src/Repository/Creating.antt =====
-- One device is created, or the table is as it was.
use offlinepush.Base.Bags.{bag}
use offlinepush.Base.{
  ◌≡◌, ◌⊎◌, refl, ap, ◌∙◌, List, ◌++◌, String, none, some, ◌==◌, Bool-cases, Option-cases, inl, inr,
}
use offlinepush.Base.Int.{ℤ}
use offlinepush.Base.Result.{Error, duplicate_record, other, ok}
use offlinepush.Domain.{Device}
use offlinepush.Dao
use offlinepush.Dao.{Gorm, DbError, mysql, failed, insert, insert_error, unique_conflicts}
use offlinepush.Repository.{domain_to_entity, create, find_devices}
use offlinepush.Repository.Inserting.{Stores, one_if, created_row, found_more}

-- An error of the driver never becomes nil.
insert_error-some : (f : DbError) → (e : Error) × (insert_error (some f) ≡ some e)
unfolding insert_error
insert_error-some (failed e) = (e, refl)
insert_error-some (mysql n) = elim (Bool-cases (n == unique_conflicts)) [
  | inl same ↦ (duplicate_record, rw same refl)
  | inr another ↦ (other "mysql", rw another refl)
]

module _ {D : Type 0} (gorm : Gorm D) (table : D → List Dao.Device) (stores : Stores gorm table)
    (refused : (row : Dao.Device) (db : D) (f : DbError)
      → (gorm.create row db).0 ≡ some f
      → (gorm.create row db).1 ≡ db) where
  -- The row that `Create` has stored, with the time of the call.
  timed : ℤ → Device → Dao.Device
  timed now d = record (domain_to_entity d) { utime = now; ctime = now }

  -- If the database adds a row for each that it accepts, a row that it refuses changes nothing,
  -- and a query without an error finds all rows of its type, then `Create` either returns nil, and
  -- what `FindDevices` finds after it is, up to the order, what it found before and the new
  -- device, for its type, unless one of the two queries returns an error; or `Create` returns an
  -- error, and the database is as it was. A device that is there already is stored a second time,
  -- unless the database refuses it.
  pub create-find_devices :
      (now : ℤ) (d : Device) (db : D)
      → (((create gorm now d db).0 ≡ none)
          × ((typ : String) (before after : List Device)
              → (find_devices gorm typ db).0 ≡ ok before
              → (find_devices gorm typ (create gorm now d db).1).0 ≡ ok after
              → bag after ≡ bag (before ++ one_if typ d.type d.id)))
        ⊎ ((e : Error) × ((create gorm now d db).0 ≡ some e) × ((create gorm now d db).1 ≡ db))
  unfolding create insert insert_error domain_to_entity timed
  create-find_devices now d db = elim (Option-cases (gorm.create (timed now d) db).0) [
    | inl fine ↦ inl (
      ap insert_error fine,
      λ typ before after first second.
          found_more gorm table stores typ db (gorm.create (timed now d) db).1 before after
            (one_if typ d.type d.id) (created_row gorm table stores typ (timed now d) db fine) first
            second,
    )
    | inr (f, refusal) ↦
        (let (e, is) = insert_error-some f in
          inr (e, ap insert_error refusal ∙ is, refused (timed now d) db f refusal))
  ]
