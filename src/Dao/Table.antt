-- ===== src/Dao/Table.antt =====
-- What the paging code relies on: the rows that a page query returns. MySQL and gorm are not part
-- of the repository; `IndexScan` states what they do for this query, and `scan` does it.
use offlinepush.Base.{
  arith, length, length-map, length-take, ◌≤◌, some, Option, refl, ◌++◌, ℕ, ◌≡◌, List, [], ◌∷◌, map,
  none, String, take, ◌=ₛ◌, All, if◌then◌else◌,
}
use offlinepush.Base.Int.{ℤ, pos, pos_part, ltb_ℤ, ◌<ℤ◌}
use offlinepush.Dao.{Device, Query, Gorm, Cursor, page_query}

-- The rows of one type.
abbrev pub rows_of : String → List Device → List Device
rows_of typ [] = []
rows_of typ (r ∷ rs) = let rest = rows_of typ rs in if r.type =ₛ typ then r ∷ rest else rest

-- The rows past a cursor.
abbrev pub above : ℤ → List Device → List Device
above c [] = []
above c (r ∷ rs) = let rest = above c rs in if ltb_ℤ c r.cid then r ∷ rest else rest

-- `Select("c_id")` leaves every other field of the row at its zero value.
abbrev pub only_cid : Device → Device
only_cid r = record { id = pos 0; type = ""; cid = r.cid; ctime = pos 0; utime = pos 0 }

abbrev pub IsAscending : List Device → Type 0
IsAscending [] = Unit
IsAscending (r ∷ rs) = All (λ (s : Device). r.cid <ℤ s.cid) rs × IsAscending rs

-- A page query answers with the first rows of its type past the cursor, without error, and no query
-- changes the table. The order of the rows is that of the table, whatever that is.
pub record IndexScan {D : Type 0} (gorm : Gorm D) (table : D → List Device) : Type 0 where
  pub page :
      (typ : String) (n : ℕ) (cursor : Cursor) (db : D)
      → (gorm.find (page_query typ (pos n) cursor) db).0
        ≡ (map only_cid (take n (above cursor.position (rows_of typ (table db)))), none)
  pub kept : (q : Query) (db : D) → table (gorm.find q db).1 ≡ table db

-- `Limit(n)` bounds the rows that a query returns.
pub record RespectsLimit {D : Type 0} (gorm : Gorm D) : Type 0 where
  pub bound :
      (q : Query) (n : ℕ) (db : D) → q.limit ≡ some (pos n) → length (gorm.find q db).0.0 ≤ n

-- A table in index order, as a database that answers such queries.
abbrev limited : Option ℤ → List Device → List Device
limited none rs = rs
limited (some n) rs = take (pos_part n) rs

abbrev past : Option ℤ → List Device → List Device
past none rs = rs
past (some c) rs = above c rs

abbrev columns : List String → List Device → List Device
columns [] rs = rs
columns (c ∷ cs) rs = map only_cid rs

abbrev pub scan_gorm : Gorm (List Device)
scan_gorm = record {
  create = λ d db. (none, db ++ d ∷ []);
  find =
      λ q db. ((columns q.select (limited q.limit (past q.after (rows_of q.type db))), none), db);
  transaction = λ f db.
      let (e, db') = f db in elim e [ none ↦ (none, db') | some failure ↦ (some failure, db) ];
}

pub scan_gorm-IndexScan : IndexScan scan_gorm (λ db. db)
scan_gorm-IndexScan = record { page = λ typ n cursor db. refl; kept = λ q db. refl }

length-columns : (cols : List String) (rs : List Device) → length (columns cols rs) ≡ length rs
length-columns [] rs = refl
length-columns (c ∷ cs) rs = length-map only_cid rs

pub scan_gorm-RespectsLimit : RespectsLimit scan_gorm
scan_gorm-RespectsLimit = record {
  bound = λ q n db h.
      let rows = past q.after (rows_of q.type db) in
      rw (length-columns q.select (limited q.limit rows), h, length-take n rows) (omega arith);
}
