-- ===== src/Repository/Inserting.antt =====
-- A batch of devices is inserted whole, and found again, or not at all.
use mathlib.Mathlib.Data.Multiset.MapFold as Multiset
use offlinepush.Base.Bags.{bag, bag-append}
use offlinepush.Base.{
  ◌≡◌, ◌≢◌, ◌⊎◌, refl, sym, ap, ◌∙◌, List, [], ◌∷◌, ◌++◌, map, append_assoc, append-nil, map-append,
  String, Option, none, some, Bool, true, false, ◌=ₛ◌, if◌then◌else◌, Bool-cases, Option-cases, inl,
  inr,
}
use offlinepush.Base.Int.{ℤ}
use offlinepush.Base.Result.{Error, Result, ok, err}
use offlinepush.Domain.{Device}
use offlinepush.Dao
use offlinepush.Dao.{Gorm, DbError, Query, insert_next, insert_all, raw_error}
use offlinepush.Dao.Table.{rows_of}
use offlinepush.Repository.{domain_to_entity, entity_to_domain, convert, batch_insert, find_devices}

-- What gorm and MySQL promise: a created row is one more row of the table, with its type and its id of
-- the device; a transaction that returns no error has done what its function did, and one that
-- returns an error has done nothing, which may also happen at the commit; and a query for a type
-- without a limit may return an error, or else finds its rows, in any order.
pub record Stores {D : Type 0} (gorm : Gorm D) (table : D → List Dao.Device) : Type 0 where
  pub created :
      (d : Dao.Device) (db : D)
      → (gorm.create d db).0 ≡ none
      → (row : Dao.Device) × (table (gorm.create d db).1 ≡ table db ++ row ∷ [])
        × (row.type ≡ d.type)
        × (row.cid ≡ d.cid)
  pub commit :
      (f : D → Option DbError × D) (db : D)
      → (f db).0 ≡ none
      → (gorm.transaction f db ≡ f db) ⊎ ((e : DbError) × (gorm.transaction f db ≡ (some e, db)))
  pub rollback :
      (f : D → Option DbError × D) (db : D) (e : DbError)
      → (f db).0 ≡ some e
      → gorm.transaction f db ≡ (some e, db)
  pub finds :
      (typ : String) (db : D) (rows : List Dao.Device)
      → (gorm.find (record { select = []; type = typ; after = none; limit = none }) db).0
        ≡ (rows, none)
      → bag rows ≡ bag (rows_of typ (table db))

-- The devices of a type.
abbrev pub of_type : String → List Device → List Device
of_type typ [] = []
of_type typ (d ∷ ds) = let rest = of_type typ ds in if d.type =ₛ typ then d ∷ rest else rest

ok-injective : {x y : List Device} → ◌≡◌ {A = Result (List Device)} (ok x) (ok y) → x ≡ y
ok-injective {x} h = ap (λ (r : Result (List Device)). elim r [ ok l ↦ l | err e ↦ x ]) h

-- The devices of a type that a table holds.
abbrev pub held : String → List Dao.Device → List Device
held typ rows = map entity_to_domain (rows_of typ rows)

rows_of-append :
    (typ : String) (xs ys : List Dao.Device)
    → rows_of typ (xs ++ ys) ≡ rows_of typ xs ++ rows_of typ ys
rows_of-append typ [] ys = refl
rows_of-append typ (x ∷ xs) ys = elim (Bool-cases (x.type =ₛ typ)) [
  | inl same ↦ rw (same, rows_of-append typ xs ys) refl
  | inr other ↦ rw (other, rows_of-append typ xs ys) refl
]

held-append :
    (typ : String) (xs ys : List Dao.Device) → held typ (xs ++ ys) ≡ held typ xs ++ held typ ys
held-append typ xs ys =
    ap (map entity_to_domain) (rows_of-append typ xs ys)
    ∙ map-append entity_to_domain (rows_of typ xs) (rows_of typ ys)

held_if :
    (b : Bool) (row : Dao.Device)
    → ◌≡◌ {A = List Device}
        (map entity_to_domain (if b then row ∷ [] else []))
        (if b then record { type = row.type; id = row.cid } ∷ [] else [])
unfolding entity_to_domain
held_if true row = refl
held_if false row = refl

abbrev pub one_if : String → String → ℤ → List Device
one_if typ t c = if t =ₛ typ then record { type = t; id = c } ∷ [] else []

held_fields :
    (typ : String) (row : Dao.Device) {dt : String} {dc : ℤ}
    → row.type ≡ dt
    → row.cid ≡ dc
    → held typ (row ∷ []) ≡ one_if typ dt dc
held_fields typ row {dt} t c =
    held_if (row.type =ₛ typ) row
    ∙ (ap (λ (x : String). one_if typ x row.cid) t ∙ ap (one_if typ dt) c)

of_type-cons :
    (typ : String) (d : Device) (ds : List Device)
    → (if d.type =ₛ typ then d ∷ [] else []) ++ of_type typ ds ≡ of_type typ (d ∷ ds)
of_type-cons typ d ds = elim (Bool-cases (d.type =ₛ typ)) [
  | inl same ↦ rw same refl
  | inr other ↦ rw other refl
]

module _ {D : Type 0} (gorm : Gorm D) (table : D → List Dao.Device)
    (stores : Stores gorm table) where
  insert_next-ok :
      (r : Option DbError × D) (rest : D → Option DbError × D)
      → (insert_next gorm r rest).0 ≡ none
      → (r.0 ≡ none) × (insert_next gorm r rest ≡ rest r.1)
  unfolding insert_next
  insert_next-ok (none, db) rest h = (refl, refl)
  insert_next-ok (some e, db) rest h = cc

  pub created_row :
      (typ : String) (row : Dao.Device) (db : D)
      → (gorm.create row db).0 ≡ none
      → held typ (table (gorm.create row db).1) ≡ held typ (table db) ++ one_if typ row.type row.cid
  created_row typ row db h =
      let (stored, after, t, c) = stores.created row db h in
      ap (held typ) after
      ∙ (held-append typ (table db) (stored ∷ [])
          ∙ ap (λ (l : List Device). held typ (table db) ++ l) (held_fields typ stored t c))

  created-held :
      (typ : String) (d : Device) (db : D)
      → (gorm.create (domain_to_entity d) db).0 ≡ none
      → held typ (table (gorm.create (domain_to_entity d) db).1)
        ≡ held typ (table db) ++ one_if typ d.type d.id
  unfolding domain_to_entity
  created-held typ d db h = created_row typ (domain_to_entity d) db h

  insert_all-held :
      (typ : String) (ds : List Device) (db : D)
      → (insert_all gorm (map domain_to_entity ds) db).0 ≡ none
      → held typ (table (insert_all gorm (map domain_to_entity ds) db).1)
        ≡ held typ (table db) ++ of_type typ ds
  unfolding insert_all
  insert_all-held typ [] db h = sym (append-nil _)
  insert_all-held typ (d ∷ ds) db h =
      let r = gorm.create (domain_to_entity d) db in
      let (first, is) = insert_next-ok r (insert_all gorm (map domain_to_entity ds)) h in
      let others = insert_all-held typ ds r.1 (sym (ap (λ (x : Option DbError × D). x.0) is) ∙ h) in
      ap (λ (x : Option DbError × D). held typ (table x.1)) is
      ∙ (others
          ∙ (ap (λ (l : List Device). l ++ of_type typ ds) (created-held typ d db first)
              ∙ (append_assoc (held typ (table db)) (one_if typ d.type d.id) (of_type typ ds)
                  ∙ ap (λ (l : List Device). held typ (table db) ++ l) (of_type-cons typ d ds))))

  raw_error-none : (e : Option DbError) → raw_error e ≡ none → e ≡ none
  unfolding raw_error
  raw_error-none none h = refl
  raw_error-none (some (DbError.mysql n)) h = cc
  raw_error-none (some (DbError.failed f)) h = cc

  raw_error-some : (o : Option DbError) (e : Error) → o ≡ none → raw_error o ≢ some e
  unfolding raw_error
  raw_error-some none e h g = cc
  raw_error-some (some f) e h g = cc

  transaction-cases :
      (f : D → Option DbError × D) (db : D)
      → (((f db).0 ≡ none) × (gorm.transaction f db ≡ f db))
        ⊎ ((e : DbError) × (gorm.transaction f db ≡ (some e, db)))
  transaction-cases f db = elim (Option-cases (f db).0) [
    | inl done ↦ elim (stores.commit f db done) [
      | inl same ↦ inl (done, same)
      | inr (e, undone) ↦ inr (e, undone)
    ]
    | inr (e, failed) ↦ inr (e, stores.rollback f db e failed)
  ]

  convert_inversion :
      (r : List Dao.Device × Option Error) (ds : List Device)
      → convert r ≡ ok ds
      → (rows : List Dao.Device) × (r ≡ (rows, none)) × (ds ≡ map entity_to_domain rows)
  unfolding convert
  convert_inversion (rows, none) ds h = (rows, refl, sym (ok-injective h))
  convert_inversion (rows, some e) ds h = cc

  -- The devices that are found are those of the table, in some order.
  pub find_devices-held :
      (typ : String) (db : D) (found : List Device)
      → (find_devices gorm typ db).0 ≡ ok found
      → bag found ≡ bag (held typ (table db))
  unfolding find_devices Dao.find_devices
  find_devices-held typ db found h =
      let q : Query = record { select = []; type = typ; after = none; limit = none } in
      let (rows, is, same) = convert_inversion (gorm.find q db).0 found h in
      ap bag same ∙ ap (Multiset.map entity_to_domain) (stores.finds typ db rows is)

  -- What is found after the table of a type has grown is what was found before, and the new ones.
  pub found_more :
      (typ : String) (db db' : D) (before after new : List Device)
      → held typ (table db') ≡ held typ (table db) ++ new
      → (find_devices gorm typ db).0 ≡ ok before
      → (find_devices gorm typ db').0 ≡ ok after
      → bag after ≡ bag (before ++ new)
  found_more typ db db' before after new grown first second =
      find_devices-held typ db' after second
      ∙ (ap bag grown ∙ bag-append (sym (find_devices-held typ db before first)) refl)

  -- If `BatchInsert` returns nil, then what `FindDevices` finds for a type after it is, up to the
  -- order, what it found before and the devices of the batch that have this type; if `BatchInsert`
  -- returns an error, also one of the commit, the database is as it was. Either `FindDevices` may
  -- return an error instead. The database adds a row for each that it accepts, a transaction that
  -- returns an error has changed nothing, and a query without an error finds all rows of its type.
  pub batch_insert-find_devices :
      (ds : List Device) (db : D)
      → (((batch_insert gorm ds db).0 ≡ none)
          → (typ : String) (before after : List Device) → (find_devices gorm typ db).0 ≡ ok before
          → (find_devices gorm typ (batch_insert gorm ds db).1).0 ≡ ok after
          → bag after ≡ bag (before ++ of_type typ ds))
        × ((e : Error) → (batch_insert gorm ds db).0 ≡ some e → (batch_insert gorm ds db).1 ≡ db)
  unfolding batch_insert Dao.batch_insert
  batch_insert-find_devices ds db =
      let f = insert_all gorm (map domain_to_entity ds) in
      elim (transaction-cases f db) [
        | inl (done, same) ↦ (
          λ h typ before after first second.
              found_more typ db (gorm.transaction f db).1 before after (of_type typ ds)
                (ap (λ (x : Option DbError × D). held typ (table x.1)) same
                  ∙ insert_all-held typ ds db done)
                first second,
          λ e h. absurd (raw_error-some _ e (ap (λ (x : Option DbError × D). x.0) same ∙ done) h),
        )
        | inr (e, same) ↦ (
          λ h typ before after first second.
              cc (raw_error-none _ h, ap (λ (x : Option DbError × D). x.0) same),
          λ e' h. ap (λ (x : Option DbError × D). x.1) same,
        )
      ]
