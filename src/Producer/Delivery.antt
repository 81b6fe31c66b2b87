-- ===== src/Producer/Delivery.antt =====
-- What `ReadAndSend` delivers when the database answers and the broker accepts.
use offlinepush.Base.{
  ℕ, zero, suc, ◌+◌, ◌-◌, ◌*◌, ◌^◌, ◌≤◌, ◌<◌, min, ◌≡◌, refl, sym, List, [], ◌∷◌, ◌++◌, map, Option,
  none, some, String, take, length, arith, ap, ◌∙◌, Bool-cases, inl, inr, append_assoc, length-map,
  length-append, take-add, map-append, eq_refl, append-nil,
}
use offlinepush.Base.Int.{ℤ, pos, ltb_ℤ, ◌+ℤ◌, +ℤ_parts, eq_of_parts}
use offlinepush.Base.Int64.{pos-add₆₄}
use offlinepush.Base.Result.{Error, Result, ok}
use offlinepush.Base.Dict.{Dict, lookup-insert}
use offlinepush.Domain.{Topic, Device}
use offlinepush.Dao
use offlinepush.Dao.{Gorm, Cursor, page_query}
use offlinepush.Dao.Table.{IndexScan, rows_of, above, only_cid, IsAscending}
use offlinepush.Dao.Paging.{last_cid, advance-last_cid, above-page}
use offlinepush.Repository
use offlinepush.Producer.Steps.{batch_limit_lem, rounds_done, rounds_next}
use offlinepush.Producer.{
  ProducerMessage, World, message, round, rounds, read_and_send, after_find, gauge_add, gauge_value,
}

-- The message for a row: its device has the row's cid, and no type.
abbrev pub notice : Topic → Dao.Device → ProducerMessage
notice topic r = message topic (record { type = ""; id = r.cid })

map-notice :
    (topic : Topic) (rs : List Dao.Device)
    → map (message topic) (map Repository.entity_to_domain (map only_cid rs))
      ≡ map (notice topic) rs
unfolding Repository.entity_to_domain
map-notice topic [] = refl
map-notice topic (r ∷ rs) = ap (λ ms. notice topic r ∷ ms) (map-notice topic rs)

-- Adding to the gauge of a topic adds to its value.
gauge_value-gauge_add :
    (topic : String) (n : ℤ) (g : Dict ℤ)
    → gauge_value topic (gauge_add topic n g) ≡ gauge_value topic g +ℤ n
unfolding gauge_add gauge_value
gauge_value-gauge_add topic n g = rw (lookup-insert topic topic, eq_refl topic) refl

-- Between two states of the world: the rows' messages were sent in order, the table kept its rows,
-- and the topic's gauge grew by the number of rows.
abbrev pub Delivered :
    {D K : Type 0}
    → (D → List Dao.Device)
    → Topic
    → List Dao.Device
    → World D K
    → World D K
    → Type 0
Delivered table topic rs w w' =
    (w'.sent ≡ w.sent ++ map (notice topic) rs)
    × (table w'.db ≡ table w.db)
    × (gauge_value topic.name w'.gauge ≡ gauge_value topic.name w.gauge +ℤ pos (length rs))

module _ {D K : Type 0} (gorm : Gorm D) (send : List ProducerMessage → K → Option Error × K)
    (table : D → List Dao.Device) (scan : IndexScan gorm table)
    (accepts : (msgs : List ProducerMessage) (k : K) → (send msgs k).0 ≡ none) where
  -- the page that a round reads
  abbrev pub page : String → ℕ → Cursor → D → List Dao.Device
  page typ n cursor db = take n (above cursor.position (rows_of typ (table db)))

  find-page :
      (typ : String) (n : ℕ) (cursor : Cursor) (db : D)
      → let r = Repository.find_devices_page gorm typ (pos n) cursor db in
        (r.0 ≡ ok (map Repository.entity_to_domain (map only_cid (page typ n cursor db))))
        × (r.1.0.position ≡ last_cid cursor.position (page typ n cursor db))
        × (table r.1.1 ≡ table db)
  unfolding Repository.find_devices_page Dao.find_devices_page
  find-page typ n cursor db = (
    rw (scan.page typ n cursor db),
    rw (scan.page typ n cursor db) (advance-last_cid gorm cursor (page typ n cursor db)),
    scan.kept (page_query typ (pos n) cursor) db,
  )

  after_find_ok :
      (topic : Topic) (found : Result (List Device)) (ds : List Device) (cursor : Cursor)
      (w : World D K)
      → found ≡ ok ds
      → let r = after_find gorm send topic found cursor w in
        let msgs = map (message topic) ds in
        (r.0 ≡ none)
        × (r.1.0 ≡ cursor)
        × (r.1.1.sent ≡ w.sent ++ msgs)
        × (r.1.1.db ≡ w.db)
        × (r.1.1.gauge ≡ gauge_add topic.name (pos (length msgs)) w.gauge)
  unfolding after_find
  after_find_ok topic found ds cursor w e =
      let msgs = map (message topic) ds in
      rw (e, accepts msgs w.broker) (refl, refl, refl, refl, refl)

  -- One round: the page is sent, counted by the gauge, and the cursor stands at its last row.
  pub round_delivers :
      (topic : Topic) (typ : String) (num k : ℕ) (cursor : Cursor) (w : World D K)
      → k < num
      → num < 2 ^ 63
      → let rs = page typ (min 100 (num - k)) cursor w.db in
        let r = round gorm send topic typ (pos num) (pos k) cursor w in
        (r.0 ≡ none)
        × (r.1.0.position ≡ last_cid cursor.position rs)
        × (r.1.1.sent ≡ w.sent ++ map (notice topic) rs)
        × (table r.1.1.db ≡ table w.db)
        × (r.1.1.gauge ≡ gauge_add topic.name (pos (length rs)) w.gauge)
  unfolding round
  round_delivers topic typ num k cursor w h b =
      let n = min 100 (num - k) in
      let found = Repository.find_devices_page gorm typ (pos n) cursor w.db in
      let rs = page typ n cursor w.db in
      let (read, at, kept) = find-page typ n cursor w.db in
      let (done, cur, sent, db, gauge) =
        after_find_ok topic found.0 (map Repository.entity_to_domain (map only_cid rs)) found.1.0
          (record w { db = found.1.1 }) read in
      rw (batch_limit_lem num k h b) (
        done,
        ap (λ (c : Cursor). c.position) cur ∙ at,
        sent ∙ ap (λ ms. w.sent ++ ms) (map-notice topic rs),
        ap table db ∙ kept,
        gauge
            ∙ ap (λ ms. gauge_add topic.name (pos (length ms)) w.gauge) (map-notice topic rs)
            ∙ ap (λ m. gauge_add topic.name (pos m) w.gauge) (length-map (notice topic) rs),
      )

  Delivered-trans :
      (topic : Topic) (rs ss : List Dao.Device) (w w' w'' : World D K)
      → Delivered table topic rs w w'
      → Delivered table topic ss w' w''
      → Delivered table topic (rs ++ ss) w w''
  Delivered-trans topic rs ss w w' w'' (s, t, g) (s', t', g') = (
    simp (s', s, map-append, append_assoc),
    t' ∙ t,
    rw (g', g, length-append) (omega (arith, +ℤ_parts, eq_of_parts)),
  )

  Delivered-none : (topic : Topic) (w : World D K) → Delivered table topic [] w w
  Delivered-none topic w = (sym (append-nil w.sent), refl, omega (arith, +ℤ_parts, eq_of_parts))

  -- what a round sends and what is left for the later rounds make up the whole
  pub page-rest :
      (typ : String) (num k : ℕ) (cursor c : Cursor) (db db' : D)
      → IsAscending (rows_of typ (table db))
      → c.position ≡ last_cid cursor.position (page typ (min 100 (num - k)) cursor db)
      → table db' ≡ table db
      → page typ (min 100 (num - k)) cursor db
          ++ take (num - (k + 100)) (above c.position (rows_of typ (table db')))
        ≡ take (num - k) (above cursor.position (rows_of typ (table db)))
  page-rest typ num k cursor c db db' asc at kept =
      let n = min 100 (num - k) in
      let rows = rows_of typ (table db) in
      let total : min 100 (num - k) + (num - (k + 100)) ≡ num - k = omega arith in
      rw
        (
          kept,
          at,
          above-page cursor.position n rows asc,
          take-add n (num - (k + 100)) (above cursor.position rows),
          total,
        )
        refl

  rounds_deliver :
      (r : ℕ) (topic : Topic) (typ : String) (num k : ℕ) (cursor : Cursor) (w : World D K)
      → num ≤ k + 100 * r
      → num + 100 < 2 ^ 63
      → IsAscending (rows_of typ (table w.db))
      → (w' : World D K) × (rounds gorm send (suc r) topic typ (pos num) (pos k) cursor w
          ≡ some (none, w'))
        × Delivered table topic
            (take (num - k) (above cursor.position (rows_of typ (table w.db))))
            w
            w'
  rounds_deliver zero topic typ num k cursor w h b asc = (
    w,
    rounds_done gorm send 0 topic typ (pos num) (pos k) cursor w (ground arith),
    let e : num - k ≡ 0 = omega arith in rw e (Delivered-none topic w),
  )
  rounds_deliver (suc r) topic typ num k cursor w h b asc =
      elim (Bool-cases (ltb_ℤ (pos k) (pos num))) [
        | inr e ↦ (
          w,
          rounds_done gorm send (suc r) topic typ (pos num) (pos k) cursor w e,
          let e' : num - k ≡ 0 = ground arith in rw e' (Delivered-none topic w),
        )
        | inl e ↦
            (let (done, at, sent, kept, gauge) =
                round_delivers topic typ num k cursor w (ground arith) (omega arith) in
              let r1 = (round gorm send topic typ (pos num) (pos k) cursor w).1 in
              let (w', runs, rest) =
                rounds_deliver r topic typ num (k + 100) r1.0 r1.1 (omega arith) b (rw kept asc) in
              (
                w',
                rounds_next gorm send (suc r) topic typ (pos num) (pos k) cursor w e done
                    ∙ rw (pos-add₆₄ k 100 (ground arith)) runs,
                rw (← page-rest typ num k cursor r1.0 w.db r1.1.db asc at kept) (
                    Delivered-trans topic (page typ (min 100 (num - k)) cursor w.db) _ w r1.1 w'
                      (sent, kept, rw gauge (gauge_value-gauge_add topic.name _ w.gauge)) rest),
              ))
      ]

  -- When the index scan serves the rows of a type in ascending order, the broker accepts every
  -- batch, and `num` plus one batch fits an int, `ReadAndSend` returns nil after at most one round
  -- for each hundred of `num`; it has sent one message for each of the first `num` devices of the
  -- type with a positive id, in order and none twice, has added their number to the topic's gauge,
  -- and has changed no row.
  pub read_and_send-delivers :
      (r : ℕ) (topic : Topic) (typ : String) (num : ℕ) (w : World D K)
      → num ≤ 100 * r
      → num + 100 < 2 ^ 63
      → IsAscending (rows_of typ (table w.db))
      → (w' : World D K) × (read_and_send gorm send (suc r) topic typ (pos num) w ≡ some (none, w'))
        × Delivered table topic (take num (above (pos 0) (rows_of typ (table w.db)))) w w'
  unfolding read_and_send
  read_and_send-delivers r topic typ num w h b asc =
      let all : num - 0 ≡ num = omega arith in
      rw all at
        (rounds_deliver r topic typ num 0 (record { position = pos 0 }) w (omega arith) b asc)
