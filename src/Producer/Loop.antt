-- ===== src/Producer/Loop.antt =====
-- The loop of `ReadAndSend` ends, whatever the database and the broker answer, and never sends more
-- than it was asked to.
use offlinepush.Base.{
  ℕ, zero, suc, ◌+◌, ◌-◌, ◌*◌, ◌^◌, ◌≤◌, ◌<◌, min, ◌≡◌, refl, List, map, Option, none, some, String,
  length, arith, ◌∙◌, Bool-cases, Option-cases, inl, inr, length-map, length-append,
}
use offlinepush.Base.Int.{ℤ, pos, negsuc, pos_part, ltb_ℤ}
use offlinepush.Base.Int64.{pos-add₆₄}
use offlinepush.Base.Result.{Error}
use offlinepush.Domain.{Topic}
use offlinepush.Dao
use offlinepush.Dao.{Gorm, Cursor, Query}
use offlinepush.Dao.Table.{RespectsLimit}
use offlinepush.Repository
use offlinepush.Producer.Steps.{batch_limit_lem, rounds_done, rounds_next, rounds_fail}
use offlinepush.Producer.{
  ProducerMessage, World, message, round, rounds, read_and_send, after_find, after_send,
}

module _ {D K : Type 0} (gorm : Gorm D) (send : List ProducerMessage → K → Option Error × K)
    (limits : RespectsLimit gorm) where
  after_send-length :
      (topic : Topic) (msgs : List ProducerMessage) (e : Option Error) (w : World D K)
      → length (after_send gorm send topic msgs e w).1.sent ≤ length w.sent + length msgs
  unfolding after_send
  after_send-length topic msgs none w = omega (arith, length-append w.sent msgs)
  after_send-length topic msgs (some e) w = omega arith

  -- what was sent in a round, by what the query returned
  after_find-length :
      (topic : Topic) (found : List Dao.Device × Option Error) (cursor : Cursor) (w : World D K)
      → let r = after_find gorm send topic (Repository.convert found) cursor w in
        length r.1.1.sent ≤ length w.sent + length found.0
  unfolding after_find Repository.convert
  after_find-length topic (rows, some e) cursor w = omega arith
  after_find-length topic (rows, none) cursor w =
      let ds = map Repository.entity_to_domain rows in
      let msgs = map (message topic) ds in
      let (e, broker') = send msgs w.broker in
      omega (
        arith,
        after_send-length topic msgs e (record w { broker = broker' }),
        length-map (message topic) ds,
        length-map Repository.entity_to_domain rows,
      )

  pub round-length :
      (topic : Topic) (typ : String) (num k : ℕ) (cursor : Cursor) (w : World D K)
      → k < num
      → num < 2 ^ 63
      → length (round gorm send topic typ (pos num) (pos k) cursor w).1.1.sent
        ≤ length w.sent + min 100 (num - k)
  unfolding round Repository.find_devices_page Dao.find_devices_page
  round-length topic typ num k cursor w h b =
      let q = Dao.page_query typ (pos (min 100 (num - k))) cursor in
      let (found, db') = gorm.find q w.db in
      rw (batch_limit_lem num k h b) (
        omega (
          arith,
          limits.bound q (min 100 (num - k)) w.db refl,
          after_find-length topic found (Dao.advance gorm cursor found.0) (record w { db = db' }),
        ))

  rounds_return :
      (r : ℕ) (topic : Topic) (typ : String) (num k : ℕ) (cursor : Cursor) (w : World D K)
      → num ≤ k + 100 * r
      → num + 100 < 2 ^ 63
      → (e : Option Error) × (w' : World D K) × (rounds gorm send
            (suc r)
            topic
            typ
            (pos num)
            (pos k)
            cursor
            w
          ≡ some (e, w'))
        × (length w'.sent ≤ length w.sent + (num - k))
  rounds_return zero topic typ num k cursor w h b = (
    none,
    w,
    rounds_done gorm send 0 topic typ (pos num) (pos k) cursor w (ground arith),
    omega arith,
  )
  rounds_return (suc r) topic typ num k cursor w h b = elim (Bool-cases (ltb_ℤ (pos k) (pos num))) [
    | inr stop ↦ (
      none,
      w,
      rounds_done gorm send (suc r) topic typ (pos num) (pos k) cursor w stop,
      omega arith,
    )
    | inl more ↦
        (let one = round gorm send topic typ (pos num) (pos k) cursor w in
          let size : length one.1.1.sent ≤ length w.sent + min 100 (num - k) =
            round-length topic typ num k cursor w (ground arith) (omega arith) in
          elim (Option-cases one.0) [
            | inr (e, failed) ↦ (
              some e,
              one.1.1,
              rounds_fail gorm send (suc r) topic typ (pos num) (pos k) cursor w more failed,
              omega arith,
            )
            | inl done ↦
                (let (e, w', runs, sent) =
                    rounds_return r topic typ num (k + 100) one.1.0 one.1.1 (omega arith) b in
                  (
                    e,
                    w',
                    rounds_next gorm send (suc r) topic typ (pos num) (pos k) cursor w more done
                        ∙ rw (pos-add₆₄ k 100 (ground arith)) runs,
                    omega (arith, sent),
                  ))
          ])
  ]

  -- Whatever the database and the broker answer, errors included, `ReadAndSend` returns after at most
  -- one round for each hundred of `num`, and has sent no more messages than `num` asks for (none, if
  -- `num` is negative). The database must respect the limit of a query, and `num` plus one batch must
  -- fit an int.
  pub read_and_send-returns :
      (r : ℕ) (topic : Topic) (typ : String) (num : ℤ) (w : World D K)
      → pos_part num ≤ 100 * r
      → pos_part num + 100 < 2 ^ 63
      → (e : Option Error) × (w' : World D K) × (read_and_send gorm send (suc r) topic typ num w
          ≡ some (e, w'))
        × (length w'.sent ≤ length w.sent + pos_part num)
  unfolding read_and_send
  read_and_send-returns r topic typ (pos num) w h b =
      let (e, w', runs, size) =
        rounds_return r topic typ num 0 (record { position = pos 0 }) w (omega arith) b in
      (e, w', runs, omega (arith, size))
  read_and_send-returns r topic typ (negsuc n) w h b = (
    none,
    w,
    rounds_done gorm send r topic typ (negsuc n) (pos 0) (record { position = pos 0 }) w
        (ground arith),
    omega arith,
  )
