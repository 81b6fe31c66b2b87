-- ===== src/Producer/Task/Delivered.antt =====
-- What the goroutines of a task send together, in whatever order they run, when the database answers
-- and the broker accepts. The messages are seen as a bag: who sends first does not matter.
use offlinepush.Base.{
  length, length-append, length-map, ℕ, ◌+◌, ◌-◌, ◌^◌, ◌<◌, min, ◌≡◌, refl, sym, ap, ◌∙◌, List, [],
  ◌∷◌, ◌++◌, map, take, String, Option, none, some, Bool, true, false, All, arith, append-nil,
  map-append, Option-cases, inl, inr,
}
use offlinepush.Base.Int.{ℤ, pos, pos_part, ltb_ℤ}
use offlinepush.Base.Bags.{Bag, bag, sum, bag_move}
use offlinepush.Base.Result.{Error}
use offlinepush.Config.{PushConfig}
use offlinepush.Dao
use offlinepush.Dao.{Gorm, Cursor}
use offlinepush.Dao.Table.{IndexScan, rows_of, above, IsAscending}
use offlinepush.Producer.{ProducerMessage, World, round}
use offlinepush.Producer.Delivery.{notice, page-rest, round_delivers}
use offlinepush.Producer.Task.Readers.{
  length-middle, HasReturned, IsAt, All-middle, All-reader, below_num, not_below_num,
}
use offlinepush.Producer.Task.{
  Reader, Task, reader, next, advance, Step, reads, Reach, here, further, all_succeeded,
}
use offlinepush.Producer.Task.Owed.{
  owed, all_owed, dues, IsSound, all_owed-middle, running_owed, returned_owed, begin-owed,
  after_round-owed,
}

module _ {D K : Type 0} (gorm : Gorm D) (send : List ProducerMessage → K → Option Error × K)
    (table : D → List Dao.Device) (scan : IndexScan gorm table)
    (accepts : (msgs : List ProducerMessage) (k : K) → (send msgs k).0 ≡ none) (cfg : PushConfig)
    (num : ℕ) (asked : cfg.num ≡ pos num) (fits : num + 100 < 2 ^ 63) (tab : List Dao.Device)
    (ascending : (typ : String) → IsAscending (rows_of typ tab)) where
  -- A goroutine and the world before its step, and after it: what it sent is what it owes less.
  record Moves (r r' : Reader) (w w' : World D K) : Type 0 where
    part : List ProducerMessage
    sent : w'.sent ≡ w.sent ++ part
    rest : owed num cfg.topic tab r ≡ part ++ owed num cfg.topic tab r'
    kept : table w'.db ≡ tab
    place : IsAt num r'
    sound : IsSound r'

  round_at :
      (z y : ℤ) {k : ℕ}
      → z ≡ pos num
      → y ≡ pos k
      → (typ : String) (cursor : Cursor) (w : World D K) → k < num
      → table w.db ≡ tab
      → let rs = take (min 100 (num - k)) (above cursor.position (rows_of typ tab)) in
        let r = round gorm send cfg.topic typ z y cursor w in
        (r.0 ≡ none)
        × (r.1.1.sent ≡ w.sent ++ map (notice cfg.topic) rs)
        × (table r.1.1.db ≡ tab)
        × (rs ++ take (num - (k + 100)) (above r.1.0.position (rows_of typ tab))
            ≡ take (num - k) (above cursor.position (rows_of typ tab)))
  round_at z y {k} zn yk typ cursor w less same =
      let one = round gorm send cfg.topic typ (pos num) (pos k) cursor w in
      let (done, at, sent, kept, gauge) =
        round_delivers gorm send table scan accepts cfg.topic typ num k cursor w less
          (omega arith) in
      let whole =
        page-rest gorm send table scan accepts typ num k cursor one.1.0 w.db one.1.1.db
          (rw same (ascending typ)) at kept in
      rw (zn, yk) (done, rw same at sent, kept ∙ same, rw (kept ∙ same, same) at whole)

  next-Moves :
      (b : Bool) (r : Reader) (w : World D K) (k : ℕ)
      → ltb_ℤ r.i cfg.num ≡ b
      → r.i ≡ pos k
      → k < num + 100
      → r.result ≡ none
      → table w.db ≡ tab
      → let (r', w') = next gorm send cfg b r w in Moves r r' w w'
  unfolding next
  next-Moves false r w k more i at running same =
      let past = not_below_num r.i cfg.num k num i asked more in
      let none_left : num - k ≡ 0 = omega arith in
      record {
        part = [];
        sent = sym (append-nil w.sent);
        rest = running_owed num k cfg.topic tab r i running ∙ rw none_left refl;
        kept = same;
        place = rw i (refl, at);
        sound = λ e h. cc;
      }
  next-Moves true r w k more i at running same =
      let less = below_num r.i cfg.num k num i asked more in
      let one = round gorm send cfg.topic r.typ cfg.num r.i r.cursor w in
      let (done, sent, kept, total) = round_at cfg.num r.i asked i r.typ r.cursor w less same in
      let (left, place, sound) =
        after_round-owed num k cfg.topic tab r one.0 one.1.0 i running done less fits in
      let rs = take (min 100 (num - k)) (above r.cursor.position (rows_of r.typ tab)) in
      let later = take (num - (k + 100)) (above one.1.0.position (rows_of r.typ tab)) in
      record {
        part = map (notice cfg.topic) rs;
        sent = sent;
        rest =
            running_owed num k cfg.topic tab r i running
            ∙ (ap (map (notice cfg.topic)) (sym total)
                ∙ (map-append (notice cfg.topic) rs later
                    ∙ ap (λ (l : List ProducerMessage). map (notice cfg.topic) rs ++ l)
                        (sym left)));
        kept = kept;
        place = place;
        sound = sound;
      }

  -- What holds while the task runs: what is sent and what is owed make up the whole.
  record IsBalanced (whole : Bag ProducerMessage) (total many : ℕ) (t : Task D K) : Type 0 where
    number : length t.world.sent + length (all_owed num cfg.topic tab t.readers) ≡ total
    size : length t.readers ≡ many
    balance : bag (t.world.sent ++ all_owed num cfg.topic tab t.readers) ≡ whole
    kept : table t.world.db ≡ tab
    places : All (IsAt num) t.readers
    sounds : All IsSound t.readers

  Step-IsBalanced :
      {whole : Bag ProducerMessage} {total many : ℕ} {t u : Task D K}
      → IsBalanced whole total many t
      → Step gorm send cfg t u
      → IsBalanced whole total many u
  unfolding advance
  Step-IsBalanced {whole} {total} {many} {t} h (reads before r after e running) =
      let (at, put) = All-middle (IsAt num) before r after (rw e at h.places) in
      let (fine, keep) = All-middle IsSound before r after (rw e at h.sounds) in
      let (r', w') = advance gorm send cfg r t.world in
      let m =
        next-Moves (ltb_ℤ r.i cfg.num) r t.world (pos_part r.i) refl at.0 at.1 running h.kept in
      let owes : List Reader → List ProducerMessage = all_owed num cfg.topic tab in
      let old : owes t.readers
          ≡ owes before ++ ((m.part ++ owed num cfg.topic tab r') ++ owes after) =
        ap owes e
        ∙ (all_owed-middle num cfg.topic tab before r after
            ∙ ap (λ (l : List ProducerMessage). owes before ++ (l ++ owes after)) m.rest) in
      record {
        balance =
            rw (m.sent, all_owed-middle num cfg.topic tab before r' after)
              (bag_move t.world.sent m.part (owes before) (owed num cfg.topic tab r') (owes after))
            ∙ (ap (λ (l : List ProducerMessage). bag (t.world.sent ++ l)) (sym old) ∙ h.balance);
        number =
            rw (m.sent, all_owed-middle num cfg.topic tab before r' after)
              (omega (
                arith,
                h.number,
                ap length old,
                length-append (t.world.sent) m.part,
                length-append (owes before) (owed num cfg.topic tab r' ++ owes after),
                length-append (owed num cfg.topic tab r') (owes after),
                length-append (owes before) ((m.part ++ owed num cfg.topic tab r') ++ owes after),
                length-append (m.part ++ owed num cfg.topic tab r') (owes after),
                length-append m.part (owed num cfg.topic tab r'),
              ));
        size = sym (length-middle before r r' after) ∙ (sym (ap length e) ∙ h.size);
        kept = m.kept;
        places = put r' m.place;
        sounds = keep r' m.sound;
      }

  Reach-IsBalanced :
      {whole : Bag ProducerMessage} {total many : ℕ} {t u : Task D K}
      → IsBalanced whole total many t
      → Reach gorm send cfg t u
      → IsBalanced whole total many u
  Reach-IsBalanced h here = h
  Reach-IsBalanced h (further r s) = Step-IsBalanced (Reach-IsBalanced h r) s

  sound_returned :
      (rs : List Reader) → All IsSound rs → All HasReturned rs → all_succeeded rs ≡ true
  sound_returned [] f g = refl
  sound_returned (r ∷ rs) (f, fs) (g, gs) = elim (Option-cases r.result) [
    | inl none_yet ↦ absurd (g none_yet)
    | inr (none, is) ↦ rw (is, sound_returned rs fs gs) refl
    | inr (some e, is) ↦ absurd (f e is)
  ]

  all-IsSound : (types : List String) → All IsSound (map reader types)
  all-IsSound [] = tt
  all-IsSound (t ∷ types) = (λ e h. cc, all-IsSound types)

  -- Once all goroutines have returned, the messages sent are the ones due for the types.
  pub readers_deliver :
      (types : List String) (w : World D K) (t : Task D K)
      → table w.db ≡ tab
      → Reach gorm send cfg (record { readers = map reader types; world = w }) t
      → All HasReturned t.readers
      → (bag t.world.sent ≡ sum (bag w.sent) (bag (dues num cfg.topic tab types)))
        × (table t.world.db ≡ tab)
        × (all_succeeded t.readers ≡ true)
        × (length t.world.sent ≡ length w.sent + length (dues num cfg.topic tab types))
        × (length t.readers ≡ length types)
  readers_deliver types w t same r gone =
      let start : IsBalanced (bag (w.sent ++ dues num cfg.topic tab types))
          (length w.sent + length (dues num cfg.topic tab types)) (length types)
          (record { readers = map reader types; world = w }) =
        record {
          balance = rw (begin-owed num cfg.topic tab types) refl;
          number = rw (begin-owed num cfg.topic tab types) refl;
          size = length-map reader types;
          kept = same;
          places = All-reader num types;
          sounds = all-IsSound types;
        } in
      let h = Reach-IsBalanced start r in
      (
        rw (returned_owed num cfg.topic tab t.readers gone, append-nil) at h.balance,
        h.kept,
        sound_returned t.readers h.sounds gone,
        omega (arith, h.number, ap length (returned_owed num cfg.topic tab t.readers gone)),
        h.size,
      )
