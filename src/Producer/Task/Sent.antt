-- ===== src/Producer/Task/Sent.antt =====
-- A task never sends more messages than it hopes for.
use offlinepush.Base.{
  ℕ, ◌+◌, ◌-◌, ◌*◌, ◌^◌, ◌≤◌, ◌<◌, min, ◌≡◌, refl, sym, ap, ◌∙◌, List, [], ◌∷◌, ◌++◌, map, length,
  String, Option, none, some, Bool, true, false, All, arith, length-map, if◌then◌else◌,
}
use offlinepush.Base.Int.{ℤ, pos, pos_part, ltb_ℤ}
use offlinepush.Base.Int64.{◌+₆₄◌, pos-add₆₄}
use offlinepush.Base.Result.{Error}
use offlinepush.Config.{PushConfig}
use offlinepush.Counter.{Counter, add_hope_count}
use offlinepush.Dao.{Gorm, Cursor}
use offlinepush.Dao.Table.{RespectsLimit}
use offlinepush.Producer.{ProducerMessage, World, round}
use offlinepush.Producer.Loop.{round-length}
use offlinepush.Producer.Task.Readers.{
  length-middle, hoped, IsAt, All-middle, All-reader, below_num,
}
use offlinepush.Producer.Task.{
  Reader, Task, reader, begin, after_round, next, advance, Step, reads, Reach, here, further,
  finish, all_succeeded,
}

-- What a goroutine may have sent so far, of `num` in all.
abbrev pub quota : ℕ → Reader → ℕ
quota num r = elim r.result [ none ↦ min num (pos_part r.i) | some e ↦ num ]

abbrev pub quotas : ℕ → List Reader → ℕ
quotas num [] = 0
quotas num (r ∷ rs) = quota num r + quotas num rs

quotas-middle :
    (num : ℕ) (before : List Reader) (r : Reader) (after : List Reader)
    → quotas num (before ++ (r ∷ after)) ≡ quota num r + quotas num (before ++ after)
quotas-middle num [] r after = refl
quotas-middle num (x ∷ before) r after = omega (arith, quotas-middle num before r after)

quota_bound : (num : ℕ) (r : Reader) → quota num r ≤ num
quota_bound num r = ground arith

quotas_bound : (num : ℕ) (rs : List Reader) → quotas num rs ≤ length rs * num
quotas_bound num [] = omega arith
quotas_bound num (r ∷ rs) = omega (arith, quota_bound num r, quotas_bound num rs)

-- A goroutine that has not returned, with i = k below num, after its round.
after_round-quota :
    (num k : ℕ) (r : Reader) (e : Option Error) (cursor : Cursor)
    → r.i ≡ pos k
    → r.result ≡ none
    → k < num
    → num + 100 < 2 ^ 63
    → (k + min 100 (num - k) ≤ quota num (after_round r e cursor))
      × IsAt num (after_round r e cursor)
unfolding after_round
after_round-quota num k r none cursor at running h b =
    let next_i : r.i +₆₄ pos 100 ≡ pos (k + 100) =
      ap (λ (z : ℤ). z +₆₄ pos 100) at ∙ pos-add₆₄ k 100 (omega arith) in
    rw (running, next_i) (omega arith, (refl, omega arith))
after_round-quota num k r (some e) cursor at running h b = rw at (omega arith, (refl, omega arith))

running_quota : (num k : ℕ) (r : Reader) → r.i ≡ pos k → r.result ≡ none → quota num r ≡ min num k
running_quota num k r at running = rw (running, at) refl

module _ {D K : Type 0} (gorm : Gorm D) (send : List ProducerMessage → K → Option Error × K)
    (limits : RespectsLimit gorm) (cfg : PushConfig) (num : ℕ) (asked : cfg.num ≡ pos num)
    (fits : num + 100 < 2 ^ 63) where
  round_sends :
      (z y : ℤ) {k : ℕ}
      → z ≡ pos num
      → y ≡ pos k
      → (typ : String) (cursor : Cursor) (w : World D K) → k < num
      → length (round gorm send cfg.topic typ z y cursor w).1.1.sent
        ≤ length w.sent + min 100 (num - k)
  round_sends z y {k} n i typ cursor w less =
      rw (n, i) (round-length gorm send limits cfg.topic typ num k cursor w less (omega arith))

  next-quota :
      (b : Bool) (r : Reader) (w : World D K) (k : ℕ)
      → ltb_ℤ r.i cfg.num ≡ b
      → r.i ≡ pos k
      → k < num + 100
      → r.result ≡ none
      → let (r', w') = next gorm send cfg b r w in
        (length w'.sent + quota num r ≤ length w.sent + quota num r') × IsAt num r'
  unfolding next
  next-quota false r w k more i at running = (omega (arith, quota_bound num r), rw i (refl, at))
  next-quota true r w k more i at running =
      let less = below_num r.i cfg.num k num i asked more in
      let one = round gorm send cfg.topic r.typ cfg.num r.i r.cursor w in
      let size = round_sends cfg.num r.i asked i r.typ r.cursor w less in
      let (grown, at') = after_round-quota num k r one.0 one.1.0 i running less fits in
      (omega (arith, size, grown, running_quota num k r i running), at')

  -- What holds while the task runs, from a world in which `base` messages were sent.
  record IsBounded (base n : ℕ) (t : Task D K) : Type 0 where
    sent : length t.world.sent ≤ base + quotas num t.readers
    places : All (IsAt num) t.readers
    many : length t.readers ≡ n

  Step-IsBounded :
      {base n : ℕ} {t u : Task D K}
      → IsBounded base n t
      → Step gorm send cfg t u
      → IsBounded base n u
  unfolding advance
  Step-IsBounded {base} {n} {t} h (reads before r after e running) =
      let (at, put) = All-middle (IsAt num) before r after (rw e at h.places) in
      let moved = advance gorm send cfg r t.world in
      let (grown, at') =
        next-quota (ltb_ℤ r.i cfg.num) r t.world (pos_part r.i) refl at.0 at.1 running in
      record {
        sent = omega (
          arith,
          h.sent,
          ap (quotas num) e,
          quotas-middle num before r after,
          quotas-middle num before moved.0 after,
          grown,
        );
        places = put moved.0 at';
        many = sym (length-middle before r moved.0 after) ∙ (sym (ap length e) ∙ h.many);
      }

  Reach-IsBounded :
      {base n : ℕ} {t u : Task D K}
      → IsBounded base n t
      → Reach gorm send cfg t u
      → IsBounded base n u
  Reach-IsBounded h here = h
  Reach-IsBounded h (further r s) = Step-IsBounded (Reach-IsBounded h r) s

  begin-IsBounded :
      (types : List String) (w : World D K)
      → IsBounded (length w.sent) (length types) (record { readers = map reader types; world = w })
  begin-IsBounded types w = record {
    sent = omega arith;
    places = All-reader num types;
    many = length-map reader types;
  }

  -- If the database respects the limit of a query, then whatever else it and the broker answer, and
  -- in whatever order the goroutines of a task read and send, the messages sent for a task are at
  -- most as many as the number of its types times its number; `doTask` raises the hope count by
  -- this product if no goroutine fails, and leaves it if one fails. The number must not be
  -- negative; it must fit an int with one batch added, and the product must fit an int64.
  pub sent_at_most_hoped :
      (inter_set : List String → List String → List String) (responsible : List String)
      (w : World D K) (t : Task D K) (c : Counter)
      → let types = inter_set responsible cfg.device_type_list in
        length types * num < 2 ^ 63
        → Reach gorm send cfg (begin inter_set responsible cfg w) t
        → (length t.world.sent ≤ length w.sent + length types * num)
          × (finish cfg t c ≡ (
              if all_succeeded t.readers then add_hope_count c (pos (length types * num)) else c))
  unfolding begin finish
  sent_at_most_hoped inter_set responsible w t c small r =
      let types = inter_set responsible cfg.device_type_list in
      let h = Reach-IsBounded (begin-IsBounded types w) r in
      (
        omega (arith, h.sent, quotas_bound num t.readers, ap (λ (n : ℕ). n * num) h.many),
        ap (λ (z : ℤ). if all_succeeded t.readers then add_hope_count c z else c)
            (hoped num t.readers types cfg.num h.many asked small),
      )
