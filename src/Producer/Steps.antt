-- ===== src/Producer/Steps.antt =====
-- The equations of the loop of `ReadAndSend`, one for each way that a round ends.
use offlinepush.Base.{
  ℕ, suc, ◌-◌, ◌^◌, ◌<◌, min, ◌≡◌, List, Option, none, some, String, true, false, arith,
}
use offlinepush.Base.Int.{ℤ, pos, ltb_ℤ}
use offlinepush.Base.Int64.{◌+₆₄◌, pos-sub₆₄}
use offlinepush.Base.Result.{Error}
use offlinepush.Domain.{Topic}
use offlinepush.Dao.{Gorm, Cursor}
use offlinepush.Producer.{ProducerMessage, World, batch_limit, batch_size, round, rounds}

pub batch_limit_lem :
    (num k : ℕ) → k < num → num < 2 ^ 63 → batch_limit (pos num) (pos k) ≡ pos (min 100 (num - k))
unfolding batch_limit
batch_limit_lem num k h b = rw (pos-sub₆₄ num k (omega arith) b) (ground arith)

module _ {D K : Type 0} (gorm : Gorm D) (send : List ProducerMessage → K → Option Error × K) where
  pub rounds_done :
      (fuel : ℕ) (topic : Topic) (typ : String) (num i : ℤ) (cursor : Cursor) (w : World D K)
      → ltb_ℤ i num ≡ false
      → rounds gorm send (suc fuel) topic typ num i cursor w ≡ some (none, w)
  unfolding rounds
  rounds_done fuel topic typ num i cursor w e = rw (e, rounds)

  pub rounds_next :
      (fuel : ℕ) (topic : Topic) (typ : String) (num i : ℤ) (cursor : Cursor) (w : World D K)
      → ltb_ℤ i num ≡ true
      → let r = round gorm send topic typ num i cursor w in
        r.0 ≡ none
        → rounds gorm send (suc fuel) topic typ num i cursor w
          ≡ rounds gorm send fuel topic typ num (i +₆₄ pos batch_size) r.1.0 r.1.1
  unfolding rounds
  rounds_next fuel topic typ num i cursor w e d = rw (e, rounds) (rw (d, rounds))

  pub rounds_fail :
      (fuel : ℕ) (topic : Topic) (typ : String) (num i : ℤ) (cursor : Cursor) (w : World D K)
      {failure : Error}
      → ltb_ℤ i num ≡ true
      → let r = round gorm send topic typ num i cursor w in
        r.0 ≡ some failure
        → rounds gorm send (suc fuel) topic typ num i cursor w ≡ some (some failure, r.1.1)
  unfolding rounds
  rounds_fail fuel topic typ num i cursor w e d = rw (e, rounds) (rw (d, rounds))
