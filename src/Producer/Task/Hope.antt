-- ===== src/Producer/Task/Hope.antt =====
-- The hope count against what a task sends: they agree where the table has enough devices.
use offlinepush.Base.{
  ℕ, ◌+◌, ◌*◌, ◌^◌, ◌≤◌, ◌<◌, ◌≡◌, ap, List, [], ◌∷◌, take, length, length-append, length-map,
  length-take, String, Option, none, All, arith,
}
use offlinepush.Base.Int.{pos}
use offlinepush.Base.Result.{Error}
use offlinepush.Config.{PushConfig}
use offlinepush.Counter.{Counter, add_hope_count}
use offlinepush.Domain.{Topic}
use offlinepush.Dao
use offlinepush.Dao.{Gorm}
use offlinepush.Dao.Table.{IndexScan, rows_of, above, IsAscending}
use offlinepush.Producer.{ProducerMessage, World}
use offlinepush.Producer.Delivery.{notice}
use offlinepush.Producer.Task.{Task, begin, Reach, finish}
use offlinepush.Producer.Task.Readers.{HasReturned, hoped}
use offlinepush.Producer.Task.Owed.{due, dues}
use offlinepush.Producer.Task.Delivered.{readers_deliver}

pub length-dues :
    (num : ℕ) (topic : Topic) (tab : List Dao.Device) (types : List String)
    → All (λ (typ : String). num ≤ length (above (pos 0) (rows_of typ tab))) types
    → length (dues num topic tab types) ≡ length types * num
length-dues num topic tab [] h = omega arith
length-dues num topic tab (typ ∷ types) (plenty, h) =
    let rows = above (pos 0) (rows_of typ tab) in
    omega (
      arith,
      plenty,
      length-dues num topic tab types h,
      length-append (due num topic tab typ) (dues num topic tab types),
      length-map (notice topic) (take num rows),
      length-take num rows,
    )

module _ {D K : Type 0} (gorm : Gorm D) (send : List ProducerMessage → K → Option Error × K)
    (table : D → List Dao.Device) (scan : IndexScan gorm table)
    (accepts : (msgs : List ProducerMessage) (k : K) → (send msgs k).0 ≡ none) (cfg : PushConfig)
    (num : ℕ) (asked : cfg.num ≡ pos num) (fits : num + 100 < 2 ^ 63) (tab : List Dao.Device)
    (ascending : (typ : String) → IsAscending (rows_of typ tab)) where
  -- If each type that the pod took on has at least `num` rows with a positive cid, then a task
  -- whose goroutines have all returned has sent as many messages as it adds to the hope count. The
  -- index scan serves the rows of a type in ascending order, the broker accepts every batch, `num`
  -- with one batch added fits an int, and the product of `num` and the types' number an int64.
  pub task_meets_hope :
      (inter_set : List String → List String → List String) (responsible : List String)
      (w : World D K) (t : Task D K) (c : Counter)
      → let types = inter_set responsible cfg.device_type_list in
        All (λ (typ : String). num ≤ length (above (pos 0) (rows_of typ tab))) types
        → length types * num < 2 ^ 63
        → table w.db ≡ tab
        → Reach gorm send cfg (begin inter_set responsible cfg w) t
        → All HasReturned t.readers
        → (length t.world.sent ≡ length w.sent + length types * num)
          × (finish cfg t c ≡ add_hope_count c (pos (length types * num)))
  unfolding begin finish
  task_meets_hope inter_set responsible w t c plenty small same r gone =
      let types = inter_set responsible cfg.device_type_list in
      let (sent, kept, fine, number, size) =
        readers_deliver gorm send table scan accepts cfg num asked fits tab ascending types w t same
          r gone in
      (
        omega (arith, number, length-dues num cfg.topic tab types plenty),
        rw fine (ap (add_hope_count c) (hoped num t.readers types cfg.num size asked small)),
      )
