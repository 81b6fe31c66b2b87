-- ===== src/Producer/Task/Tests.antt =====
-- A task of one device type, and its first round.
use offlinepush.Base.{
  ℕ, ◌+◌, ◌*◌, ◌/◌, suc, All, ◌≤◌, ◌≡◌, refl, List, [], ◌∷◌, length, arith, if◌then◌else◌,
}
use offlinepush.Base.Int.{pos}
use offlinepush.Counter.{new_counter, add_hope_count}
use offlinepush.Dao
use offlinepush.Dao.Table.{scan_gorm, scan_gorm-RespectsLimit, scan_gorm-IndexScan}
use offlinepush.Producer.Task.{Task, begin, Reach, finish, all_succeeded}
use offlinepush.Producer.Task.Readers.{HasReturned}
use offlinepush.Producer.Task.Hope.{task_meets_hope}
use offlinepush.Producer.Task.Ending.{steps, task_ends}
use offlinepush.Producer.Task.Samples.{
  cfg, rows, accept, before, both, after_one, one_round, after_two, two_steps, all_returned,
  rows_ascend,
}
use offlinepush.Producer.Task.Sent.{sent_at_most_hoped}

sent_at_most_hoped_example :
    (length after_one.world.sent ≤ 0 + 2)
    × (finish cfg after_one new_counter ≡ (
        if all_succeeded after_one.readers
        then add_hope_count new_counter (pos 2)
        else new_counter))
unfolding begin
sent_at_most_hoped_example =
    sent_at_most_hoped scan_gorm accept scan_gorm-RespectsLimit cfg 2 refl (omega arith) both
      ("DeviceA" ∷ []) before after_one new_counter (omega arith) one_round

task_ends_example :
    (steps scan_gorm accept cfg 2 refl (omega arith) one_round ≤ 1 * suc ((2 + 99) / 100))
    × ((u : Task (List Dao.Device) ℕ) × Reach scan_gorm accept cfg after_one u
        × All HasReturned u.readers)
unfolding begin
task_ends_example =
    task_ends scan_gorm accept cfg 2 refl (omega arith) ("DeviceA" ∷ []) before after_one one_round

task_meets_hope_example :
    (length after_two.world.sent ≡ 0 + 1 * 2)
    × (finish cfg after_two new_counter ≡ add_hope_count new_counter (pos (1 * 2)))
unfolding begin
task_meets_hope_example =
    task_meets_hope scan_gorm accept (λ db. db) scan_gorm-IndexScan (λ msgs k. refl) cfg 2 refl
      (omega arith) rows rows_ascend both ("DeviceA" ∷ []) before after_two new_counter
      (omega arith, tt) (omega arith) refl two_steps all_returned
