-- ===== src/Cron/Tests.antt =====
-- The cron at concrete inputs: two tasks that are due together, and a scheduled task.
use offlinepush.Base.{ℕ, ◌≡◌, refl, List, [], ◌∷◌, ◌++◌, String, true}
use offlinepush.Base.Int.{pos}
use offlinepush.Base.Dict.{lookup}
use offlinepush.Config.{PushConfig, push_map}
use offlinepush.Dao
use offlinepush.Dao.Table.{scan_gorm}
use offlinepush.Producer.Task.{Task, Reach, reader, begin, advance, here, further, reads}
use offlinepush.Producer.Task.Samples.{accept, before, both}
use offlinepush.Forward.{Act, waiting, acts, arrives, receives, turns}
use offlinepush.Forward.Order.{taken}
use offlinepush.Cron.{Cron, new_cron, fire}
use offlinepush.Cron.Listed.{list_scheduler, list_scheduler-Keeps}
use offlinepush.Cron.Schedule.{entries, new_cron-schedules}
use offlinepush.Cron.Idle.{scheduled_sends_nothing}

abbrev due : String → String → PushConfig
due name crontab = record {
  topic = record { name = name; domain = "" };
  device_type_list = "DeviceA" ∷ [];
  cron = crontab;
  qps = pos 4000;
  num = pos 0;
}

abbrev at_three : Cron (List (String × PushConfig))
at_three = record {
  cron = [];
  produce_chan = record { place = waiting; delivered = []; dropped = [] };
}

-- The reader takes the first task before the second is offered, but the goroutine has not come back.
abbrev second_in_between : List (Act PushConfig)
second_in_between = receives ∷ arrives (due "weather" "@hourly") ∷ []

new_cron-schedules_example :
    let s = (fire list_scheduler (due "reboot" "0 15 * * *") at_three).produce_chan in
    ((new_cron list_scheduler).cron ≡ entries (λ crontab. true) push_map)
    × ((acts second_in_between s).dropped ≡ [] ++ (due "weather" "@hourly" ∷ []))
    × (taken (acts second_in_between s) ≡ [] ++ (due "reboot" "0 15 * * *" ∷ []))
    × ((acts (receives ∷ turns ∷ []) s).place ≡ waiting)
new_cron-schedules_example =
    new_cron-schedules list_scheduler (λ s. s) (λ crontab. true) list_scheduler-Keeps
      (due "reboot" "0 15 * * *") second_in_between at_three refl (tt, (tt, tt))

abbrev card : PushConfig
card = record {
  topic = record { name = "card"; domain = "www.card.iHome.com" };
  device_type_list =
      "DeviceA" ∷ "DeviceB" ∷ "DeviceC" ∷ "DeviceD" ∷ "DeviceE" ∷ "DeviceF" ∷ "DeviceG" ∷ "DeviceH"
      ∷ [];
  cron = "30 * * * *";
  qps = pos 4000;
  num = pos 0;
}

abbrev after_card : Task (List Dao.Device) ℕ
after_card =
    let moved = advance scan_gorm accept card (reader "DeviceA") before in
    record { readers = moved.0 ∷ []; world = moved.1 }

one_step : Reach scan_gorm accept card (begin both ("DeviceA" ∷ []) card before) after_card
unfolding begin
one_step = further here (reads [] (reader "DeviceA") [] refl refl)

scheduled_sends_nothing_example : after_card.world ≡ before
unfolding lookup push_map
scheduled_sends_nothing_example =
    scheduled_sends_nothing scan_gorm accept "card" card both ("DeviceA" ∷ []) before after_card
      refl one_step
