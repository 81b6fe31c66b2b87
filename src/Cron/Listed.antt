-- ===== src/Cron/Listed.antt =====
-- A scheduler that keeps its jobs in a list, to show that `Keeps` can hold.
use offlinepush.Base.{refl, List, [], ◌∷◌, ◌++◌, String, none, true}
use offlinepush.Config.{PushConfig}
use offlinepush.Cron.{Scheduler}
use offlinepush.Cron.Schedule.{Keeps}

abbrev pub list_scheduler : Scheduler (List (String × PushConfig))
list_scheduler = record {
  start = [];
  add_func = λ crontab cfg s. (none, s ++ (crontab, cfg) ∷ []);
  stop = λ s. s;
}

pub list_scheduler-Keeps : Keeps list_scheduler (λ s. s) (λ crontab. true)
list_scheduler-Keeps = record { empty = refl; added = λ crontab cfg s. refl }
