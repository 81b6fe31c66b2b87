-- ===== src/Cron.antt =====
-- internal/component/cron.go: the scheduled tasks. Package robfig/cron is the parameter `Scheduler`;
-- a job is the configuration that its function offers to the channel. What the channel's goroutine
-- does with an offer is in Forward.
pub mod Schedule
pub mod Listed
pub mod Idle
mod Tests
use offlinepush.Base.{ℕ, List, [], ◌∷◌, map, String, Option, none, some}
use offlinepush.Base.Dict.{Dict}
use offlinepush.Base.Result.{Error}
use offlinepush.Json.{Codec}
use offlinepush.Registry.{Event}
use offlinepush.Config.{PushConfig, push_map}
use offlinepush.Forward.{Forward, Act, arrives, act, subscribed}
use offlinepush.Producer.{manual_task}

pub record Scheduler (S : Type 0) : Type 0 where
  pub start : S
  pub add_func : String → PushConfig → S → Option Error × S
  pub stop : S → S

-- `Cron`: the scheduler, and the channel with the goroutine that reads it.
pub record Cron (S : Type 0) : Type 0 where
  pub cron : S
  pub produce_chan : Forward PushConfig

module _ {S : Type 0} (sched : Scheduler S) where
  -- An error of `AddFunc` is logged.
  unfoldable pub add_config : String → PushConfig → Cron S → Cron S
  add_config crontab cfg c = record c { cron = (sched.add_func crontab cfg c.cron).1 }

  unfoldable pub init_config : Dict PushConfig → Cron S → Cron S
  unfolding add_config
  init_config [] c = c
  init_config ((topic, cfg) ∷ m) c = init_config m (add_config cfg.cron cfg c)

  unfoldable pub new_cron : Cron S
  unfolding init_config
  new_cron = init_config push_map (record { cron = sched.start; produce_chan = subscribed })

  unfoldable pub stop : Cron S → Cron S
  stop c = record c { cron = sched.stop c.cron }

  -- The function of one job that is due; each runs in a goroutine of its own, in any order with the
  -- turns of the goroutine that reads the channel.
  unfoldable pub fire : PushConfig → Cron S → Cron S
  fire cfg c = record c { produce_chan = act (arrives cfg) c.produce_chan }

-- What the loop of `watchTaskCh` reads: a scheduled task, or an event under the manual tasks' key.
pub data Input : Type 0 where
  scheduled : PushConfig → Input
  noted : Event → Input

-- `go p.doTask(ctx, cfg)` for a task that was read, and `continue` where the note cannot be.
abbrev pub cons_task : Option PushConfig → List PushConfig → List PushConfig
cons_task none tasks = tasks
cons_task (some cfg) tasks = cfg ∷ tasks

-- The tasks that the loop starts.
unfoldable pub watch_task_ch : Codec PushConfig → List Input → List PushConfig
unfolding manual_task
watch_task_ch codec [] = []
watch_task_ch codec (scheduled cfg ∷ rest) = cfg ∷ watch_task_ch codec rest
watch_task_ch codec (noted evt ∷ rest) =
    cons_task (manual_task codec evt) (watch_task_ch codec rest)
