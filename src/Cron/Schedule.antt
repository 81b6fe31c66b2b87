-- ===== src/Cron/Schedule.antt =====
-- Which jobs are scheduled, and what happens to those that are due together.
use offlinepush.Base.{
  All, ◌≡◌, sym, ap, ◌∙◌, List, [], ◌∷◌, ◌++◌, String, Bool, append-nil, append_assoc,
  if◌then◌else◌,
}
use offlinepush.Base.Dict.{Dict}
use offlinepush.Config.{PushConfig, push_map}
use offlinepush.Forward.{Act, waiting, acts, receives, turns}
use offlinepush.Forward.Order.{NoTurn, arrivals, taken, acts-burst}
use offlinepush.Cron.{Scheduler, Cron, add_config, init_config, new_cron, fire}

-- A scheduler keeps its jobs in order, takes a job whose expression it can read, and refuses another.
pub record Keeps {S : Type 0} (sched : Scheduler S) (jobs : S → List (String × PushConfig))
    (parses : String → Bool) : Type 0 where
  pub empty : jobs sched.start ≡ []
  pub added :
      (crontab : String) (cfg : PushConfig) (s : S)
      → jobs (sched.add_func crontab cfg s).1
        ≡ jobs s ++ (if parses crontab then (crontab, cfg) ∷ [] else [])

-- The configurations with an expression that can be read, under it.
abbrev pub entries : (String → Bool) → Dict PushConfig → List (String × PushConfig)
entries parses [] = []
entries parses ((topic, cfg) ∷ m) =
    (if parses cfg.cron then (cfg.cron, cfg) ∷ [] else []) ++ entries parses m

module _ {S : Type 0} (sched : Scheduler S) (jobs : S → List (String × PushConfig))
    (parses : String → Bool) (keeps : Keeps sched jobs parses) where
  init_config-jobs :
      (m : Dict PushConfig) (c : Cron S)
      → jobs (init_config sched m c).cron ≡ jobs c.cron ++ entries parses m
  unfolding init_config add_config
  init_config-jobs [] c = sym (append-nil (jobs c.cron))
  init_config-jobs ((topic, cfg) ∷ m) c =
      init_config-jobs m (add_config sched cfg.cron cfg c)
      ∙ (ap (λ l. l ++ entries parses m) (keeps.added cfg.cron cfg c.cron)
          ∙ append_assoc (jobs c.cron) _ (entries parses m))

  -- `NewCron` schedules, for each configuration of `PushMap` whose cron expression can be read, one
  -- job under this expression, and no other job; one that cannot be read stops none of the others.
  -- When a job is due as the goroutine of `Subscribe` waits, its task gets through. The tasks of all
  -- other jobs whose functions run before that goroutine has come back to its select are dropped,
  -- whether or not the reader has taken the first meanwhile; when it has come back, the next task
  -- gets through again.
  pub new_cron-schedules :
      (cfg : PushConfig) (later : List (Act PushConfig)) (c : Cron S)
      → c.produce_chan.place ≡ waiting
      → All NoTurn later
      → let s = (fire sched cfg c).produce_chan in
        (jobs (new_cron sched).cron ≡ entries parses push_map)
        × ((acts later s).dropped ≡ c.produce_chan.dropped ++ arrivals later)
        × (taken (acts later s) ≡ c.produce_chan.delivered ++ cfg ∷ [])
        × ((acts (receives ∷ turns ∷ []) s).place ≡ waiting)
  unfolding new_cron fire
  new_cron-schedules cfg later c waits no_turn =
      let (dropped, got, again) = acts-burst cfg later c.produce_chan waits no_turn in
      (
        init_config-jobs push_map _ ∙ ap (λ l. l ++ entries parses push_map) keeps.empty,
        dropped,
        got,
        again,
      )
