-- ===== src/Service/Tasks.antt =====
-- A task that is added by hand reaches the producers as it was asked for.
use offlinepush.Base.{◌≡◌, refl, String, Option, none, some}
use offlinepush.Base.Int.{ℤ}
use offlinepush.Base.Dict.{lookup}
use offlinepush.Base.Result.{Error, Result, ok, err}
use offlinepush.Config.{RegisterConfig, PushConfig, push_map}
use offlinepush.Json.{Codec, RoundTrips}
use offlinepush.Registry.{Registry, put}
use offlinepush.Producer.{task_read, manual_task}
use offlinepush.Service.{task_instance, register_task, add_found, add_task}
use offlinepush.Service.Web.{Response, text, Req, done, add_known, add_task_handler, status_ok}

module _ {W : Type 0} (rg : Registry W) (cfg : RegisterConfig) (codec : Codec PushConfig) where
  task_back :
      RoundTrips codec
      → (task : PushConfig) {note : String} → codec.marshal task ≡ ok note
      → manual_task codec (record { type = put; ins = task_instance cfg note }) ≡ some task
  unfolding manual_task task_read task_instance
  task_back rt task {note} made = rw (rt.back task note made) refl

  -- If tasks are read back from their texts, a topic of the push map is asked for with a number,
  -- and its task can be marshaled, then the request registers one instance, and the event by which
  -- the registry reports it makes each producer start the task of the push map with that number.
  pub add_task-manual_task :
      (topic : String) (num : ℤ) (task : PushConfig) (w : W) {note : String}
      → RoundTrips codec
      → lookup topic push_map ≡ some task
      → codec.marshal (record task { num = num }) ≡ ok note
      → (add_task rg cfg codec topic num w ≡ rg.register (task_instance cfg note) w)
        × (manual_task codec (record { type = put; ins = task_instance cfg note })
            ≡ some (record task { num = num }))
  unfolding add_task add_found register_task
  add_task-manual_task topic num task w rt known made =
      rw (known, made) (refl, task_back rt (record task { num = num }) made)

  register_task_ok :
      (r : Result String) (w w' : W)
      → register_task rg cfg r w ≡ (none, w')
      → (note : String) × (r ≡ ok note) × (rg.register (task_instance cfg note) w ≡ (none, w'))
  unfolding register_task
  register_task_ok (err e) w w' h = cc
  register_task_ok (ok note) w w' h = (note, refl, h)

  success_inversion :
      (r : Option Error × W) (w' : W)
      → ◌≡◌ {A = Response (Unit {0}) × W} (done r.0, r.1) (text status_ok "success", w')
      → r ≡ (none, w')
  unfolding done
  success_inversion (some e, v) w' h = cc
  success_inversion (none, v) w' h = cc

  add_known_success :
      (found : Option PushConfig) (req : Req) (w w' : W)
      → found ≡ lookup req.business push_map
      → add_known rg cfg codec found req w ≡ (text status_ok "success", w')
      → (task : PushConfig) × (found ≡ some task)
        × (register_task rg cfg (codec.marshal (record task { num = req.num })) w ≡ (none, w'))
  unfolding add_known add_task add_found
  add_known_success none req w w' is h = cc
  add_known_success (some task) req w w' is h =
      let r = register_task rg cfg (codec.marshal (record task { num = req.num })) w in
      (task, refl, success_inversion r w' (rw (← is, add_found) at h))

  -- If tasks are read back from their texts and the handler answers a request with success, then
  -- the business is in the push map, the instance of its task with the requested number was
  -- registered without an error, and the event by which the registry reports that instance makes a
  -- producer start this task.
  pub add_task_success :
      (req : Req) (w w' : W)
      → RoundTrips codec
      → add_task_handler rg cfg codec (ok req) w ≡ (text status_ok "success", w')
      → (task : PushConfig) × (note : String) × (lookup req.business push_map ≡ some task)
        × (rg.register (task_instance cfg note) w ≡ (none, w'))
        × (manual_task codec (record { type = put; ins = task_instance cfg note })
            ≡ some (record task { num = req.num }))
  unfolding add_task_handler
  add_task_success req w w' rt h =
      let (task, known, stored) =
        add_known_success (lookup req.business push_map) req w w' refl h in
      let (note, made, registered) =
        register_task_ok (codec.marshal (record task { num = req.num })) w w' stored in
      (task, note, known, registered, task_back rt (record task { num = req.num }) made)
