-- ===== src/Service.antt =====
-- internal/service/service.go: what the web handlers ask for, over the registry. The registry, the
-- configuration and the JSON codec of a task are parameters.
pub mod Tasks
pub mod Counts
pub mod Uploads
pub mod Resets
pub mod Web
pub mod Routes
mod Tests
use offlinepush.Base.{List, [], ◌∷◌, String, Bool, Option, none, some}
use offlinepush.Base.Int.{ℤ}
use offlinepush.Base.Dict.{Dict, lookup, insert}
use offlinepush.Base.Result.{Error, Result, ok, err, no_topic}
use offlinepush.Config.{RegisterConfig, PushConfig, push_map}
use offlinepush.Json.{Codec}
use offlinepush.Registry.{ServiceInstance, Registry}
use offlinepush.Interceptor
use offlinepush.Interceptor.{Interceptor}

unfoldable pub get_biz_status : Interceptor → Dict Bool
unfolding Interceptor.get_map
get_biz_status i = Interceptor.get_map i

-- `res[sv.Address] = sv.Note` for each instance
unfoldable pub collect : List ServiceInstance → Dict String → Dict String
collect [] res = res
collect (sv ∷ services) res = collect services (insert sv.address sv.note res)

-- The map and the error that `GetCount` returns for the answer of `ListService`.
unfoldable pub counted : Result (List ServiceInstance) → Dict String × Option Error
unfolding collect
counted (ok services) = (collect services [], none)
counted (err e) = ([], some e)

-- The instance that `ResetCounter` registers, and the one for a task.
unfoldable pub reset_instance : RegisterConfig → ServiceInstance
reset_instance cfg = record {
  address = "";
  service_name = cfg.write_count_key;
  weight = 0;
  note = "";
}

unfoldable pub task_instance : RegisterConfig → String → ServiceInstance
task_instance cfg note = record {
  address = cfg.pod_name;
  service_name = cfg.manual_task_key;
  weight = 0;
  note = note;
}

module _ {W : Type 0} (rg : Registry W) (cfg : RegisterConfig) where
  unfoldable pub reset_counter : W → Option Error × W
  unfolding reset_instance
  reset_counter w = rg.register (reset_instance cfg) w

  unfoldable pub get_count : W → (Dict String × Option Error) × W
  get_count w = let (services, w') = rg.list_service cfg.read_count_key w in (counted services, w')

  unfoldable pub pod_list : W → Result (List ServiceInstance) × W
  pod_list w = rg.list_service cfg.service_name w

  -- `AddTask` after the task is marshaled.
  unfoldable pub register_task : Result String → W → Option Error × W
  unfolding task_instance
  register_task (err e) w = (some e, w)
  register_task (ok note) w = rg.register (task_instance cfg note) w

  module _ (codec : Codec PushConfig) where
    -- `AddTask` after the topic is looked up.
    unfoldable pub add_found : Option PushConfig → ℤ → W → Option Error × W
    unfolding register_task
    add_found none num w = (some no_topic, w)
    add_found (some task) num w = register_task (codec.marshal (record task { num = num })) w

    unfoldable pub add_task : String → ℤ → W → Option Error × W
    unfolding add_found
    add_task topic num w = add_found (lookup topic push_map) num w
