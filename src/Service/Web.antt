-- ===== src/Service/Web.antt =====
-- web/web.go: the handlers, which answer with a status and a body.
use offlinepush.Base.{ℕ, List, String, Bool, Option, none, some}
use offlinepush.Base.Int.{ℤ}
use offlinepush.Base.Dict.{Dict, lookup}
use offlinepush.Base.Result.{Error, Result, ok, err, no_biz}
use offlinepush.Config.{RegisterConfig, PushConfig, push_map}
use offlinepush.Json.{Codec}
use offlinepush.Registry.{ServiceInstance, Registry}
use offlinepush.Interceptor.{Interceptor}
use offlinepush.Service.{get_biz_status, reset_counter, get_count, pod_list, add_task}

-- What a handler writes: the text of an error, a text, or a value that gin encodes as JSON.
pub data Response (A : Type 0) : Type 0 where
  failed : ℕ → Error → Response A
  text : ℕ → String → Response A
  json : ℕ → A → Response A

abbrev pub status_ok : ℕ
status_ok = 200

abbrev pub bad_request : ℕ
bad_request = 400

abbrev pub internal_server_error : ℕ
internal_server_error = 500

pub record Req : Type 0 where
  pub business : String
  pub num : ℤ

unfoldable pub config_found : Option PushConfig → Response PushConfig
config_found none = failed bad_request no_biz
config_found (some cfg) = json status_ok cfg

unfoldable pub get_push_config : String → Response PushConfig
unfolding config_found
get_push_config biz = config_found (lookup biz push_map)

unfoldable pub done : {A : Type 0} → Option Error → Response A
done (some e) = failed internal_server_error e
done none = text status_ok "success"

unfoldable pub counts_found : Dict String × Option Error → Response (Dict String)
counts_found (mp, some e) = failed internal_server_error e
counts_found (mp, none) = json status_ok mp

unfoldable pub pods_found : Result (List ServiceInstance) → Response (List ServiceInstance)
pods_found (err e) = failed internal_server_error e
pods_found (ok list) = json status_ok list

unfoldable pub get_business_status : Interceptor → Response (Dict Bool)
unfolding get_biz_status
get_business_status i = json status_ok (get_biz_status i)

module _ {W : Type 0} (rg : Registry W) (cfg : RegisterConfig) where
  unfoldable pub reset_count : W → Response (Unit {0}) × W
  reset_count w = let (e, w') = reset_counter rg cfg w in (done e, w')

  unfoldable pub counts : W → Response (Dict String) × W
  counts w = let (found, w') = get_count rg cfg w in (counts_found found, w')

  unfoldable pub pods_list : W → Response (List ServiceInstance) × W
  pods_list w = let (found, w') = pod_list rg cfg w in (pods_found found, w')

  module _ (codec : Codec PushConfig) where
    -- `AddTask` after the business is looked up.
    unfoldable pub add_known : Option PushConfig → Req → W → Response (Unit {0}) × W
    add_known none req w = (failed bad_request no_biz, w)
    add_known (some c) req w =
        let (e, w') = add_task rg cfg codec req.business req.num w in (done e, w')

    -- `AddTask`, from what gin's `Bind` makes of the request. When it fails, `Bind` itself has sent
    -- the status 400, which the handler's 500 does not change any more; its text is the body.
    unfoldable pub add_task_handler : Result Req → W → Response (Unit {0}) × W
    add_task_handler (err e) w = (failed bad_request e, w)
    add_task_handler (ok req) w = add_known (lookup req.business push_map) req w
