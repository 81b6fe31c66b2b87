-- ===== src/Service/Routes.antt =====
-- web/web.go, RegisterRoutes: which handler a request gets. gin's matching of a path to the pattern of
-- a route, and its binding of the body, come before; a request that matches no route is gin's.
pub mod Effects
use offlinepush.Base.{
  List, [], ◌∷◌, String, Bool, true, false, Option, none, some, ◌=ₛ◌, ◌&&◌, if◌then◌else◌,
}
use offlinepush.Base.Dict.{Dict}
use offlinepush.Base.Result.{Result}
use offlinepush.Config.{RegisterConfig, PushConfig}
use offlinepush.Json.{Codec}
use offlinepush.Registry.{ServiceInstance, Registry}
use offlinepush.Service.Web.{
  Response, Req, get_push_config, reset_count, counts, pods_list, add_task_handler,
}

pub data Method : Type 0 where
  get post : Method

pub data Handler : Type 0 where
  push_config pods count task_add reset : Handler

pub record Route : Type 0 where
  pub method : Method
  pub pattern : String
  pub handler : Handler

-- `g := server.Group("/offlinepush")` and its routes
unfoldable pub register_routes : List Route
register_routes =
    record { method = get; pattern = "/offlinepush/config/:name"; handler = push_config }
    ∷ record { method = get; pattern = "/offlinepush/pods"; handler = pods }
    ∷ record { method = get; pattern = "/offlinepush/count"; handler = count }
    ∷ record { method = post; pattern = "/offlinepush/task/add"; handler = task_add }
    ∷ record { method = post; pattern = "/offlinepush/count"; handler = reset }
    ∷ []

-- What the handlers read of a request: the parameter `name`, and the body as `Bind` makes it.
pub record Request : Type 0 where
  pub method : Method
  pub pattern : String
  pub name : String
  pub body : Result Req

pub data Answer : Type 0 where
  config : Response PushConfig → Answer
  pod_list : Response (List ServiceInstance) → Answer
  count_map : Response (Dict String) → Answer
  plain : Response (Unit {0}) → Answer

abbrev pub same_method : Method → Method → Bool
same_method get get = true
same_method post post = true
same_method get post = false
same_method post get = false

unfoldable pub find_handler : Method → String → List Route → Option Handler
find_handler m pattern [] = none
find_handler m pattern (r ∷ rs) =
    let rest = find_handler m pattern rs in
    if same_method m r.method && pattern =ₛ r.pattern then some r.handler else rest

module _ {W : Type 0} (rg : Registry W) (cfg : RegisterConfig) (codec : Codec PushConfig) where
  unfoldable pub handle : Handler → Request → W → Answer × W
  handle push_config req w = (config (get_push_config req.name), w)
  handle pods req w = let (r, w') = pods_list rg cfg w in (pod_list r, w')
  handle count req w = let (r, w') = counts rg cfg w in (count_map r, w')
  handle task_add req w = let (r, w') = add_task_handler rg cfg codec req.body w in (plain r, w')
  handle reset req w = let (r, w') = reset_count rg cfg w in (plain r, w')

  unfoldable pub handled : Option Handler → Request → W → Option Answer × W
  unfolding handle
  handled none req w = (none, w)
  handled (some h) req w = let (a, w') = handle h req w in (some a, w')

  unfoldable pub answer : Request → W → Option Answer × W
  unfolding handled find_handler register_routes
  answer req w = handled (find_handler req.method req.pattern register_routes) req w
