-- ===== src/RedisClient.antt =====
-- cmd/ioc/redis.go and pkg/zapx/hook.go: the redis client with the hook that logs its commands. A
-- command is its name and its arguments; what redis answers to it is a parameter. `main` does not
-- make this client.
pub mod Hooked
use offlinepush.Base.{List, [], ◌∷◌, ◌++◌, map, String, Option, none, some, ◌=ₛ◌, if◌then◌else◌}
use offlinepush.Base.Result.{Error, Result, ok, err}

-- What the hook reads of a `redis.Cmder`, and what the client sends of it.
pub record Cmder : Type 0 where
  pub name : String
  pub args : List String

-- Redis and the records that the logger has written at the level debug.
pub record Logged (W : Type 0) : Type 0 where
  pub redis : W
  pub debug : List String

module _ {W A : Type 0} where
  unfoldable pub dial_hook : (W → A × W) → W → A × W
  dial_hook next = next

  unfoldable pub process_hook : (Cmder → W → A × W) → Cmder → Logged W → A × Logged W
  process_hook next cmd l =
      let debug = l.debug ++ (cmd.name ∷ []) in
      let (answer, redis) = next cmd l.redis in (answer, record { redis = redis; debug = debug })

  unfoldable pub process_pipeline_hook :
      (List Cmder → W → A × W) → List Cmder → Logged W → A × Logged W
  process_pipeline_hook next cmds l =
      let debug = l.debug ++ map (λ (cmd : Cmder). cmd.name) cmds in
      let (answer, redis) = next cmds l.redis in (answer, record { redis = redis; debug = debug })

-- `PingRedis`: the answer of `Set` is not looked at; `none` is a panic.
abbrev pub set_key1 : Cmder
set_key1 = record { name = "set"; args = "key1" ∷ "val1" ∷ [] }

abbrev pub get_key1 : Cmder
get_key1 = record { name = "get"; args = "key1" ∷ [] }

unfoldable pub pinged : Result String → Option (Unit {0})
pinged (err e) = none
pinged (ok result) = if result =ₛ "val1" then some tt else none

unfoldable pub ping_redis :
    {W : Type 0} → (Cmder → W → Result String × W) → W → Option (Unit {0}) × W
unfolding pinged
ping_redis process w =
    let (result, w') = process get_key1 (process set_key1 w).1 in (pinged result, w')

-- The client that is tried, and kept, has the hook.
unfoldable pub init_redis :
    {W : Type 0} → (Cmder → W → Result String × W) → Logged W → Option (Unit {0}) × Logged W
unfolding process_hook ping_redis
init_redis process l = ping_redis (process_hook process) l
