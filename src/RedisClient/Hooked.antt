-- ===== src/RedisClient/Hooked.antt =====
-- The hook changes nothing but the log.
use offlinepush.Base.{◌≡◌, refl, List, [], ◌∷◌, ◌++◌, map, String, append-nil, append_assoc}
use offlinepush.Base.Result.{Result}
use offlinepush.RedisClient.{Cmder, Logged, process_hook, ping_redis, init_redis}

-- Commands one after the other, and their answers.
abbrev all_processed : {W A : Type 0} → (Cmder → W → A × W) → List Cmder → W → List A × W
all_processed process [] w = ([], w)
all_processed process (cmd ∷ cmds) w =
    let (answer, w1) = process cmd w in
    let (answers, w2) = all_processed process cmds w1 in (answer ∷ answers, w2)

abbrev cmd_name : Cmder → String
cmd_name cmd = cmd.name

module _ {W A : Type 0} (process : Cmder → W → A × W) where
  -- Commands that go through the hook get the answers that they get without it, and leave redis as
  -- they do without it; the log has their names, in order, behind what it had.
  hooked-all_processed :
      (cmds : List Cmder) (l : Logged W)
      → let (answers, redis) = all_processed process cmds l.redis in
        all_processed (process_hook process) cmds l
        ≡ (answers, record { redis = redis; debug = l.debug ++ map cmd_name cmds })
  unfolding process_hook
  hooked-all_processed [] l = rw (append-nil l.debug) refl
  hooked-all_processed (cmd ∷ cmds) l =
      let l1 = (process_hook process cmd l).1 in
      rw (hooked-all_processed cmds l1, append_assoc l.debug (cmd.name ∷ []) (map cmd_name cmds))
        refl

-- Whether the client is kept is decided by redis alone, which gets the two commands of the ping.
init_redis-process :
    {W : Type 0} (process : Cmder → W → Result String × W) (l : Logged W)
    → init_redis process l ≡ (
      (ping_redis process l.redis).0,
      record { redis = (ping_redis process l.redis).1; debug = l.debug ++ ("set" ∷ "get" ∷ []) },
    )
unfolding init_redis process_hook ping_redis
init_redis-process process l = rw (append_assoc l.debug ("set" ∷ []) ("get" ∷ [])) refl
