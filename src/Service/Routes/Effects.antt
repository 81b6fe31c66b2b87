-- ===== src/Service/Routes/Effects.antt =====
-- What a request can change: the registry's service, by one registration or not at all.
use offlinepush.Base.{
  ◌≡◌, refl, ◌⊎◌, inl, inr, String, Bool, true, false, Option, none, some, arith,
}
use offlinepush.Base.Dict.{lookup}
use offlinepush.Base.Result.{Result, ok, err}
use offlinepush.Config.{RegisterConfig, PushConfig, push_map}
use offlinepush.Json.{Codec}
use offlinepush.Registry.{ServiceInstance, Registry}
use offlinepush.Service
use offlinepush.Service.{
  reset_instance, task_instance, reset_counter, get_count, pod_list, register_task, add_found,
}
use offlinepush.Service.Web.{Req, reset_count, counts, pods_list, add_known, add_task_handler}
use offlinepush.Service.Routes.{
  Method, get, post, Handler, push_config, pods, count, task_add, reset, Request, find_handler,
  register_routes, handle, handled, answer,
}

module _ {W : Type 0} (rg : Registry W) (cfg : RegisterConfig) (codec : Codec PushConfig) where
  -- An instance that a request may register: the reset's, or that of a task of the push map.
  abbrev pub Asked : Request → ServiceInstance → Type 0
  Asked req ins =
      (ins ≡ reset_instance cfg)
      ⊎ ((body : Req) × (task : PushConfig) × (note : String) × (req.body ≡ ok body)
          × (lookup body.business push_map ≡ some task)
          × (codec.marshal (record task { num = body.num }) ≡ ok note)
          × (ins ≡ task_instance cfg note))

  -- What becomes of the registry's service.
  abbrev pub Changes : Request → W → W → Type 0
  Changes req w w' =
      (w' ≡ w)
      ⊎ ((req.method ≡ post)
          × (ins : ServiceInstance) × Asked req ins
          × (w' ≡ (rg.register ins w).1))

  get_handler : Handler → Bool
  get_handler push_config = true
  get_handler pods = true
  get_handler count = true
  get_handler task_add = false
  get_handler reset = false

  found_post :
      (m : Method) (pattern : String) (h : Handler)
      → find_handler m pattern register_routes ≡ some h
      → (get_handler h ≡ true) ⊎ (m ≡ post)
  unfolding find_handler register_routes get_handler
  found_post get pattern push_config e = inl refl
  found_post get pattern pods e = inl refl
  found_post get pattern count e = inl refl
  found_post get pattern task_add e = absurd (ground arith)
  found_post get pattern reset e = absurd (ground arith)
  found_post post pattern h e = inr refl

  module _ (reads : (name : String) (w : W) → (rg.list_service name w).1 ≡ w) where
    get_kept :
        (h : Handler) (req : Request) (w : W)
        → get_handler h ≡ true
        → (handle rg cfg codec h req w).1 ≡ w
    unfolding handle get_handler pods_list counts pod_list get_count
    get_kept push_config req w g = refl
    get_kept pods req w g = reads cfg.service_name w
    get_kept count req w g = reads cfg.read_count_key w
    get_kept task_add req w g = cc
    get_kept reset req w g = cc

    registered :
        (req : Request) (body : Req) (task : PushConfig) (r : Result String) (w : W)
        → req.method ≡ post
        → req.body ≡ ok body
        → lookup body.business push_map ≡ some task
        → codec.marshal (record task { num = body.num }) ≡ r
        → Changes req w (register_task rg cfg r w).1
    unfolding register_task
    registered req body task (err e) w posted is known made = inl refl
    registered req body task (ok note) w posted is known made =
        inr (posted, task_instance cfg note, inr (body, task, note, is, known, made, refl), refl)

    add_task_known :
        (body : Req) (task : PushConfig) (w : W)
        → lookup body.business push_map ≡ some task
        → Service.add_task rg cfg codec body.business body.num w
          ≡ register_task rg cfg (codec.marshal (record task { num = body.num })) w
    unfolding Service.add_task add_found
    add_task_known body task w known = rw known refl

    added :
        (req : Request) (body : Req) (o : Option PushConfig) (w : W)
        → req.method ≡ post
        → req.body ≡ ok body
        → lookup body.business push_map ≡ o
        → Changes req w (add_known rg cfg codec o body w).1
    unfolding add_known
    added req body none w posted is known = inl refl
    added req body (some task) w posted is known =
        rw (add_task_known body task w known) (registered req body task _ w posted is known refl)

    task_added :
        (req : Request) (r : Result Req) (w : W)
        → req.method ≡ post
        → req.body ≡ r
        → Changes req w (add_task_handler rg cfg codec r w).1
    unfolding add_task_handler
    task_added req (err e) w posted is = inl refl
    task_added req (ok body) w posted is =
        added req body (lookup body.business push_map) w posted is refl

    handle-Changes :
        (h : Handler) (req : Request) (w : W)
        → (get_handler h ≡ true) ⊎ (req.method ≡ post)
        → Changes req w (handle rg cfg codec h req w).1
    unfolding handle reset_count reset_counter get_handler
    handle-Changes h req w (inl g) = inl (get_kept h req w g)
    handle-Changes task_add req w (inr posted) = task_added req req.body w posted refl
    handle-Changes reset req w (inr posted) = inr (posted, reset_instance cfg, inl refl, refl)
    handle-Changes push_config req w (inr posted) = inl (get_kept push_config req w refl)
    handle-Changes pods req w (inr posted) = inl (get_kept pods req w refl)
    handle-Changes count req w (inr posted) = inl (get_kept count req w refl)

    handled-Changes :
        (o : Option Handler) (req : Request) (w : W)
        → find_handler req.method req.pattern register_routes ≡ o
        → Changes req w (handled rg cfg codec o req w).1
    unfolding handled
    handled-Changes none req w e = inl refl
    handled-Changes (some h) req w e =
        handle-Changes h req w (found_post req.method req.pattern h e)

    -- If listing leaves the registry's service as it is, then so does every request, whatever its
    -- path and body, but a POST that registers one instance: the one that resets the counts, or,
    -- where the body could be read, the task of a business of the push map with the number of the
    -- body. No request can switch a business off, or unregister anything.
    pub answer-Changes : (req : Request) (w : W) → Changes req w (answer rg cfg codec req w).1
    unfolding answer
    answer-Changes req w =
        handled-Changes (find_handler req.method req.pattern register_routes) req w refl
