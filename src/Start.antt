-- ===== src/Start.antt =====
-- cmd/main and cmd/ioc: a pod starts, and how it would shut down. `none` is a panic, which ends the
-- pod. The clients of other packages are the calls of `Services`; goroutines that are only started
-- here run in the other modules; of the web server there are the routes, and not its loop.
pub mod Joining
mod Tests
use offlinepush.Base.{List, [], ◌∷◌, String, Option, none, some}
use offlinepush.Base.Dict.{keys}
use offlinepush.Base.Result.{Error}
use offlinepush.Config.{RegisterConfig, StartConfig, get_pod_name, devices, push_map}
use offlinepush.Service.Routes.{Route, register_routes}
use offlinepush.Registry.{ServiceInstance, Registry}
use offlinepush.Interceptor.{Interceptor, new_interceptor}
use offlinepush.Counter.{Counter, new_counter}
use offlinepush.ConsistentHash.{HashRing, ConsistentHash, new_consistent_hash}
use offlinepush.Cron.{Scheduler, Cron, new_cron}
use offlinepush.Fleet.{Producer, new_producer}

-- The calls that ask for the host's name, open files, databases and clients, or check that they
-- answer.
pub record Services (W : Type 0) : Type 0 where
  pub hostname : W → (String × Option Error) × W
  pub getwd : W → Option Error × W
  pub mkdir_all : W → Option Error × W
  pub open_file : W → Option Error × W
  pub register_gauge : W → Option Error × W
  pub open_mysql : W → Option Error × W
  pub auto_migrate : W → Option Error × W
  pub new_etcd : W → Option Error × W
  pub put_key : W → Option Error × W
  pub get_key : W → Option Error × W
  pub new_kafka : W → Option Error × W
  pub new_session : W → Option Error × W
  pub new_sync_producer : W → Option Error × W
  pub new_consumer_group : W → Option Error × W

-- What `main` has when it waits for the signal.
pub record Pod (R S : Type 0) : Type 0 where
  pub interceptor : Interceptor
  pub counter : Counter
  pub cron : Cron S
  pub hasher : ConsistentHash R
  pub producer : Producer
  pub topics : List String
  pub routes : List Route

-- `if err != nil { panic(err) }`, and the rest
unfoldable pub must :
    {W A : Type 0} → (W → Option Error × W) → (W → Option A × W) → W → Option A × W
must op rest w = let (e, w') = op w in elim e [ some failure ↦ (none, w') | none ↦ rest w' ]

module _ {W : Type 0} (s : Services W) where
  unfoldable pub init_tables : {A : Type 0} → (W → Option A × W) → W → Option A × W
  unfolding must
  init_tables rest = must s.auto_migrate rest

  unfoldable pub init_db : {A : Type 0} → (W → Option A × W) → W → Option A × W
  unfolding must init_tables
  init_db rest = must s.open_mysql (init_tables rest)

  unfoldable pub ping_etcd : {A : Type 0} → (W → Option A × W) → W → Option A × W
  unfolding must
  ping_etcd rest = must s.put_key (must s.get_key rest)

  unfoldable pub init_etcd : {A : Type 0} → (W → Option A × W) → W → Option A × W
  unfolding must ping_etcd
  init_etcd rest = must s.new_etcd (ping_etcd rest)

  unfoldable pub init_kafka : {A : Type 0} → (W → Option A × W) → W → Option A × W
  unfolding must
  init_kafka rest = must s.new_kafka rest

  -- `prometheus.MustRegister`; the server that is started then is left out
  unfoldable pub init_prometheus : {A : Type 0} → (W → Option A × W) → W → Option A × W
  unfolding must
  init_prometheus rest = must s.register_gauge rest

  -- The value of the package variable `PushLogger`, which is made before `main` runs.
  unfoldable pub new_push_logger : {A : Type 0} → (W → Option A × W) → W → Option A × W
  unfolding must
  new_push_logger rest = must s.getwd (must s.mkdir_all (must s.open_file rest))

  -- `Consumer.Run`: the topics of the push map, and the panic where the group cannot be made
  unfoldable pub run_consumer : {A : Type 0} → (List String → W → Option A × W) → W → Option A × W
  unfolding must push_map
  run_consumer rest = must s.new_consumer_group (rest (keys push_map))

-- The instance under which a pod is known.
abbrev pub pod_instance : RegisterConfig → ServiceInstance
pod_instance cfg = record {
  address = cfg.pod_name;
  service_name = cfg.service_name;
  weight = 0;
  note = "";
}

-- `InitWebServer`: gin's engine with the handler's routes
abbrev pub init_web_server : List Route
init_web_server = register_routes

abbrev pub assemble :
    {R S : Type 0} → HashRing R → Scheduler S → ConsistentHash R → List String → Pod R S
assemble hr sched c topics = record {
  cron = new_cron sched;
  interceptor = new_interceptor;
  counter = new_counter;
  hasher = c;
  producer = new_producer hr c;
  topics = topics;
  routes = init_web_server;
}

module _ {R S W : Type 0} (hr : HashRing R) (sched : Scheduler S) (s : Services W) where
  -- `main` after the consistent hash is there, or has panicked.
  unfoldable pub start_components : Option (ConsistentHash R) → W → Option (Pod R S) × W
  unfolding must run_consumer
  start_components none w = (none, w)
  start_components (some c) w =
      must s.new_sync_producer
        (run_consumer s (λ topics w'. (some (assemble hr sched c topics), w'))) w

module _ {R S W : Type 0} (hr : HashRing R) (sched : Scheduler S) (rg : Registry W) (s : Services W)
    (cfg : RegisterConfig) where
  -- `main` after the pod is registered.
  unfoldable pub after_register : W → Option (Pod R S) × W
  unfolding start_components
  after_register w =
      let (c, w') = new_consistent_hash hr rg cfg.service_name cfg.pod_name devices w in
      start_components hr sched s c w'

  unfoldable pub main : W → Option (Pod R S) × W
  unfolding must init_db init_etcd init_kafka init_prometheus after_register
  main w =
      init_db s
        (init_etcd s (
          init_kafka s (
            init_prometheus s
              (must s.new_session (must (rg.register (pod_instance cfg)) after_register)))))
        w

module _ {R S W : Type 0} (hr : HashRing R) (sched : Scheduler S) (rg : Registry W) (s : Services W)
    (start_config : String → StartConfig) where
  -- The name that the host gave is put into the configuration; none was given is a panic.
  unfoldable pub program_named : Option String → W → Option (Pod R S) × W
  unfolding new_push_logger
  program_named none w = (none, w)
  program_named (some pod_name) w =
      new_push_logger s (main hr sched rg s (start_config pod_name).register) w

  -- The whole program: the variables of packages config and ioc, then `main`.
  unfoldable pub program : W → Option (Pod R S) × W
  unfolding program_named get_pod_name
  program w = let (answer, w') = s.hostname w in program_named (get_pod_name answer) w'

-- `Shutdown`, which `main` does not call: the errors are logged.
unfoldable pub shutdown : {W : Type 0} → Registry W → ServiceInstance → W → W
shutdown rg ins w = (rg.close (rg.unregister ins w).1).1
