-- ===== src/Start/Joining.antt =====
-- A pod that has started is among its own nodes.
use mathlib.Core.Option
use mathlib.Core.List.{Memᴰ}
use text.Mathlib.TextPositions.{starts_with-append}
use offlinepush.Base.{
  ◌≡◌, refl, sym, ap, ◌∙◌, List, [], ◌∷◌, map, String, Option, none, some, Bool, true, All, ◌||◌,
  contains, arith, eq_refl, Option-cases, inl, inr,
}
use offlinepush.Base.Dict.{lookup, insert, keys}
use offlinepush.Base.Result.{Error, Result, ok, err}
use offlinepush.Config.{RegisterConfig, StartConfig, get_pod_name, devices, push_map}
use offlinepush.Json.{Codec, RoundTrips}
use offlinepush.Registry.{ServiceInstance, Registry}
use offlinepush.Etcd
use offlinepush.Etcd.{Client, instance_key}
use offlinepush.Etcd.Listing.{ReadsPuts, register_lists}
use offlinepush.ConsistentHash.{
  HashRing, ConsistentHash, addresses, list_nodes, node_set, start, set_nodes, on_set_nodes,
  new_consistent_hash, get_responsible_keys,
}
use offlinepush.ConsistentHash.Membership.{present, present-node_set, present-some}
use offlinepush.Counter.{new_counter}
use offlinepush.Interceptor.{new_interceptor, permit}
use offlinepush.Cron.{Scheduler}
use offlinepush.Fleet.{new_producer}
use offlinepush.Start.{
  Services, Pod, must, init_db, init_tables, init_etcd, ping_etcd, init_kafka, init_prometheus,
  new_push_logger, run_consumer, pod_instance, assemble, start_components, after_register, main,
  program, program_named,
}

module _ {W A : Type 0} where
  -- What went well if the whole did.
  must-some :
      (op : W → Option Error × W) (rest : W → Option A × W) (w : W) {a : A}
      → (must op rest w).0 ≡ some a
      → ((op w).0 ≡ none) × ((rest (op w).1).0 ≡ some a)
  unfolding must
  must-some op rest w h = elim (Option-cases (op w).0) [
    | inl fine ↦ (fine, rw (must, fine) at h)
    | inr (e, failed) ↦ cc (rw (must, failed) at h)
  ]

  module _ (s : Services W) (rest : W → Option A × W) (w : W) {a : A} where
    init_db-some : (init_db s rest w).0 ≡ some a → (w' : W) × ((rest w').0 ≡ some a)
    unfolding init_db init_tables
    init_db-some h =
        let (fine, more) = must-some s.open_mysql (must s.auto_migrate rest) w h in
        (_, (must-some s.auto_migrate rest (s.open_mysql w).1 more).1)

    new_push_logger-some : (new_push_logger s rest w).0 ≡ some a → (w' : W) × ((rest w').0 ≡ some a)
    unfolding new_push_logger
    new_push_logger-some h =
        let (where_, more) = must-some s.getwd (must s.mkdir_all (must s.open_file rest)) w h in
        let (made, most) = must-some s.mkdir_all (must s.open_file rest) (s.getwd w).1 more in
        (_, (must-some s.open_file rest (s.mkdir_all (s.getwd w).1).1 most).1)

    init_prometheus-some :
        (init_prometheus s rest w).0 ≡ some a → (rest (s.register_gauge w).1).0 ≡ some a
    unfolding init_prometheus
    init_prometheus-some h = (must-some s.register_gauge rest w h).1

    init_etcd-some : (init_etcd s rest w).0 ≡ some a → (w' : W) × ((rest w').0 ≡ some a)
    unfolding init_etcd ping_etcd
    init_etcd-some h =
        let (new, more) = must-some s.new_etcd (must s.put_key (must s.get_key rest)) w h in
        let (put, most) = must-some s.put_key (must s.get_key rest) (s.new_etcd w).1 more in
        (_, (must-some s.get_key rest (s.put_key (s.new_etcd w).1).1 most).1)

    init_kafka-some : (init_kafka s rest w).0 ≡ some a → (rest (s.new_kafka w).1).0 ≡ some a
    unfolding init_kafka
    init_kafka-some h = (must-some s.new_kafka rest w h).1

-- The address of an instance that is listed.
address_listed :
    (ins : ServiceInstance) (l : List ServiceInstance)
    → Memᴰ ins l
    → contains (map (λ (i : ServiceInstance). i.address) l) ins.address ≡ true
address_listed ins [] m = elim m [ ]
address_listed ins (i ∷ l) (Memᴰ.head same) = ground (arith, same, eq_refl i.address)
address_listed ins (i ∷ l) (Memᴰ.tail m) = ground (arith, address_listed ins l m)

node_listed :
    (ins : ServiceInstance) (l : List ServiceInstance)
    → Memᴰ ins l
    → lookup ins.address (node_set (map (λ (i : ServiceInstance). i.address) l) []) ≡ some tt
node_listed ins l m = present-some (
    present-node_set (map (λ (i : ServiceInstance). i.address) l) [] ins.address
    ∙ ap (λ (b : Bool). b || present (lookup ins.address [])) (address_listed ins l m))

module _ {R : Type 0} (hr : HashRing R) where
  start_inversion :
      (service_name pod : String) (types : List String) (answer : Result (List ServiceInstance))
      (c : ConsistentHash R)
      → start hr service_name pod types (addresses answer) ≡ some c
      → (l : List ServiceInstance) × (answer ≡ ok l)
        × (c.nodes ≡ node_set (map (λ (i : ServiceInstance). i.address) l) [])
  unfolding start addresses set_nodes on_set_nodes
  start_inversion service_name pod types (err e) c h = cc
  start_inversion service_name pod types (ok l) c h =
      (l, refl, sym (ap (λ (o : Option (ConsistentHash R)). (Option.get_or o c).nodes) h))

module _ {R S W : Type 0} (hr : HashRing R) (sched : Scheduler S) where
  components_inversion :
      (s : Services W) (c : Option (ConsistentHash R)) (w : W) (p : Pod R S)
      → (start_components hr sched s c w).0 ≡ some p
      → (d : ConsistentHash R) × (c ≡ some d) × (p ≡ assemble hr sched d (keys push_map))
  unfolding start_components run_consumer
  components_inversion s none w p h = cc
  components_inversion s (some c) w p h =
      let end_ : W → Option (Pod R S) × W = λ v. (some (assemble hr sched c (keys push_map)), v) in
      let (made, more) = must-some s.new_sync_producer (must s.new_consumer_group end_) w h in
      let (group, all) = must-some s.new_consumer_group end_ (s.new_sync_producer w).1 more in
      (c, refl, sym (ap (λ (o : Option (Pod R S)). Option.get_or o p) all))

  listed_nodes :
      (rg : Registry W) (cfg : RegisterConfig) (w : W) (c : ConsistentHash R)
      → (new_consistent_hash hr rg cfg.service_name cfg.pod_name devices w).0 ≡ some c
      → (l : List ServiceInstance) × ((rg.list_service cfg.service_name w).0 ≡ ok l)
        × (c.nodes ≡ node_set (map (λ (i : ServiceInstance). i.address) l) [])
  unfolding new_consistent_hash list_nodes
  listed_nodes rg cfg w c h =
      start_inversion hr cfg.service_name cfg.pod_name devices
        (rg.list_service cfg.service_name w).0 c h

  -- `main` from the registration on.
  registered_joins :
      (client : Client W) (codec : Codec ServiceInstance) (s : Services W) (cfg : RegisterConfig)
      (w : W) (p : Pod R S)
      → ReadsPuts client
      → RoundTrips codec
      → (must
          (Etcd.register client codec (pod_instance cfg))
          (after_register hr sched (Etcd.registry client codec) s cfg)
          w).0
        ≡ some p
      → (c : ConsistentHash R) × (p ≡ assemble hr sched c (keys push_map))
        × (lookup cfg.pod_name c.nodes ≡ some tt)
  unfolding after_register
  registered_joins client codec s cfg w p reads rt h =
      let rg = Etcd.registry client codec in
      let ins = pod_instance cfg in
      let (stored, more) =
        must-some (Etcd.register client codec ins) (after_register hr sched rg s cfg) w h in
      let w' = (Etcd.register client codec ins w).1 in
      let made = new_consistent_hash hr rg cfg.service_name cfg.pod_name devices w' in
      let (c, hashed, is) = components_inversion s made.0 made.1 p more in
      let (l, listed, nodes) = listed_nodes rg cfg w' c hashed in
      let mem =
        register_lists client codec reads rt ins cfg.service_name w l
          (starts_with-append cfg.service_name _) stored listed in
      (c, is, ap (lookup cfg.pod_name) nodes ∙ node_listed ins l mem)

  -- `main`, whatever the configuration that it finds.
  started_joins :
      (client : Client W) (codec : Codec ServiceInstance) (s : Services W) (cfg : RegisterConfig)
      (w : W) (p : Pod R S)
      → ReadsPuts client
      → RoundTrips codec
      → (main hr sched (Etcd.registry client codec) s cfg w).0 ≡ some p
      → (c : ConsistentHash R) × (p ≡ assemble hr sched c (keys push_map))
        × (lookup cfg.pod_name c.nodes ≡ some tt)
  unfolding main
  started_joins client codec s cfg w p reads rt h =
      let rg = Etcd.registry client codec in
      let last = after_register hr sched rg s cfg in
      let fifth = must (Etcd.register client codec (pod_instance cfg)) last in
      let fourth = must s.new_session fifth in
      let third = init_prometheus s fourth in
      let (w1, one) = init_db-some s (init_etcd s (init_kafka s third)) w h in
      let (w2, two) = init_etcd-some s (init_kafka s third) w1 one in
      let three = init_kafka-some s third w2 two in
      let w3 = (s.new_kafka w2).1 in
      let four = init_prometheus-some s fourth w3 three in
      let w4 = (s.register_gauge w3).1 in
      let (open_, five) = must-some s.new_session fifth w4 four in
      registered_joins client codec s cfg (s.new_session w4).1 p reads rt five

  -- The configuration is made before `main`, with the name that the host gives.
  program_inversion :
      (rg : Registry W) (s : Services W) (start_config : String → StartConfig) (w : W) (p : Pod R S)
      → (program hr sched rg s start_config w).0 ≡ some p
      → ((s.hostname w).0.1 ≡ none)
        × (v : W) × ((main hr sched rg s (start_config (s.hostname w).0.0).register v).0 ≡ some p)
  unfolding program program_named get_pod_name
  program_inversion rg s start_config w p h =
      let named = main hr sched rg s (start_config (s.hostname w).0.0).register in
      elim (Option-cases (s.hostname w).0.1) [
        | inl fine ↦
            let (v, begun) = new_push_logger-some s named (s.hostname w).1 (rw fine at h) in
            (fine, v, begun)
        | inr (e, failed) ↦ cc (rw failed at h)
      ]

  -- If etcd's gets read what was put and instances are read back from their texts, then a program
  -- that has started without a panic has got its host's name; with the configuration for this name
  -- the pod is among the nodes of its consistent hash, and its producer begins with the types that
  -- this hash gives it; the topics that the consumer's group consumes are those of the push map,
  -- each of which is switched on, and both counts are zero.
  pub main-joins :
      (client : Client W) (codec : Codec ServiceInstance) (s : Services W)
      (start_config : String → StartConfig) (w : W) (p : Pod R S)
      → ReadsPuts client
      → RoundTrips codec
      → (program hr sched (Etcd.registry client codec) s start_config w).0 ≡ some p
      → ((s.hostname w).0.1 ≡ none)
        × (lookup (start_config (s.hostname w).0.0).register.pod_name p.hasher.nodes ≡ some tt)
        × (p.producer.responsible_types ≡ get_responsible_keys hr p.hasher)
        × (p.topics ≡ keys push_map)
        × All (λ (topic : String). permit p.interceptor topic ≡ true) (keys push_map)
        × (p.counter ≡ new_counter)
  unfolding new_producer new_interceptor push_map permit lookup insert
  main-joins client codec s start_config w p reads rt h =
      let (named, v, begun) = program_inversion (Etcd.registry client codec) s start_config w p h in
      let (c, is, joined) =
        started_joins client codec s (start_config (s.hostname w).0.0).register v p reads rt
          begun in
      rw is (named, joined, refl, refl, (refl, (refl, (refl, tt))), refl)
