-- ===== src/Start/Tests.antt =====
-- A pod starts over an empty etcd, and every client answers.
use offlinepush.Base.{◌≡◌, refl, List, [], ◌∷◌, String, none, some, true, false, All}
use offlinepush.Base.Dict.{lookup, keys}
use offlinepush.Config.{RegisterConfig, PushConfig, dev_config, devices, push_map}
use offlinepush.Cron.Listed.{list_scheduler}
use offlinepush.Counter.{new_counter}
use offlinepush.Interceptor.{permit}
use offlinepush.ConsistentHash.{get_responsible_keys, before_nodes, set_nodes}
use offlinepush.ConsistentHash.ListRing.{list_ring}
use offlinepush.Etcd.InMemory.{list_client, list_client-ReadsPuts}
use offlinepush.Json.Framed.{instance_codec, instance_codec-RoundTrips}
use offlinepush.Start.{Services, Pod, assemble}
use offlinepush.Start.Joining.{main-joins}

abbrev all_answer : Services (List (String × String))
all_answer = record {
  hostname = λ w. (("pod1", none), w);
  getwd = λ w. (none, w);
  mkdir_all = λ w. (none, w);
  open_file = λ w. (none, w);
  register_gauge = λ w. (none, w);
  open_mysql = λ w. (none, w);
  auto_migrate = λ w. (none, w);
  new_etcd = λ w. (none, w);
  put_key = λ w. (none, w);
  get_key = λ w. (none, w);
  new_kafka = λ w. (none, w);
  new_session = λ w. (none, w);
  new_sync_producer = λ w. (none, w);
  new_consumer_group = λ w. (none, w);
}

abbrev cfg : RegisterConfig
cfg = (dev_config "pod1").register

abbrev pod : Pod (List String) (List (String × PushConfig))
pod =
    assemble list_ring list_scheduler
      (set_nodes list_ring false ("pod1" ∷ [])
        (before_nodes list_ring cfg.service_name "pod1" devices ("pod1" ∷ []))).0
      (keys push_map)

main-joins_example :
    ((all_answer.hostname []).0.1 ≡ none)
    × (lookup "pod1" pod.hasher.nodes ≡ some tt)
    × (pod.producer.responsible_types ≡ get_responsible_keys list_ring pod.hasher)
    × (pod.topics ≡ keys push_map)
    × All (λ (topic : String). permit pod.interceptor topic ≡ true) (keys push_map)
    × (pod.counter ≡ new_counter)
unfolding offlinepush.Start.program offlinepush.Start.main offlinepush.Config.get_pod_name
    offlinepush.Etcd.register offlinepush.Etcd.put_marshaled
    offlinepush.ConsistentHash.new_consistent_hash offlinepush.Etcd.list_service
    offlinepush.Etcd.decode_next offlinepush.Json.Framed.unframe offlinepush.Json.Framed.unframe_nat
main-joins_example =
    main-joins list_ring list_scheduler list_client instance_codec all_answer dev_config [] pod
      list_client-ReadsPuts instance_codec-RoundTrips refl
