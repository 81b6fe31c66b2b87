-- ===== src/Fleet/Tests.antt =====
-- Two pods at work together: one of them owns the device type.
use offlinepush.Base.{
  ℕ, ◌+◌, ◌*◌, sym, length, none, some, map, All, ◌≡◌, refl, List, [], ◌∷◌, String, true, ◌&&◌,
  contains, arith, Bool-cases, inl, inr, eq_iff, if◌then◌else◌,
}
use offlinepush.Base.Int.{ℤ, pos}
use offlinepush.Base.Bags.{bag, sum}
use offlinepush.Base.Counts.{IsDistinct}
use offlinepush.Dao.Table.{scan_gorm, scan_gorm-IndexScan}
use offlinepush.Producer.Task.{Reader, all_succeeded, hope_accesses}
use offlinepush.Producer.Task.Samples.{
  cfg, rows, accept, before, after_two, two_steps, all_returned, rows_ascend,
}
use offlinepush.Producer.Task.Owed.{dues}
use offlinepush.ConsistentHash.{ConsistentHash, owner, before_nodes}
use offlinepush.ConsistentHash.ListRing.{list_ring}
use offlinepush.Registry.{Event, EventType, Registry, ServiceInstance, put}
use offlinepush.Base.Result.{ok}
use offlinepush.Config.{RegisterConfig, PushConfig, dev_config, devices}
use offlinepush.Dao
use offlinepush.Json.Task.{encode, config_codec, config_codec-RoundTrips}
use offlinepush.Producer.{manual_task, gauge_add}
use offlinepush.Producer.Task.{Task, Reach}
use offlinepush.Producer.Task.Readers.{HasReturned, All-reader}
use offlinepush.Producer.Task.Ending.{can_end, todos}
use offlinepush.Service.{task_instance}
use offlinepush.Fleet.Posted.{posted_task_delivers}
use offlinepush.Fleet.Following.{
  Pod, comes_round, sees, receives_types, pod_acts, start_pod, producer_follows,
}
use offlinepush.Consumer
use offlinepush.Consumer.Samples.{log, after_one, after_one-Run}
use offlinepush.Counter.{hoped}
use offlinepush.Fleet.Counts.{Works, all_handled, total_hope, total_pushed, counts_meet}
use offlinepush.Fleet.{Producer, new_producer, produce_types, begin_all, all_types}
use offlinepush.Fleet.Delivered.{Intersects, fleet_delivers}

abbrev shared : List String → List String → List String
shared [] ys = []
shared (x ∷ xs) ys =
    let rest = shared xs ys in
    if contains rest x then rest else (if contains ys x then x ∷ rest else rest)

contains-shared :
    (xs ys : List String) (t : String)
    → contains (shared xs ys) t ≡ (contains xs t && contains ys t)
contains-shared [] ys t = refl
contains-shared (x ∷ xs) ys t =
    ground (arith, eq_iff x t, contains-shared xs ys t, contains-shared xs ys x)

shared-IsDistinct : (xs ys : List String) → IsDistinct (shared xs ys)
shared-IsDistinct [] ys = tt
shared-IsDistinct (x ∷ xs) ys = elim (Bool-cases (contains (shared xs ys) x)) [
  | inl twice ↦ rw twice (shared-IsDistinct xs ys)
  | inr new ↦ elim (Bool-cases (contains ys x)) [
    | inl there ↦ rw (new, there) (new, shared-IsDistinct xs ys)
    | inr other ↦ rw (new, other) (shared-IsDistinct xs ys)
  ]
]

shared-Intersects : Intersects shared
shared-Intersects = record { contains-inter_set = contains-shared; distinct = shared-IsDistinct }

abbrev pod : String → ConsistentHash (List String)
pod name = before_nodes list_ring "offlinepush" name ("DeviceA" ∷ []) ("pod1" ∷ [])

fleet_delivers_example :
    (bag after_two.world.sent ≡ sum (bag []) (bag (dues 2 cfg.topic rows ("DeviceA" ∷ []))))
    × (all_succeeded after_two.readers ≡ true)
unfolding produce_types new_producer owner offlinepush.ConsistentHash.get_responsible_keys
    offlinepush.ConsistentHash.select_types
fleet_delivers_example =
    fleet_delivers list_ring shared shared-Intersects cfg scan_gorm accept (λ db. db)
      scan_gorm-IndexScan (λ msgs k. refl) 2 refl (omega arith) rows rows_ascend (pod "pod1")
      (pod "pod2" ∷ pod "pod1" ∷ []) before after_two
      (record { rings = refl; types = refl }, (record { rings = refl; types = refl }, tt))
      (refl, (refl, tt)) (refl, tt) (λ typ h. (h, refl)) refl two_steps all_returned

abbrev joins : String → Event
joins name = record {
  type = EventType.put;
  ins = record { address = name; service_name = "offlinepush"; weight = 0; note = "" };
}

abbrev alone : ConsistentHash (List String)
alone = before_nodes list_ring "offlinepush" "pod1" ("DeviceA" ∷ []) ("pod0" ∷ [])

abbrev joined : Pod (List String)
joined =
    pod_acts list_ring (comes_round ∷ sees (joins "pod1") ∷ receives_types ∷ [])
      (start_pod list_ring alone)

producer_follows_example : joined.producer.responsible_types ≡ "DeviceA" ∷ []
unfolding pod_acts offlinepush.Fleet.Following.changed offlinepush.Fleet.Following.pod_act
    offlinepush.Forward.act offlinepush.ConsistentHash.on_event
    offlinepush.ConsistentHash.get_responsible_keys offlinepush.ConsistentHash.select_types
producer_follows_example =
    producer_follows list_ring alone (comes_round ∷ sees (joins "pod1") ∷ receives_types ∷ [])
      (inr refl, (inl refl, (inr refl, tt)))

-- A request for the business of cards, and the run of its task on both pods.
abbrev keeping : Registry (List ServiceInstance)
keeping = record {
  register = λ ins w. (none, ins ∷ w);
  unregister = λ ins w. (none, w);
  list_service = λ name w. (ok w, w);
  close = λ w. (none, w);
}

abbrev register_cfg : RegisterConfig
register_cfg = (dev_config "pod1").register

abbrev card : PushConfig
card = record {
  topic = record { name = "card"; domain = "www.card.iHome.com" };
  device_type_list =
      "DeviceA" ∷ "DeviceB" ∷ "DeviceC" ∷ "DeviceD" ∷ "DeviceE" ∷ "DeviceF" ∷ "DeviceG" ∷ "DeviceH"
      ∷ [];
  cron = "30 * * * *";
  qps = pos 4000;
  num = pos 0;
}

abbrev asked : PushConfig
asked = record card { num = pos 2 }

abbrev full_pod : String → ConsistentHash (List String)
full_pod name = before_nodes list_ring "offlinepush" name devices ("pod1" ∷ [])

abbrev both_pods : List (ConsistentHash (List String))
both_pods = full_pod "pod2" ∷ full_pod "pod1" ∷ []

abbrev both_begin : Task (List Dao.Device) ℕ
both_begin = begin_all shared (map (new_producer list_ring) both_pods) asked before

both_end :
    (u : Task (List Dao.Device) ℕ) × Reach scan_gorm accept asked both_begin u
    × All HasReturned u.readers
both_end =
    can_end scan_gorm accept asked 2 refl (omega arith) (todos 2 both_begin.readers) both_begin
      (omega arith) (All-reader 2 (all_types shared (map (new_producer list_ring) both_pods) asked))

abbrev note : String
note = encode asked

posted_task_delivers_example :
    (sent : String) × (keeping.register (task_instance register_cfg sent) []
      ≡ (none, task_instance register_cfg note ∷ []))
    × (manual_task config_codec (record { type = put; ins = task_instance register_cfg sent })
        ≡ some asked)
    × (bag both_end.0.world.sent
        ≡ sum (bag []) (bag (dues 2 card.topic rows card.device_type_list)))
unfolding offlinepush.Base.Dict.lookup offlinepush.Config.push_map
    offlinepush.Service.Web.add_task_handler offlinepush.Service.Web.add_known
    offlinepush.Service.Web.done offlinepush.Service.add_task owner
posted_task_delivers_example =
    posted_task_delivers list_ring shared shared-Intersects keeping register_cfg config_codec
      config_codec-RoundTrips scan_gorm accept (λ db. db) scan_gorm-IndexScan (λ msgs k. refl) rows
      rows_ascend 2 "card" card [] (task_instance register_cfg note ∷ []) (full_pod "pod1")
      both_pods before both_end.0 (omega arith) refl refl refl
      (record { rings = refl; types = refl }, (record { rings = refl; types = refl }, tt))
      (refl, (refl, tt)) (λ typ h. refl) refl both_end.1 both_end.2

-- One pod takes the type and handles one of its two messages; the other takes none, and handles one.
abbrev producers : List Producer
producers = record { responsible_types = [] } ∷ record { responsible_types = "DeviceA" ∷ [] } ∷ []

abbrev consumers : List Consumer.Pod
consumers = after_one (pos 0) ∷ after_one (pos 2) ∷ []

Works-one :
    (n : ℤ) (rs : List Reader) → hope_accesses cfg rs ≡ hoped n ∷ [] → Works cfg rs (after_one n)
Works-one n rs h = record {
  done = log n;
  gauge = gauge_add "card" (pos 1) [];
  ran = after_one-Run n;
  keeps_pushed = ((λ k. cc), ((λ k. cc), tt));
  keeps_hoped = ((λ k. cc), ((λ k. cc), tt));
  idle = refl;
  hopes = sym h;
}

hoped_none : hope_accesses cfg [] ≡ hoped (pos 0) ∷ []
unfolding hope_accesses offlinepush.Base.Int64.wrap64 offlinepush.Base.Int.◌*ℤ◌
hoped_none = refl

hoped_two : hope_accesses cfg after_two.readers ≡ hoped (pos 2) ∷ []
unfolding hope_accesses offlinepush.Base.Int64.wrap64 offlinepush.Base.Int.◌*ℤ◌
    offlinepush.Producer.Task.advance offlinepush.Producer.round
    offlinepush.Repository.find_devices_page Dao.find_devices_page offlinepush.Base.Int64.◌+₆₄◌
    offlinepush.Base.Int64.◌-₆₄◌ offlinepush.Base.Int.◌-ℤ◌
hoped_two = refl

two_sent : 0 + all_handled consumers ≡ length after_two.world.sent
unfolding offlinepush.Producer.Task.advance offlinepush.Producer.round
    offlinepush.Repository.find_devices_page Dao.find_devices_page offlinepush.Base.Int64.◌+₆₄◌
    offlinepush.Base.Int64.wrap64 offlinepush.Base.Int64.◌-₆₄◌ offlinepush.Base.Int.◌-ℤ◌
two_sent = refl

counts_meet_example : (total_hope consumers ≡ pos (1 * 2)) × (total_pushed consumers ≡ pos (1 * 2))
unfolding produce_types
counts_meet_example =
    counts_meet shared cfg 2 refl scan_gorm accept (λ db. db) scan_gorm-IndexScan (λ msgs k. refl)
      (omega arith) rows rows_ascend producers consumers before after_two (omega arith, tt)
      (omega arith) refl two_steps all_returned
      (Works-one (pos 0) [] hoped_none, (Works-one (pos 2) after_two.readers hoped_two, tt))
      two_sent
