-- ===== src/ConsistentHash/Tests.antt =====
-- The consistent hash at concrete inputs: the ring is a list, and its first name owns every type.
use offlinepush.Base.{
  Bool-cases, inr, map, ◌≡◌, ◌≢◌, ◌++◌, inl, refl, List, [], ◌∷◌, String, none, some, Bool, true,
  false, ◌=ₛ◌, contains, arith, eq_iff,
}
use offlinepush.Base.Dict.{lookup, insert}
use offlinepush.Base.Result.{Result, err, other}
use offlinepush.Json.Framed.{
  instance_codec, instance_codec-RoundTrips, is_more, unframe, unframe_nat, unreadable,
}
use offlinepush.Registry.{ServiceInstance, Registry, Event, EventType}
use offlinepush.Etcd
use offlinepush.ConsistentHash.Membership.{present}
use offlinepush.ConsistentHash.{
  on_type, on_add_node, on_set_nodes, node_set, ConsistentHash, get_responsible_keys, on_event,
  on_events, refresh, before_nodes, set_nodes,
}
use offlinepush.ConsistentHash.ListRing.{list_ring-AnsweringRing, list_ring, list_ring-RingLaws}
use offlinepush.ConsistentHash.Division.{handlers}
use offlinepush.ConsistentHash.Informed.{informed, informed-handlers}
use offlinepush.ConsistentHash.Handover.{on_events-handover}
use offlinepush.ConsistentHash.Departure.{delete_ignored, put_event, delete_event}
use offlinepush.ConsistentHash.Membership.{refresh_fails}

abbrev joins : String → Event
joins name = record {
  type = EventType.put;
  ins = record { address = name; service_name = "offlinepush"; weight = 0; note = "" };
}

abbrev pod : String → ConsistentHash (List String)
pod name = before_nodes list_ring "offlinepush" name ("phone" ∷ "watch" ∷ []) ("pod1" ∷ [])

apart : (a b : String) → (a =ₛ b) ≡ false → a ≢ b
apart a b h e = ground (arith, eq_iff a b)

-- a registry that answers every listing alike
abbrev answering : Result (List ServiceInstance) → Registry (Unit {0})
answering answer = record {
  register = λ ins w. (none, w);
  unregister = λ ins w. (none, w);
  list_service = λ name w. (answer, w);
  close = λ w. (none, w);
}

abbrev started : ConsistentHash (List String)
started =
    (set_nodes list_ring false ("pod0" ∷ [])
      (before_nodes list_ring "offlinepush" "pod1" ("phone" ∷ []) ("pod0" ∷ []))).0

pod1_named : ◌≢◌ {A = String} "pod1" ""
pod1_named = apart "pod1" "" refl

refresh_fails_example :
    contains
      (get_responsible_keys list_ring
        (refresh list_ring (answering (err (other "timeout"))) true (pod "pod1") tt).0.0)
      "phone"
    ≡ false
refresh_fails_example =
    refresh_fails list_ring list_ring-RingLaws (answering (err (other "timeout"))) true (pod "pod1")
      "phone" tt {e = other "timeout"} pod1_named refl

abbrev made_text : String
made_text = "1p1o1d11000"

delete_ignored_example :
    let joined =
      on_event list_ring true (Etcd.convert instance_codec (put_event made_text)) (pod "pod1") in
    (on_event list_ring true (Etcd.convert instance_codec delete_event) joined.0 ≡ (joined.0, none))
    × (lookup "pod1" joined.0.nodes ≡ some tt)
unfolding unframe unframe_nat is_more
delete_ignored_example =
    delete_ignored list_ring instance_codec instance_codec-RoundTrips true (pod "pod1")
      (record { address = "pod1"; service_name = ""; weight = 0; note = "" }) {e = unreadable} refl
      refl

abbrev one_joined : List (Bool × Event)
one_joined = (true, joins "pod1") ∷ []

on_events-handover_example :
    ((on_events list_ring (one_joined ++ (true, joins "pod2") ∷ []) (pod "pod1")).1
      ≡ some (
          get_responsible_keys list_ring
            (on_events list_ring (one_joined ++ (true, joins "pod2") ∷ []) (pod "pod1")).0))
    × ((on_events list_ring (one_joined ++ (false, joins "pod2") ∷ []) (pod "pod1")).1
        ≡ (on_events list_ring one_joined (pod "pod1")).1)
on_events-handover_example =
    on_events-handover list_ring one_joined (joins "pod2") (pod "pod1") (inl refl)

-- Both pods started when the first was the only node, and saw the second join.
abbrev second_joins : String → Bool → String × List (Bool × Event)
second_joins name ready = (name, (ready, joins "pod2") ∷ [])

abbrev two_nodes : List String
two_nodes = "pod2" ∷ "pod1" ∷ []

abbrev informed_pods : List (ConsistentHash (List String))
informed_pods =
    map (informed list_ring "offlinepush" ("phone" ∷ []) ("pod1" ∷ []))
      (second_joins "pod2" true ∷ second_joins "pod1" false ∷ [])

informed_nodes :
    (n : String)
    → present (
        lookup n
          (informed list_ring "offlinepush"
            ("phone" ∷ [])
            ("pod1" ∷ [])
            (second_joins "pod2" true)).nodes)
      ≡ contains two_nodes n
unfolding on_events on_event on_type on_add_node set_nodes on_set_nodes node_set insert lookup
informed_nodes n = elim (Bool-cases ("pod1" =ₛ n)) [
  | inl one ↦ elim (Bool-cases ("pod2" =ₛ n)) [
    | inl two ↦ rw (one, two) refl
    | inr differs ↦ rw (one, differs) refl
  ]
  | inr differs ↦ elim (Bool-cases ("pod2" =ₛ n)) [
    | inl two ↦ rw (differs, two) refl
    | inr neither ↦ rw (differs, neither) refl
  ]
]

informed-handlers_example : handlers list_ring "phone" informed_pods ≡ 1
unfolding on_events on_event on_type on_add_node set_nodes on_set_nodes
informed-handlers_example =
    informed-handlers list_ring "offlinepush" ("phone" ∷ []) ("pod1" ∷ []) list_ring-AnsweringRing
      (second_joins "pod2" true) (second_joins "pod1" false ∷ []) "phone" (refl, tt)
      (refl, (refl, tt)) informed_nodes refl
