-- ===== src/ConsistentHash/Informed.antt =====
-- Pods that have learned the same about the nodes divide the device types without a gap.
use mathlib.Core.Path.{subst}
use offlinepush.Base.{
  ◌≡◌, refl, sym, ap, ◌∙◌, List, [], ◌∷◌, map, String, Bool, true, false, ◌||◌, contains, All,
  eq_refl, Option-cases, inl, inr,
}
use offlinepush.Base.Counts.{IsDistinct}
use offlinepush.Base.Dict.{lookup}
use offlinepush.Registry.{Event, EventType}
use offlinepush.ConsistentHash.{
  HashRing, ConsistentHash, owner, before_nodes, set_nodes, on_set_nodes, on_event, on_events,
  on_type, on_add_node, on_del_node,
}
use offlinepush.ConsistentHash.Partition.{Agree, on_type-Agree}
use offlinepush.ConsistentHash.Membership.{
  AnsweringRing, IsInSync, present, on_events-IsInSync, set_nodes-IsInSync,
}
use offlinepush.ConsistentHash.Division.{names, handlers, Agree-handlers}

-- The events of what a pod has seen; it also saw whether a receiver waited.
abbrev pub events_seen : List (Bool × Event) → List Event
events_seen [] = []
events_seen ((ready, e) ∷ es) = e ∷ events_seen es

module _ {R : Type 0} (hr : HashRing R) where
  on_type-types :
      (type : EventType) (a : Bool) (name : String) (c : ConsistentHash R)
      → (on_type hr type a name c).0.types ≡ c.types
  unfolding on_type on_add_node on_del_node
  on_type-types EventType.unknown a name c = refl
  on_type-types EventType.put a name c = refl
  on_type-types EventType.delete a name c = refl
  on_type-types EventType.update a name c = refl

  on_events-types :
      (es : List (Bool × Event)) (c : ConsistentHash R) → (on_events hr es c).0.types ≡ c.types
  unfolding on_events on_event
  on_events-types [] c = refl
  on_events-types ((a, e) ∷ es) c =
      on_events-types es (on_event hr a e c).0 ∙ on_type-types e.type a e.ins.address c

module _ {R : Type 0} (hr : HashRing R) (service_name : String) (types ns : List String) where
  -- A pod with a name that started when `ns` were the nodes, after what it has seen.
  abbrev pub informed : String × List (Bool × Event) → ConsistentHash R
  informed (name, es) =
      (on_events hr es (set_nodes hr false ns (before_nodes hr service_name name types ns)).0).0

  same_events-Agree :
      (es fs : List (Bool × Event)) (c d : ConsistentHash R)
      → events_seen es ≡ events_seen fs
      → Agree c d
      → Agree (on_events hr es c).0 (on_events hr fs d).0
  unfolding on_events on_event
  same_events-Agree [] [] c d same h = h
  same_events-Agree [] (f ∷ fs) c d same h = cc
  same_events-Agree (e ∷ es) [] c d same h = cc
  same_events-Agree ((a, e) ∷ es) ((b, f) ∷ fs) c d same h =
      let heads : e ≡ f = cc in
      let tails : events_seen es ≡ events_seen fs = cc in
      same_events-Agree es fs (on_event hr a e c).0 (on_event hr b f d).0 tails (
        subst (λ (g : Event). Agree (on_event hr a e c).0 (on_event hr b g d).0) heads
          (on_type-Agree hr e.type a b e.ins.address c d h))

  start-Agree :
      (name name' : String)
      → Agree
          (set_nodes hr false ns (before_nodes hr service_name name types ns)).0
          (set_nodes hr false ns (before_nodes hr service_name name' types ns)).0
  unfolding set_nodes on_set_nodes
  start-Agree name name' = record { rings = refl; types = refl }

  informed-Agree :
      (s s' : String × List (Bool × Event))
      → events_seen s.1 ≡ events_seen s'.1
      → Agree (informed s) (informed s')
  informed-Agree (name, es) (name', fs) same =
      same_events-Agree es fs _ _ same (start-Agree name name')

  all-Agree :
      (s : String × List (Bool × Event)) (sights : List (String × List (Bool × Event)))
      → All (λ (s' : String × List (Bool × Event)). events_seen s.1 ≡ events_seen s'.1) sights
      → All (Agree (informed s)) (map informed sights)
  all-Agree s [] h = tt
  all-Agree s (s' ∷ sights) (same, h) = (informed-Agree s s' same, all-Agree s sights h)

  set_nodes-types :
      (name : String)
      → (set_nodes hr false ns (before_nodes hr service_name name types ns)).0.types ≡ types
  unfolding set_nodes on_set_nodes
  set_nodes-types name = refl

  informed-types : (s : String × List (Bool × Event)) → (informed s).types ≡ types
  informed-types (name, es) = on_events-types hr es _ ∙ set_nodes-types name

  module _ (ring : AnsweringRing hr) where
    informed-IsInSync : (s : String × List (Bool × Event)) → IsInSync ring.laws (informed s)
    informed-IsInSync (name, es) =
        on_events-IsInSync hr ring.laws es _
          (set_nodes-IsInSync hr ring.laws false ns (before_nodes hr service_name name types ns))

    owner-present :
        (c : ConsistentHash R) (t n : String)
        → IsInSync ring.laws c
        → present (lookup n c.nodes) ≡ true
        → present (lookup (owner hr c.ring t) c.nodes) ≡ true
    unfolding owner
    owner-present c t n sync there = elim (Option-cases (hr.get_node t c.ring)) [
      | inl nobody ↦ absurd (ring.answers t n c.ring (sync.same n ∙ there) nobody)
      | inr (m, is) ↦ rw is (sym (sync.same m) ∙ ring.laws.get-member t m c.ring is)
    ]

    -- Pods of different names that started when the nodes were the same, and have processed the same
    -- events in the same order, each with or without a waiting receiver, divide the configured types
    -- among them: each type is handled by exactly one of the pods. After the events the nodes are
    -- the pods, of which there is at least one; the ring keeps the names it is given, answers only
    -- with them, and answers as long as there is one.
    pub informed-handlers :
        (s : String × List (Bool × Event)) (sights : List (String × List (Bool × Event)))
        (t : String)
        → let pods = map informed (s ∷ sights) in
          All (λ (s' : String × List (Bool × Event)). events_seen s.1 ≡ events_seen s'.1) sights
          → IsDistinct (names pods)
          → ((n : String) → present (lookup n (informed s).nodes) ≡ contains (names pods) n)
          → contains types t ≡ true
          → handlers hr t pods ≡ 1
    informed-handlers s sights t same apart nodes known =
        let c = informed s in
        let pods = map informed (s ∷ sights) in
        let first : contains (names pods) c.pod_name ≡ true =
          ap (λ (b : Bool). b || contains (names (map informed sights)) c.pod_name)
            (eq_refl c.pod_name) in
        let there = owner-present c t c.pod_name (informed-IsInSync s) (nodes c.pod_name ∙ first) in
        Agree-handlers hr c t pods (all-Agree s (s ∷ sights) (refl, same)) apart
          (ap (λ (ts : List String). contains ts t) (informed-types s) ∙ known)
          (sym (nodes (owner hr c.ring t)) ∙ there)
