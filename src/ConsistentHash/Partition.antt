-- ===== src/ConsistentHash/Partition.antt =====
-- The pods that share a ring divide the device types among them.
use offlinepush.Base.{
  ◌≡◌, ◌≢◌, refl, ap, ◌∙◌, sym, List, [], ◌∷◌, String, Bool, false, ◌&&◌, ◌=ₛ◌, contains, arith,
  eq_iff,
}
use offlinepush.Registry.{Event, EventType}
use offlinepush.ConsistentHash.{
  HashRing, ConsistentHash, owner, select_types, get_responsible_keys, on_event, on_type, on_events,
  on_add_node, on_del_node,
}

-- Two pods with the same ring and the same types.
pub record Agree {R : Type 0} (c d : ConsistentHash R) : Type 0 where
  pub rings : c.ring ≡ d.ring
  pub types : c.types ≡ d.types

-- What two pods see of the same events: each with its own receiver ready or not.
abbrev pub seen_by_first : List (Event × (Bool × Bool)) → List (Bool × Event)
seen_by_first [] = []
seen_by_first ((e, (a, b)) ∷ es) = (a, e) ∷ seen_by_first es

abbrev pub seen_by_second : List (Event × (Bool × Bool)) → List (Bool × Event)
seen_by_second [] = []
seen_by_second ((e, (a, b)) ∷ es) = (b, e) ∷ seen_by_second es

module _ {R : Type 0} (hr : HashRing R) where
  contains-select_types :
      (ring : R) (pod : String) (ts : List String) (t : String)
      → contains (select_types hr ring pod ts) t ≡ (contains ts t && (owner hr ring t =ₛ pod))
  unfolding select_types
  contains-select_types ring pod [] t = refl
  contains-select_types ring pod (s ∷ ts) t = ground (
    arith,
    eq_iff s t,
    eq_iff (owner hr ring s) pod,
    eq_iff (owner hr ring t) pod,
    contains-select_types ring pod ts t,
  )

  -- A pod is responsible for exactly the configured types whose node on its ring is the pod.
  pub contains-responsible :
      (c : ConsistentHash R) (t : String)
      → contains (get_responsible_keys hr c) t
        ≡ (contains c.types t && (owner hr c.ring t =ₛ c.pod_name))
  unfolding get_responsible_keys
  contains-responsible c t = contains-select_types c.ring c.pod_name c.types t

  pub on_type-Agree :
      (type : EventType) (a b : Bool) (name : String) (c d : ConsistentHash R)
      → Agree c d
      → Agree (on_type hr type a name c).0 (on_type hr type b name d).0
  unfolding on_type on_add_node on_del_node
  on_type-Agree EventType.unknown a b name c d h = h
  on_type-Agree EventType.put a b name c d h = record {
    rings = ap (hr.add_node name) h.rings;
    types = h.types;
  }
  on_type-Agree EventType.delete a b name c d h = record {
    rings = ap (hr.remove_node name) h.rings;
    types = h.types;
  }
  on_type-Agree EventType.update a b name c d h = h

  on_events-Agree :
      (es : List (Event × (Bool × Bool))) (c d : ConsistentHash R)
      → Agree c d
      → Agree (on_events hr (seen_by_first es) c).0 (on_events hr (seen_by_second es) d).0
  unfolding on_events on_event
  on_events-Agree [] c d h = h
  on_events-Agree ((e, (a, b)) ∷ es) c d h =
      on_events-Agree es (on_event hr a e c).0 (on_event hr b e d).0
        (on_type-Agree e.type a b e.ins.address c d h)

  on_type-pod_name :
      (type : EventType) (a : Bool) (name : String) (c : ConsistentHash R)
      → (on_type hr type a name c).0.pod_name ≡ c.pod_name
  unfolding on_type on_add_node on_del_node
  on_type-pod_name EventType.unknown a name c = refl
  on_type-pod_name EventType.put a name c = refl
  on_type-pod_name EventType.delete a name c = refl
  on_type-pod_name EventType.update a name c = refl

  pub on_events-pod_name :
      (es : List (Bool × Event)) (c : ConsistentHash R)
      → (on_events hr es c).0.pod_name ≡ c.pod_name
  unfolding on_events on_event
  on_events-pod_name [] c = refl
  on_events-pod_name ((a, e) ∷ es) c =
      on_events-pod_name es (on_event hr a e c).0 ∙ on_type-pod_name e.type a e.ins.address c

  -- Two pods of different names that agree are never responsible for the same type.
  Agree-exclusive :
      (c d : ConsistentHash R) (t : String)
      → Agree c d
      → c.pod_name ≢ d.pod_name
      → (contains (get_responsible_keys hr c) t && contains (get_responsible_keys hr d) t) ≡ false
  Agree-exclusive c d t h apart =
      rw (contains-responsible c t, contains-responsible d t, h.rings, h.types)
        (ground
          (arith, eq_iff (owner hr d.ring t) c.pod_name, eq_iff (owner hr d.ring t) d.pod_name))

  -- Two pods with different names, the same types and equal rings, which process the same events in
  -- the same order, each with or without a waiting receiver, are never both responsible for a type.
  pub on_events-exclusive :
      (es : List (Event × (Bool × Bool))) (c d : ConsistentHash R) (t : String)
      → Agree c d
      → c.pod_name ≢ d.pod_name
      → (contains (get_responsible_keys hr (on_events hr (seen_by_first es) c).0) t
          && contains (get_responsible_keys hr (on_events hr (seen_by_second es) d).0) t)
        ≡ false
  on_events-exclusive es c d t h apart =
      Agree-exclusive (on_events hr (seen_by_first es) c).0 (on_events hr (seen_by_second es) d).0 t
        (on_events-Agree es c d h)
        (λ same. apart (
          sym (on_events-pod_name (seen_by_first es) c)
          ∙ same
          ∙ on_events-pod_name (seen_by_second es) d))
