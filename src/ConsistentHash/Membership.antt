-- ===== src/ConsistentHash/Membership.antt =====
-- The ring of a pod and its set of nodes say the same, and a pod outside them handles nothing.
use mathlib.Core.Option
use offlinepush.Base.{
  ◌≡◌, ◌≢◌, refl, ap, sym, ◌∙◌, List, [], ◌∷◌, String, Option, none, some, Bool, true, false, ◌||◌,
  ◌=ₛ◌, contains, arith, eq_iff, Bool-cases, Option-cases, inl, inr, if◌then◌else◌,
}
use offlinepush.Base.Dict.{Dict, lookup, insert, lookup-insert, lookup-delete, lookup-empty}
use offlinepush.Base.Result.{Error, err}
use offlinepush.Registry.{Registry, Event, EventType}
use offlinepush.ConsistentHash.{
  HashRing, ConsistentHash, node_set, addresses, list_nodes, owner, get_responsible_keys,
  on_add_node, on_del_node, on_set_nodes, set_nodes, on_type, on_event, on_events,
  new_consistent_hash, refresh, start, before_nodes,
}
use offlinepush.ConsistentHash.Partition.{contains-responsible, on_events-pod_name}

-- What the documentation of package hashring promises: which names are nodes of a ring, and that
-- `GetNode` answers with one of them.
pub record RingLaws {R : Type 0} (hr : HashRing R) : Type 0 where
  pub member : R → String → Bool
  pub member-new : (ns : List String) (n : String) → member (hr.new ns) n ≡ contains ns n
  pub member-add :
      (m : String) (r : R) (n : String) → member (hr.add_node m r) n ≡ (m =ₛ n || member r n)
  pub member-remove :
      (m : String) (r : R) (n : String)
      → member (hr.remove_node m r) n ≡ (if m =ₛ n then false else member r n)
  pub get-member : (t n : String) (r : R) → hr.get_node t r ≡ some n → member r n ≡ true

-- It answers as long as there is a node.
pub record AnsweringRing {R : Type 0} (hr : HashRing R) : Type 0 where
  pub laws : RingLaws hr
  pub answers : (t n : String) (r : R) → laws.member r n ≡ true → hr.get_node t r ≢ none

abbrev pub present : Option (Unit {0}) → Bool
present none = false
present (some u) = true

-- Every name is on the ring exactly if it is in the set of nodes.
pub record IsInSync {R : Type 0} {hr : HashRing R} (laws : RingLaws hr) (c : ConsistentHash R)
    : Type 0 where
  pub same : (n : String) → laws.member c.ring n ≡ present (lookup n c.nodes)

pub present-node_set :
    (ns : List String) (set : Dict (Unit {0})) (n : String)
    → present (lookup n (node_set ns set)) ≡ (contains ns n || present (lookup n set))
unfolding node_set
present-node_set [] set n = refl
present-node_set (m ∷ ns) set n =
    ground (arith, eq_iff m n, present-node_set ns (insert m tt set) n, lookup-insert m n tt set)

pub present-some : {o : Option (Unit {0})} → present o ≡ true → o ≡ some tt
present-some {o = none} h = cc
present-some {o = some u} h = refl

list_nodes_err :
    {W : Type 0} (rg : Registry W) (service_name : String) (w : W) {e : Error}
    → (rg.list_service service_name w).0 ≡ err e
    → (list_nodes rg service_name w).0 ≡ ([], some e)
unfolding list_nodes addresses
list_nodes_err rg service_name w failed = rw failed refl

module _ {R : Type 0} (hr : HashRing R) (laws : RingLaws hr) where
  on_type-IsInSync :
      (type : EventType) (ready : Bool) (name : String) (c : ConsistentHash R)
      → IsInSync laws c
      → IsInSync laws (on_type hr type ready name c).0
  unfolding on_type on_add_node on_del_node
  on_type-IsInSync EventType.unknown ready name c h = h
  on_type-IsInSync EventType.update ready name c h = h
  on_type-IsInSync EventType.put ready name c h = record {
    same = λ n. ground (
      arith,
      eq_iff name n,
      laws.member-add name c.ring n,
      lookup-insert name n tt c.nodes,
      h.same n,
    );
  }
  on_type-IsInSync EventType.delete ready name c h = record {
    same = λ n. ground (
      arith,
      eq_iff name n,
      laws.member-remove name c.ring n,
      lookup-delete name n c.nodes,
      h.same n,
    );
  }

  pub on_events-IsInSync :
      (es : List (Bool × Event)) (c : ConsistentHash R)
      → IsInSync laws c
      → IsInSync laws (on_events hr es c).0
  unfolding on_events on_event
  on_events-IsInSync [] c h = h
  on_events-IsInSync ((ready, e) ∷ es) c h =
      on_events-IsInSync es (on_event hr ready e c).0
        (on_type-IsInSync e.type ready e.ins.address c h)

  pub set_nodes-IsInSync :
      (ready : Bool) (ns : List String) (c : ConsistentHash R)
      → IsInSync laws (set_nodes hr ready ns c).0
  unfolding set_nodes on_set_nodes
  set_nodes-IsInSync ready ns c = record {
    same = λ n.
        ground
          (arith, laws.member-new ns n, present-node_set ns [] n, lookup-empty {V = Unit {0}} n);
  }

  owner_is_pod :
      (c : ConsistentHash R) (t : String)
      → contains (get_responsible_keys hr c) t ≡ true
      → owner hr c.ring t ≡ c.pod_name
  owner_is_pod c t h =
      ground (arith, eq_iff (owner hr c.ring t) c.pod_name, contains-responsible hr c t)

  owner-member : (r : R) (t pod : String) → pod ≢ "" → owner hr r t ≡ pod → laws.member r pod ≡ true
  unfolding owner
  owner-member r t pod named owned = elim (Option-cases (hr.get_node t r)) [
    | inl nobody ↦ absurd (named (sym (rw nobody at owned)))
    | inr (n, is) ↦ laws.get-member t pod r (is ∙ ap some (rw is at owned))
  ]

  set_nodes-pod_name :
      (ready : Bool) (ns : List String) (c : ConsistentHash R)
      → (set_nodes hr ready ns c).0.pod_name ≡ c.pod_name
  unfolding set_nodes on_set_nodes
  set_nodes-pod_name ready ns c = refl

  set_nodes-nobody :
      (ready : Bool) (c : ConsistentHash R) (n : String)
      → present (lookup n (set_nodes hr ready [] c).0.nodes) ≡ false
  unfolding set_nodes on_set_nodes node_set lookup
  set_nodes-nobody ready c n = refl

  IsInSync-responsible :
      (c : ConsistentHash R) (t : String)
      → IsInSync laws c
      → c.pod_name ≢ ""
      → contains (get_responsible_keys hr c) t ≡ true
      → present (lookup c.pod_name c.nodes) ≡ true
  IsInSync-responsible c t h named responsible =
      let owned = owner_is_pod c t responsible in
      let on_ring = owner-member c.ring t c.pod_name named owned in
      sym (h.same c.pod_name) ∙ on_ring

  at_pod :
      (c : ConsistentHash R) {pod : String}
      → c.pod_name ≡ pod
      → present (lookup c.pod_name c.nodes) ≡ true
      → present (lookup pod c.nodes) ≡ true
  at_pod c h p = sym (ap (λ (n : String). present (lookup n c.nodes)) h) ∙ p

  start-IsInSync :
      (service_name pod : String) (types : List String) (listed : List String × Option Error)
      (c : ConsistentHash R)
      → start hr service_name pod types listed ≡ some c
      → IsInSync laws c × (c.pod_name ≡ pod)
  unfolding start
  start-IsInSync service_name pod types (ns, some e) c h = cc
  start-IsInSync service_name pod types (ns, none) c h =
      let made = ap (λ (o : Option (ConsistentHash R)). Option.get_or o c) h in
      rw (← made) (
        set_nodes-IsInSync false ns (before_nodes hr service_name pod types ns),
        set_nodes-pod_name false ns (before_nodes hr service_name pod types ns),
      )

  -- If the ring keeps the names it is given and answers only with them, a pod with a name that has
  -- just started is responsible for types only as long as its own name is in its set of nodes,
  -- whatever events it processes and whether a receiver waits for them.
  pub responsible_is_node :
      {W : Type 0} (rg : Registry W) (service_name pod : String) (types : List String) (w : W)
      (c : ConsistentHash R) (es : List (Bool × Event)) (t : String)
      → pod ≢ ""
      → (new_consistent_hash hr rg service_name pod types w).0 ≡ some c
      → let c' = (on_events hr es c).0 in
        contains (get_responsible_keys hr c') t ≡ true → lookup pod c'.nodes ≡ some tt
  unfolding new_consistent_hash
  responsible_is_node rg service_name pod types w c es t named started responsible =
      let (sync, name) =
        start-IsInSync service_name pod types (list_nodes rg service_name w).0 c started in
      let here = on_events-pod_name hr es c ∙ name in
      let c' = (on_events hr es c).0 in
      present-some (
        at_pod c' here (
          IsInSync-responsible c' t (on_events-IsInSync es c sync) (λ e. named (sym here ∙ e))
            responsible))

  set_nodes_empty :
      (ready : Bool) (c : ConsistentHash R) (t : String)
      → c.pod_name ≢ ""
      → contains (get_responsible_keys hr (set_nodes hr ready [] c).0) t ≡ false
  set_nodes_empty ready c t named =
      let c' = (set_nodes hr ready [] c).0 in
      let named' : c'.pod_name ≢ "" = λ e. named (sym (set_nodes-pod_name ready [] c) ∙ e) in
      elim (Bool-cases (contains (get_responsible_keys hr c') t)) [
        | inl held ↦ cc (
          IsInSync-responsible c' t (set_nodes-IsInSync ready [] c) named' held,
          set_nodes-nobody ready c c'.pod_name,
        )
        | inr free ↦ free
      ]

  -- If the ring answers only with its nodes and the nodes cannot be listed, `refresh` leaves a pod
  -- with a name responsible for no type.
  pub refresh_fails :
      {W : Type 0} (rg : Registry W) (ready : Bool) (c : ConsistentHash R) (t : String) (w : W)
      {e : Error}
      → c.pod_name ≢ ""
      → (rg.list_service c.service_name w).0 ≡ err e
      → contains (get_responsible_keys hr (refresh hr rg ready c w).0.0) t ≡ false
  unfolding refresh
  refresh_fails rg ready c t w named failed =
      ground (arith, list_nodes_err rg c.service_name w failed, set_nodes_empty ready c t named)
