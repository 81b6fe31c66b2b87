-- ===== src/ConsistentHash.antt =====
-- internal/component/hash.go: which device types a pod is responsible for. The hash ring is the
-- parameter `HashRing`, for package hashring.
pub mod Partition
pub mod Membership
pub mod Departure
pub mod Division
pub mod Informed
pub mod Handover
pub mod ListRing
mod Tests
use mathlib.Core.Option
use offlinepush.Base.{
  List, [], ◌∷◌, map, String, Option, none, some, Bool, true, false, ◌=ₛ◌, if◌then◌else◌,
}
use offlinepush.Base.Dict.{Dict, insert, delete, keys}
use offlinepush.Base.Result.{Error, Result, ok, err}
use offlinepush.Registry
use offlinepush.Registry.{ServiceInstance, Registry, Event, EventType}

-- `GetNode` also says whether there is a node; the program reads the name alone.
pub record HashRing (R : Type 0) : Type 0 where
  pub new : List String → R
  pub add_node : String → R → R
  pub remove_node : String → R → R
  pub get_node : String → R → Option String

-- `ConsistentHash` without its channel, its registry and its logger. A set of nodes is a map.
pub record ConsistentHash (R : Type 0) : Type 0 where
  pub service_name : String
  pub pod_name : String
  pub types : List String
  pub ring : R
  pub nodes : Dict (Unit {0})

-- `nodesSet[n] = struct{}{}` for each node
unfoldable pub node_set : List String → Dict (Unit {0}) → Dict (Unit {0})
node_set [] set = set
node_set (n ∷ ns) set = node_set ns (insert n tt set)

-- The select with a default case: the keys are handed over if a receiver waits, and dropped if not.
abbrev pub offer : Bool → List String → Option (List String)
offer true keys = some keys
offer false keys = none

-- The addresses that `listNodes` collects; on an error the list is empty.
unfoldable pub addresses : Result (List ServiceInstance) → List String × Option Error
addresses (ok instances) = (map (λ (ins : ServiceInstance). ins.address) instances, none)
addresses (err e) = ([], some e)

unfoldable pub list_nodes :
    {W : Type 0} → Registry W → String → W → (List String × Option Error) × W
unfolding addresses
list_nodes rg service_name w =
    let (instances, w') = rg.list_service service_name w in (addresses instances, w')

-- The later of two handovers, if there was one.
abbrev pub newest : Option (List String) → Option (List String) → Option (List String)
newest none earlier = earlier
newest (some keys) earlier = some keys

-- `getNodes`, which no code calls
abbrev pub get_nodes : {R : Type 0} → ConsistentHash R → List String
get_nodes c = keys c.nodes

module _ {R : Type 0} (hr : HashRing R) where
  -- the node of a type, and "" where the ring has none
  unfoldable pub owner : R → String → String
  owner ring t = Option.get_or (hr.get_node t ring) ""

  -- the loop of `hash`
  unfoldable pub select_types : R → String → List String → List String
  unfolding owner
  select_types ring pod [] = []
  select_types ring pod (t ∷ ts) =
      let rest = select_types ring pod ts in if owner ring t =ₛ pod then t ∷ rest else rest

  unfoldable pub hash : ConsistentHash R → String → List String
  hash c pod = select_types c.ring pod c.types

  unfoldable pub get_responsible_keys : ConsistentHash R → List String
  unfolding hash
  get_responsible_keys c = hash c c.pod_name

  -- The handlers return the new state and what they handed to a receiver; `ready` says whether one
  -- waits.
  unfoldable pub on_add_node :
      Bool → String → ConsistentHash R → ConsistentHash R × Option (List String)
  on_add_node ready name c =
      let c' = record c { nodes = insert name tt c.nodes; ring = hr.add_node name c.ring } in
      (c', offer ready (hash c' c'.pod_name))

  unfoldable pub on_del_node :
      Bool → String → ConsistentHash R → ConsistentHash R × Option (List String)
  on_del_node ready name c =
      let c' = record c { nodes = delete name c.nodes; ring = hr.remove_node name c.ring } in
      (c', offer ready (hash c' c'.pod_name))

  unfoldable pub on_set_nodes :
      Bool → List String → ConsistentHash R → ConsistentHash R × Option (List String)
  on_set_nodes ready ns c =
      let c' = record c { ring = hr.new ns } in (c', offer ready (hash c' c'.pod_name))

  unfoldable pub set_nodes :
      Bool → List String → ConsistentHash R → ConsistentHash R × Option (List String)
  unfolding on_set_nodes node_set
  set_nodes ready ns c = on_set_nodes ready ns (record c { nodes = node_set ns [] })

  -- `watchNodes` for one event: the switch on its type, and the event.
  unfoldable pub on_type :
      EventType → Bool → String → ConsistentHash R → ConsistentHash R × Option (List String)
  unfolding on_add_node on_del_node
  on_type EventType.put ready name c = on_add_node ready name c
  on_type EventType.delete ready name c = on_del_node ready name c
  on_type EventType.update ready name c = (c, none)
  on_type EventType.unknown ready name c = (c, none)

  unfoldable pub on_event :
      Bool → Event → ConsistentHash R → ConsistentHash R × Option (List String)
  unfolding on_type
  on_event ready e c = on_type e.type ready e.ins.address c

  -- The state after events, and the last keys that a receiver got, if any.
  unfoldable pub on_events :
      List (Bool × Event) → ConsistentHash R → ConsistentHash R × Option (List String)
  on_events [] c = (c, none)
  on_events ((ready, e) ∷ es) c =
      let (c', keys) = on_event ready e c in
      let (c'', later) = on_events es c' in (c'', newest later keys)

  -- `NewConsistentHash` before `setNodes`.
  abbrev pub before_nodes : String → String → List String → List String → ConsistentHash R
  before_nodes service_name pod_name types ns = record {
    service_name = service_name;
    pod_name = pod_name;
    types = types;
    ring = hr.new ns;
    nodes = [];
  }

  -- The rest of it, after the nodes are listed, or fail to be: then it panics. No receiver waits yet.
  unfoldable pub start :
      String → String → List String → List String × Option Error → Option (ConsistentHash R)
  unfolding set_nodes
  start service_name pod_name types (ns, some e) = none
  start service_name pod_name types (ns, none) =
      some (set_nodes false ns (before_nodes service_name pod_name types ns)).0

  module _ {W : Type 0} (rg : Registry W) where
    unfoldable pub new_consistent_hash :
        String → String → List String → W → Option (ConsistentHash R) × W
    unfolding list_nodes start
    new_consistent_hash service_name pod_name types w =
        let (listed, w') = list_nodes rg service_name w in
        (start service_name pod_name types listed, w')

    -- The function that runs once, two minutes later: an error is logged, and the list is used.
    unfoldable pub refresh :
        Bool → ConsistentHash R → W → (ConsistentHash R × Option (List String)) × W
    unfolding list_nodes set_nodes
    refresh ready c w =
        let ((ns, e), w') = list_nodes rg c.service_name w in (set_nodes ready ns c, w')
