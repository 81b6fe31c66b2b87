-- ===== src/Fleet/Following.antt =====
-- How the producer of a pod follows the nodes: internal/component/hash.go offers the new types,
-- the goroutine of its Subscribe passes them on, and the loop of watchResponsibleTypeCh in
-- internal/component/producer.go replaces the types of the producer.
use offlinepush.Base.{
  ◌≡◌, ◌≢◌, refl, sym, ap, ◌∙◌, ◌⊎◌, inl, inr, List, [], ◌∷◌, String, Option, none, some, Bool,
  true, false,
}
use offlinepush.Registry.{Event, EventType}
use offlinepush.ConsistentHash.{
  HashRing, ConsistentHash, get_responsible_keys, on_event, on_type, on_add_node, on_del_node,
  on_set_nodes, set_nodes,
}
use offlinepush.Forward.{
  Place, Forward, running, waiting, ended, sending, arrives, turns, receives, act, is_waiting,
  offer, turn, deliver, subscribed,
}
use offlinepush.Fleet.{Producer, new_producer, on_types}

-- A pod: its consistent hash, the goroutine that passes its types on, and its producer.
pub record Pod (R : Type 0) : Type 0 where
  pub hasher : ConsistentHash R
  pub keys : Forward (List String)
  pub producer : Producer

-- What happens in a pod: an event of the registry, the later listing of the nodes, the goroutine
-- comes to its select, the producer receives.
pub data PodAct : Type 0 where
  sees : Event → PodAct
  relists : List String → PodAct
  comes_round receives_types : PodAct

abbrev pub start_pod : {R : Type 0} → HashRing R → ConsistentHash R → Pod R
start_pod hr c = record { hasher = c; keys = subscribed; producer = new_producer hr c }

abbrev pub hand_over : Option (List String) → Forward (List String) → Forward (List String)
hand_over none s = s
hand_over (some ks) s = act (arrives ks) s

-- `case types := <-ch: p.responsibleTypes = types`
abbrev pub take_types : Place (List String) → Producer → Producer
take_types (sending ks) p = on_types ks p
take_types running p = p
take_types waiting p = p
take_types ended p = p

waiting_place : {A : Type 0} (place : Place A) → is_waiting place ≡ true → place ≡ waiting
waiting_place waiting h = refl
waiting_place running h = cc
waiting_place (sending x) h = cc
waiting_place ended h = cc

not_waiting : {A : Type 0} (place : Place A) → is_waiting place ≡ false → place ≢ waiting
not_waiting place h at = cc

module _ {R : Type 0} (hr : HashRing R) where
  abbrev pub change : ConsistentHash R × Option (List String) → Pod R → Pod R
  change (c, ks) p = record p { hasher = c; keys = hand_over ks p.keys }

  -- What the consistent hash does at an event or a listing, and what it hands over.
  unfoldable pub changed :
      PodAct → Bool → ConsistentHash R → ConsistentHash R × Option (List String)
  changed (sees e) ready c = on_event hr ready e c
  changed (relists ns) ready c = set_nodes hr ready ns c
  changed comes_round ready c = (c, none)
  changed receives_types ready c = (c, none)

  unfoldable pub pod_act : PodAct → Pod R → Pod R
  unfolding changed
  pod_act (sees e) p = change (changed (sees e) (is_waiting p.keys.place) p.hasher) p
  pod_act (relists ns) p = change (changed (relists ns) (is_waiting p.keys.place) p.hasher) p
  pod_act comes_round p = record p { keys = act turns p.keys }
  pod_act receives_types p = record p {
    keys = act receives p.keys;
    producer = take_types p.keys.place p.producer;
  }

  unfoldable pub pod_acts : List PodAct → Pod R → Pod R
  pod_acts [] p = p
  pod_acts (a ∷ rest) p = pod_acts rest (pod_act a p)

  -- The producer has the types of the consistent hash, or they are on their way to it.
  abbrev pub AreCurrent : Place (List String) → Pod R → Type 0
  AreCurrent (sending ks) p = ks ≡ get_responsible_keys hr p.hasher
  AreCurrent running p = p.producer.responsible_types ≡ get_responsible_keys hr p.hasher
  AreCurrent waiting p = p.producer.responsible_types ≡ get_responsible_keys hr p.hasher
  AreCurrent ended p = p.producer.responsible_types ≡ get_responsible_keys hr p.hasher

  abbrev pub IsCurrent : Pod R → Type 0
  IsCurrent p = AreCurrent p.keys.place p

  -- The goroutine waits, or the types stay the same.
  abbrev pub IsOnTime : PodAct → Pod R → Type 0
  IsOnTime a p =
      (p.keys.place ≡ waiting)
      ⊎ (get_responsible_keys hr (changed a (is_waiting p.keys.place) p.hasher).0
          ≡ get_responsible_keys hr p.hasher)

  abbrev pub AreOnTime : List PodAct → Pod R → Type 0
  AreOnTime [] p = Unit
  AreOnTime (a ∷ rest) p = IsOnTime a p × AreOnTime rest (pod_act a p)

  -- What a change hands over to a goroutine that waits is what the pod is now responsible for; it
  -- hands over nothing if nothing has changed, or if no goroutine waits.
  type-offers :
      (type : EventType) (name : String) (c : ConsistentHash R)
      → ((on_type hr type true name c).1
          ≡ some (get_responsible_keys hr (on_type hr type true name c).0))
        ⊎ (on_type hr type true name c ≡ (c, none))
  unfolding on_type on_add_node on_del_node get_responsible_keys
  type-offers EventType.put name c = inl refl
  type-offers EventType.delete name c = inl refl
  type-offers EventType.update name c = inr refl
  type-offers EventType.unknown name c = inr refl

  changed-offers :
      (a : PodAct) (c : ConsistentHash R)
      → ((changed a true c).1 ≡ some (get_responsible_keys hr (changed a true c).0))
        ⊎ (changed a true c ≡ (c, none))
  unfolding changed on_event set_nodes on_set_nodes get_responsible_keys
  changed-offers (sees e) c = type-offers e.type e.ins.address c
  changed-offers (relists ns) c = inl refl
  changed-offers comes_round c = inr refl
  changed-offers receives_types c = inr refl

  type-drops :
      (type : EventType) (name : String) (c : ConsistentHash R)
      → (on_type hr type false name c).1 ≡ none
  unfolding on_type on_add_node on_del_node
  type-drops EventType.put name c = refl
  type-drops EventType.delete name c = refl
  type-drops EventType.update name c = refl
  type-drops EventType.unknown name c = refl

  changed-drops : (a : PodAct) (c : ConsistentHash R) → (changed a false c).1 ≡ none
  unfolding changed on_event set_nodes on_set_nodes
  changed-drops (sees e) c = type-drops e.type e.ins.address c
  changed-drops (relists ns) c = refl
  changed-drops comes_round c = refl
  changed-drops receives_types c = refl

  moved_hasher :
      (place : Place (List String)) (p : Pod R) (c : ConsistentHash R)
      (keys : Forward (List String))
      → get_responsible_keys hr c ≡ get_responsible_keys hr p.hasher
      → AreCurrent place p
      → AreCurrent place (record p { hasher = c; keys = keys })
  moved_hasher (sending ks) p c keys same now = now ∙ sym same
  moved_hasher running p c keys same now = now ∙ sym same
  moved_hasher waiting p c keys same now = now ∙ sym same
  moved_hasher ended p c keys same now = now ∙ sym same

  nothing_offered :
      (r : ConsistentHash R × Option (List String)) (p : Pod R)
      → r.1 ≡ none
      → get_responsible_keys hr r.0 ≡ get_responsible_keys hr p.hasher
      → IsCurrent p
      → IsCurrent (change r p)
  nothing_offered (c, ks) p nothing same now =
      rw nothing (moved_hasher p.keys.place p c p.keys same now)

  keys_taken :
      (r : ConsistentHash R × Option (List String)) (p : Pod R)
      → p.keys.place ≡ waiting
      → r.1 ≡ some (get_responsible_keys hr r.0)
      → IsCurrent (change r p)
  unfolding act offer
  keys_taken (c, ks) p at offered = rw (offered, at) refl

  change-IsCurrent :
      (b : Bool) (a : PodAct) (p : Pod R)
      → is_waiting p.keys.place ≡ b
      → IsOnTime a p
      → IsCurrent p
      → IsCurrent (change (changed a b p.hasher) p)
  change-IsCurrent true a p ready h now = elim (changed-offers a p.hasher) [
    | inl offered ↦
        keys_taken (changed a true p.hasher) p (waiting_place p.keys.place ready) offered
    | inr same ↦
        nothing_offered (changed a true p.hasher) p (ap (λ r. r.1) same)
          (ap (λ r. get_responsible_keys hr r.0) same) now
  ]
  change-IsCurrent false a p busy h now = elim h [
    | inl waits ↦ absurd (not_waiting p.keys.place busy waits)
    | inr same ↦
        nothing_offered (changed a false p.hasher) p (changed-drops a p.hasher) (rw busy at same)
          now
  ]

  receive-IsCurrent :
      (place : Place (List String)) (p : Pod R)
      → p.keys.place ≡ place
      → AreCurrent place p
      → AreCurrent
          (deliver place p.keys).place
          (record p { keys = deliver place p.keys; producer = take_types place p.producer })
  unfolding deliver
  receive-IsCurrent (sending ks) p at now = now
  receive-IsCurrent running p at now = rw at now
  receive-IsCurrent waiting p at now = rw at now
  receive-IsCurrent ended p at now = rw at now

  turn-IsCurrent :
      (place : Place (List String)) (p : Pod R)
      → p.keys.place ≡ place
      → AreCurrent place p
      → AreCurrent (turn place p.keys).place (record p { keys = turn place p.keys })
  unfolding turn
  turn-IsCurrent (sending ks) p at now = rw at now
  turn-IsCurrent running p at now = now
  turn-IsCurrent waiting p at now = rw at now
  turn-IsCurrent ended p at now = rw at now

  pod_act-IsCurrent :
      (a : PodAct) (p : Pod R) → IsOnTime a p → IsCurrent p → IsCurrent (pod_act a p)
  unfolding pod_act act
  pod_act-IsCurrent (sees e) p h now =
      change-IsCurrent (is_waiting p.keys.place) (sees e) p refl h now
  pod_act-IsCurrent (relists ns) p h now =
      change-IsCurrent (is_waiting p.keys.place) (relists ns) p refl h now
  pod_act-IsCurrent comes_round p h now = turn-IsCurrent p.keys.place p refl now
  pod_act-IsCurrent receives_types p h now = receive-IsCurrent p.keys.place p refl now

  pod_acts-IsCurrent :
      (todo : List PodAct) (p : Pod R)
      → AreOnTime todo p
      → IsCurrent p
      → IsCurrent (pod_acts todo p)
  unfolding pod_acts
  pod_acts-IsCurrent [] p h now = now
  pod_acts-IsCurrent (a ∷ rest) p (h, hs) now =
      pod_acts-IsCurrent rest (pod_act a p) hs (pod_act-IsCurrent a p h now)

  -- Whatever events a new pod sees and however its goroutines take turns: if each change of the
  -- pod's types finds the goroutine of `Subscribe` waiting, then at any time the producer works with
  -- the types that the consistent hash now gives the pod, or exactly these are on their way to it.
  pub producer_follows :
      (c : ConsistentHash R) (todo : List PodAct)
      → AreOnTime todo (start_pod hr c)
      → IsCurrent (pod_acts todo (start_pod hr c))
  unfolding new_producer
  producer_follows c todo h = pod_acts-IsCurrent todo (start_pod hr c) h refl
