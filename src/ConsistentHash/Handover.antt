-- ===== src/ConsistentHash/Handover.antt =====
-- When the producer learns of a change of its device types, and when it does not.
use offlinepush.Base.{
  ◌≡◌, refl, sym, ap, ◌∙◌, ◌⊎◌, inl, inr, List, [], ◌∷◌, ◌++◌, String, Option, none, some, Bool,
  true, false,
}
use offlinepush.Registry.{Event, EventType, put, delete}
use offlinepush.ConsistentHash.{
  HashRing, ConsistentHash, get_responsible_keys, offer, newest, on_add_node, on_del_node, on_type,
  on_event, on_events,
}

newest_assoc : (a b c : Option (List String)) → newest a (newest b c) ≡ newest (newest a b) c
newest_assoc none b c = refl
newest_assoc (some ks) b c = refl

newest-none : (a : Option (List String)) → newest a none ≡ a
newest-none none = refl
newest-none (some ks) = refl

module _ {R : Type 0} (hr : HashRing R) where
  on_events-append :
      (es fs : List (Bool × Event)) (c : ConsistentHash R)
      → let one = on_events hr es c in
        let two = on_events hr fs one.0 in on_events hr (es ++ fs) c ≡ (two.0, newest two.1 one.1)
  unfolding on_events
  on_events-append [] fs c =
      ap (λ (k : Option (List String)). ((on_events hr fs c).0, k)) (sym (newest-none _))
  on_events-append ((ready, e) ∷ es) fs c =
      let first = on_event hr ready e c in
      let one = on_events hr es first.0 in
      let two = on_events hr fs one.0 in
      ap (λ (x : ConsistentHash R × Option (List String)). (x.0, newest x.1 first.1))
        (on_events-append es fs first.0)
      ∙ ap (λ (k : Option (List String)). (two.0, k)) (sym (newest_assoc two.1 one.1 first.1))

  on_events-last :
      (es : List (Bool × Event)) (ready : Bool) (e : Event) (c : ConsistentHash R)
      → let d = on_events hr es c in
        let last = on_type hr e.type ready e.ins.address d.0 in
        on_events hr (es ++ (ready, e) ∷ []) c ≡ (last.0, newest last.1 d.1)
  unfolding on_events on_event
  on_events-last es ready e c = on_events-append es ((ready, e) ∷ []) c

  on_type-offers :
      (type : EventType) (ready : Bool) (name : String) (c : ConsistentHash R)
      → (type ≡ put) ⊎ (type ≡ delete)
      → (on_type hr type ready name c).1
        ≡ offer ready (get_responsible_keys hr (on_type hr type ready name c).0)
  unfolding on_type on_add_node on_del_node get_responsible_keys
  on_type-offers EventType.put ready name c h = refl
  on_type-offers EventType.delete ready name c h = refl
  on_type-offers EventType.unknown ready name c (inl h) = cc
  on_type-offers EventType.unknown ready name c (inr h) = cc
  on_type-offers EventType.update ready name c (inl h) = cc
  on_type-offers EventType.update ready name c (inr h) = cc

  -- If a node joins or leaves while a receiver waits, the receiver has after that the types that the
  -- pod is now responsible for; if none waits, the last types handed over are those from before the
  -- event, whether or not the pod's types have changed.
  pub on_events-handover :
      (es : List (Bool × Event)) (e : Event) (c : ConsistentHash R)
      → (e.type ≡ put) ⊎ (e.type ≡ delete)
      → ((on_events hr (es ++ (true, e) ∷ []) c).1
          ≡ some (get_responsible_keys hr (on_events hr (es ++ (true, e) ∷ []) c).0))
        × ((on_events hr (es ++ (false, e) ∷ []) c).1 ≡ (on_events hr es c).1)
  on_events-handover es e c h =
      let d = (on_events hr es c).0 in
      let waiting = on_events-last es true e c in
      let offered = on_type-offers e.type true e.ins.address d h in
      let missed = on_type-offers e.type false e.ins.address d h in
      (
        ap (λ (x : ConsistentHash R × Option (List String)). x.1) waiting
            ∙ (ap (λ (k : Option (List String)). newest k (on_events hr es c).1) offered
                ∙ ap
                    (λ (x : ConsistentHash R × Option (List String)).
                      some (get_responsible_keys hr x.0))
                    (sym waiting)),
        ap (λ (x : ConsistentHash R × Option (List String)). x.1) (on_events-last es false e c)
            ∙ ap (λ (k : Option (List String)). newest k (on_events hr es c).1) missed,
      )
