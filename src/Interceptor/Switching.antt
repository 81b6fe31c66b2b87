-- ===== src/Interceptor/Switching.antt =====
-- The switches after the changes that the registry reports.
use offlinepush.Base.{
  ◌≡◌, ◌≢◌, refl, ap, ◌∙◌, List, [], ◌∷◌, map, String, none, some, Bool, true, false, arith,
  eq_refl, ◌=ₛ◌, Bool-cases, inl, inr, if◌then◌else◌,
}
use offlinepush.Base.Dict.{lookup, insert, lookup-insert}
use offlinepush.Base.Result.{Error, ok, repeated_operation}
use offlinepush.Config.{RegisterConfig}
use offlinepush.Json.{Codec, RoundTrips}
use offlinepush.Registry.{ServiceInstance, Registry, Event, put}
use offlinepush.Interceptor.{
  Pair, Interceptor, marshaled, switch_instance, permit, resume_biz, pause_biz, on_event, on_events,
}

-- A pair of a business and its status can always be encoded.
pub record Encodes (codec : Codec Pair) : Type 0 where
  pub text : (p : Pair) → (s : String) × (codec.marshal p ≡ ok s)

-- The event by which the registry reports a published status.
abbrev pub published : RegisterConfig → Codec Pair → String × Bool → Event
published cfg codec (biz, status) = record {
  type = put;
  ins = switch_instance cfg codec biz status;
}

-- The status of a business after changes, from its status before them.
abbrev pub replay : String → List (String × Bool) → Bool → Bool
replay j [] b = b
replay j ((biz, status) ∷ cs) b = replay j cs (if biz =ₛ j then status else b)

module _ (cfg : RegisterConfig) (codec : Codec Pair) (rt : RoundTrips codec)
    (enc : Encodes codec) where
  on_event-published :
      (biz : String) (status : Bool) (i : Interceptor)
      → on_event codec (published cfg codec (biz, status)) i
        ≡ record i { switches = insert biz status i.switches }
  unfolding on_event marshaled
  on_event-published biz status i =
      let p : Pair = record { biz = biz; status = status } in
      let (s, made) = enc.text p in rw (made, rt.back p s made) refl

  permit-insert :
      (biz j : String) (status : Bool) (i : Interceptor)
      → permit (record i { switches = insert biz status i.switches }) j
        ≡ (if biz =ₛ j then status else permit i j)
  unfolding permit
  permit-insert biz j status i = elim (Bool-cases (biz =ₛ j)) [
    | inl same ↦ rw (lookup-insert biz j, same) refl
    | inr other ↦ rw (lookup-insert biz j, other) refl
  ]

  -- If every status can be encoded and is read back, then after any published changes `Permit`
  -- answers for each business with the status of its last change, and as before for a business
  -- without one.
  pub permit-on_events :
      (changes : List (String × Bool)) (i : Interceptor) (j : String)
      → permit (on_events codec (map (published cfg codec) changes) i) j
        ≡ replay j changes (permit i j)
  unfolding on_events
  permit-on_events [] i j = refl
  permit-on_events ((biz, status) ∷ cs) i j =
      let i' : Interceptor = record i { switches = insert biz status i.switches } in
      ap (λ (x : Interceptor). permit (on_events codec (map (published cfg codec) cs) x) j)
        (on_event-published biz status i)
      ∙ (permit-on_events cs i' j ∙ ap (replay j cs) (permit-insert biz j status i))

  -- If every status can be encoded and is read back, then once the published resume of a business
  -- is reported, whatever it was before, resuming it again is refused as a repeated operation
  -- without a call of the registry, and pausing it asks the registry.
  pub resume_resumed :
      {W : Type 0} (rg : Registry W) (i : Interceptor) (biz : String) (w : W)
      → let i' = on_event codec (published cfg codec (biz, true)) i in
        (resume_biz rg cfg codec i' biz w ≡ (some repeated_operation, w))
        × (pause_biz rg cfg codec i' biz w ≡ rg.register (switch_instance cfg codec biz false) w)
  unfolding resume_biz pause_biz
  resume_resumed rg i biz w =
      let on : lookup biz (insert biz true i.switches) ≡ some true =
        rw (lookup-insert biz biz, eq_refl biz) refl in
      rw (on_event-published biz true i) (rw (on, resume_biz, pause_biz) (refl, refl))

-- The businesses that the interceptor knows.
abbrev pub Knows : Interceptor → String → Type 0
Knows i biz = lookup biz i.switches ≢ none

on_event-Knows :
    (codec : Codec Pair) (e : Event) (i : Interceptor) (biz : String)
    → Knows i biz
    → Knows (on_event codec e i) biz
unfolding on_event
on_event-Knows codec e i biz h =
    let p = (codec.unmarshal e.ins.note).0 in
    ground (arith, lookup-insert p.biz biz p.status i.switches)

-- No event, whatever its note, makes the interceptor forget a business.
pub on_events-Knows :
    (codec : Codec Pair) (es : List Event) (i : Interceptor) (biz : String)
    → Knows i biz
    → Knows (on_events codec es i) biz
unfolding on_events
on_events-Knows codec [] i biz h = h
on_events-Knows codec (e ∷ es) i biz h =
    on_events-Knows codec es (on_event codec e i) biz (on_event-Knows codec e i biz h)

-- A reported put whose note cannot be read, and leaves the pair at its zero value, adds the empty
-- business, switched off: resuming it then asks the registry.
pub unreadable_adds_biz :
    {W : Type 0} (rg : Registry W) (cfg : RegisterConfig) (codec : Codec Pair)
    (ins : ServiceInstance) (i : Interceptor) (w : W) {e : Error}
    → codec.unmarshal ins.note ≡ (record { biz = ""; status = false }, some e)
    → resume_biz rg cfg codec (on_event codec (record { type = put; ins = ins }) i) "" w
      ≡ rg.register (switch_instance cfg codec "" true) w
unfolding resume_biz on_event
unreadable_adds_biz rg cfg codec ins i w bad =
    rw bad (rw (lookup-insert "" "" false i.switches, resume_biz) refl)
