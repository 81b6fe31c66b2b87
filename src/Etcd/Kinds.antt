-- ===== src/Etcd/Kinds.antt =====
-- What can come over a channel of `Subscribe`.
use mathlib.Core.List.{Memᴰ}
use offlinepush.Base.{
  ◌++◌, ◌≡◌, refl, ◌⊎◌, inl, inr, List, [], ◌∷◌, Option, none, some, All, All-append, Bool-cases,
  Option-cases,
}
use offlinepush.Base.Result.{Error}
use offlinepush.Json.{Codec}
use offlinepush.Registry.{EventType, ServiceInstance, put, delete, unknown, Event, no_instance}
use offlinepush.Etcd.{
  WatchType, mvcc_put, mvcc_delete, WatchEvent, WatchResponse, types_map, decoded, convert,
  convert_all, subscribe,
}

-- `registry.Event{}`
abbrev pub zero_event : Event
zero_event = record { type = unknown; ins = no_instance }

-- The events that etcd reports.
abbrev pub all_reported : List WatchResponse → List WatchEvent
all_reported [] = []
all_reported (r ∷ rs) = r.events ++ all_reported rs

-- The type that etcd reported, in the registry's words.
abbrev pub SameType : WatchType → EventType → Type 0
SameType t type = ((t ≡ mvcc_put) × (type ≡ put)) ⊎ ((t ≡ mvcc_delete) × (type ≡ delete))

-- The zero event, or one that was made of a reported event: of its type, with the instance that its
-- value was read into.
abbrev pub IsSent : Codec ServiceInstance → List WatchEvent → Event → Type 0
IsSent codec ws e =
    (e ≡ zero_event)
    ⊎ ((w : WatchEvent) × Memᴰ w ws
        × (codec.unmarshal w.value ≡ (e.ins, none))
        × SameType w.type e.type)

mem_left : (w : WatchEvent) (xs ys : List WatchEvent) → Memᴰ w xs → Memᴰ w (xs ++ ys)
mem_left w [] ys m = elim m [ ]
mem_left w (x ∷ xs) ys (Memᴰ.head same) = Memᴰ.head same
mem_left w (x ∷ xs) ys (Memᴰ.tail m) = Memᴰ.tail (mem_left w xs ys m)

mem_right : (w : WatchEvent) (xs ys : List WatchEvent) → Memᴰ w ys → Memᴰ w (xs ++ ys)
mem_right w [] ys m = m
mem_right w (x ∷ xs) ys m = Memᴰ.tail (mem_right w xs ys m)

module _ (codec : Codec ServiceInstance) (ws : List WatchEvent) where
  decoded-IsSent :
      (w : WatchEvent) (type : WatchType) (r : ServiceInstance × Option Error)
      → Memᴰ w ws
      → w.type ≡ type
      → codec.unmarshal w.value ≡ r
      → IsSent codec ws (decoded type r)
  unfolding decoded types_map
  decoded-IsSent w type (ins, some e) m is read = inl refl
  decoded-IsSent w mvcc_put (ins, none) m is read = inr (w, m, read, inl (is, refl))
  decoded-IsSent w mvcc_delete (ins, none) m is read = inr (w, m, read, inr (is, refl))

  convert_all-IsSent :
      (es : List WatchEvent)
      → ((w : WatchEvent) → Memᴰ w es → Memᴰ w ws)
      → All (IsSent codec ws) (convert_all codec es)
  unfolding convert_all convert
  convert_all-IsSent [] among = tt
  convert_all-IsSent (e ∷ es) among = (
    decoded-IsSent e e.type (codec.unmarshal e.value) (among e (Memᴰ.head refl)) refl refl,
    convert_all-IsSent es (λ w m. among w (Memᴰ.tail m)),
  )

  subscribe-among :
      (rs : List WatchResponse)
      → ((w : WatchEvent) → Memᴰ w (all_reported rs) → Memᴰ w ws)
      → All (IsSent codec ws) (subscribe codec rs)
  unfolding subscribe
  subscribe-among [] among = tt
  subscribe-among (r ∷ rs) among =
      let later = subscribe-among rs (λ w m. among w (mem_right w r.events (all_reported rs) m)) in
      elim (Bool-cases r.canceled) [
        | inl over ↦ rw over tt
        | inr more ↦ elim (Option-cases r.failure) [
          | inl fine ↦
              rw (more, fine)
                (All-append (IsSent codec ws) (convert_all codec r.events) (subscribe codec rs)
                  (convert_all-IsSent r.events
                    (λ w m. among w (mem_left w r.events (all_reported rs) m)))
                  later)
          | inr (e, is) ↦ rw (more, is) later
        ]
      ]

-- Whatever etcd reports, each event on a channel of `Subscribe` is the zero event, which the
-- handlers that look at the type pass over, or it was made of one of the reported events: it is a
-- put where etcd reported a put and a delete where it reported a delete, and its instance was read
-- without an error from the text of this event. An update never comes, nor a put or a delete whose
-- text could not be read.
pub subscribe-IsSent :
    (codec : Codec ServiceInstance) (rs : List WatchResponse)
    → All (IsSent codec (all_reported rs)) (subscribe codec rs)
subscribe-IsSent codec rs = subscribe-among codec (all_reported rs) rs (λ w m. m)
