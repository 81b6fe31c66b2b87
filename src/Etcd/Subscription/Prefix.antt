-- ===== src/Etcd/Subscription/Prefix.antt =====
-- What a reader of a subscription has got, at any time, of the events that were reported.
use offlinepush.Base.{
  ◌≡◌, ◌⊎◌, refl, sym, ap, ◌∙◌, List, [], ◌∷◌, ◌++◌, Bool, true, false, All, append-nil,
  append_assoc, Bool-cases, inl, inr, Option-cases, All-append,
}
use offlinepush.Json.{Codec}
use offlinepush.Registry.{ServiceInstance, Event}
use offlinepush.Etcd.{WatchResponse, subscribe}
use offlinepush.Etcd.Subscription.{
  Watch, events_of, on_response, after_response, send_event, cancel, quit, Step, responds, sends,
  cancels, quits, Reach, here, next,
}

abbrev pub IsLive : WatchResponse → Type 0
IsLive r = r.canceled ≡ false

module _ (codec : Codec ServiceInstance) where
  subscribe-cons :
      (r : WatchResponse) (rs : List WatchResponse)
      → IsLive r
      → subscribe codec (r ∷ rs) ≡ events_of codec r.failure r.events ++ subscribe codec rs
  unfolding subscribe events_of
  subscribe-cons r rs live = elim (Option-cases r.failure) [
    | inl fine ↦ rw (live, fine) refl
    | inr (e, failed) ↦ rw (live, failed) refl
  ]

  subscribe_canceled :
      (r : WatchResponse) (rs : List WatchResponse)
      → r.canceled ≡ true
      → subscribe codec (r ∷ rs) ≡ []
  unfolding subscribe
  subscribe_canceled r rs gone = rw gone refl

  subscribe-live :
      (rs ss : List WatchResponse)
      → All IsLive rs
      → subscribe codec (rs ++ ss) ≡ subscribe codec rs ++ subscribe codec ss
  unfolding subscribe
  subscribe-live [] ss h = refl
  subscribe-live (r ∷ rs) ss (live, h) =
      let events = events_of codec r.failure r.events in
      subscribe-cons r (rs ++ ss) live
      ∙ (ap (λ l. events ++ l) (subscribe-live rs ss h)
          ∙ (sym (append_assoc events (subscribe codec rs) (subscribe codec ss))
              ∙ ap (λ l. l ++ subscribe codec ss) (sym (subscribe-cons r rs live))))

  -- Of the events reported, those that the reader got come first, then those in the queue; while
  -- the goroutine runs there are no others.
  record IsPart (w : Watch) : Type 0 where
    lost : List Event
    whole : w.got ++ (w.queue ++ lost) ≡ subscribe codec w.read
    all_queued : w.ended ≡ false → lost ≡ []
    live : w.ended ≡ false → All IsLive w.read

  respond-IsPart :
      (b : Bool) (r : WatchResponse) (w : Watch)
      → r.canceled ≡ b
      → w.ended ≡ false
      → w.queue ≡ []
      → IsPart w
      → IsPart (after_response b codec r w)
  unfolding after_response subscribe
  respond-IsPart true r w at runs empty h =
      let ends : subscribe codec (w.read ++ r ∷ []) ≡ subscribe codec w.read =
        subscribe-live w.read (r ∷ []) (h.live runs)
        ∙ (ap (λ l. subscribe codec w.read ++ l) (subscribe_canceled r [] at)
            ∙ append-nil (subscribe codec w.read)) in
      record { lost = h.lost; whole = h.whole ∙ sym ends; all_queued = λ e. cc; live = λ e. cc }
  respond-IsPart false r w at runs empty h =
      let events = events_of codec r.failure r.events in
      let before : w.got ≡ subscribe codec w.read =
        sym (append-nil w.got) ∙ rw (empty, h.all_queued runs) at h.whole in
      let more : subscribe codec (w.read ++ r ∷ []) ≡ subscribe codec w.read ++ (events ++ []) =
        subscribe-live w.read (r ∷ []) (h.live runs)
        ∙ ap (λ l. subscribe codec w.read ++ l) (subscribe-cons r [] at) in
      record {
        lost = [];
        whole = ap (λ l. l ++ (events ++ [])) before ∙ sym more;
        all_queued = λ e. refl;
        live = λ e. All-append IsLive w.read (r ∷ []) (h.live runs) (at, tt);
      }

  Step-IsPart : {v w : Watch} → IsPart v → Step codec v w → IsPart w
  unfolding send_event cancel quit on_response
  Step-IsPart {v} h (responds r runs empty) = respond-IsPart r.canceled r v refl runs empty h
  Step-IsPart {v} h (sends e {rest} at) = record {
    lost = h.lost;
    whole = append_assoc v.got (e ∷ []) (rest ++ h.lost) ∙ rw at at h.whole;
    all_queued = h.all_queued;
    live = h.live;
  }
  Step-IsPart h cancels = record {
    lost = h.lost;
    whole = h.whole;
    all_queued = h.all_queued;
    live = h.live;
  }
  Step-IsPart {v} h (quits done runs) = record {
    lost = v.queue ++ h.lost;
    whole = h.whole;
    all_queued = λ e. cc;
    live = λ e. cc;
  }

  Reach-IsPart : {w : Watch} → Reach codec w → IsPart w
  unfolding subscribe
  Reach-IsPart here = record { lost = []; whole = refl; all_queued = λ e. refl; live = λ e. tt }
  Reach-IsPart (next r s) = Step-IsPart (Reach-IsPart r) s

  -- At any time the events that the reader of a subscription has got are the first of those that
  -- `subscribe` makes of the responses read so far, in order and without a gap; unless the goroutine
  -- has ended, the ones in its queue are all the others, and it can end as soon as `Close` cancels
  -- the watch, also while its reader takes nothing.
  pub got-subscribe :
      (w : Watch)
      → Reach codec w
      → (lost : List Event) × (w.got ++ (w.queue ++ lost) ≡ subscribe codec w.read)
        × ((w.ended ≡ true) ⊎ ((lost ≡ []) × Step codec (cancel w) (quit (cancel w))))
  unfolding cancel
  got-subscribe w r =
      let h = Reach-IsPart r in
      (
        h.lost,
        h.whole,
        elim (Bool-cases w.ended) [
          | inl over ↦ inl over
          | inr runs ↦ inr (h.all_queued runs, quits refl runs)
        ],
      )
