-- ===== src/Pusher/Throttled.antt =====
-- The rate-limited pusher with the sliding window of pkg/ratelimit: one set of redis for each service,
-- whose calls come in different milliseconds.
pub mod Pushes
use mathlib.Core.Option
use mathlib.Core.Path.{subst}
use offlinepush.Base.{
  ℕ, zero, suc, ◌+◌, ◌%◌, ◌≤◌, ◌<◌, ◌≡◌, refl, sym, ap, ◌∙◌, ◌⊎◌, inl, inr, List, [], ◌∷◌, String,
  Option, none, some, Bool, true, false, ◌=ₛ◌, length, get_elem?, set, leb, eq_iff, arith,
  Bool-cases, Option-cases, if◌then◌else◌,
}
use offlinepush.Base.Dict.{Dict, lookup, insert, lookup-insert}
use offlinepush.Base.Result.{Error}
use offlinepush.Domain.{Message}
use offlinepush.RateLimit.{SlidingWindowLimiter, remove_expired, limit, limit_call}
use offlinepush.RateLimit.Reference.{
  Follows, limited_alike, kept-Follows, entered-Follows, limit_room, limit_full, Follows-later,
  within,
}
use offlinepush.RateLimit.Rate.{in_stretch, FoundRoom, FoundRoom-stretch}
use offlinepush.Pusher.RateLimited.{push_next, push_delivered, Attempt-cases}
use offlinepush.Pusher.{
  FailoverPusher, Attempt, delivered, next, PushOutcome, returned, panicked, on_answer, push,
  after_push, after_limit, attempt, push_rounds, push_limited,
}

-- Redis and the providers: the time of the last call of the limiter, whether it failed, and how many
-- have failed; the set of each service; the messages that reached a provider, each with the time at
-- which it was let through, the last first: those that the script admitted, and apart from them
-- those whose call of the limiter failed.
pub record Gate (P : Type 0) : Type 0 where
  pub clock : ℕ
  pub sets : Dict (List ℕ)
  pub is_failed : Bool
  pub failures : ℕ
  pub log : List (String × ℕ)
  pub unlimited : List (String × ℕ)
  pub providers : P

abbrev pub set_of : {P : Type 0} → String → Gate P → List ℕ
set_of name g = Option.get_or (lookup name g.sets) []

abbrev pub times_of : String → List (String × ℕ) → List ℕ
times_of name [] = []
times_of name ((n, t) ∷ log) = if n =ₛ name then t ∷ times_of name log else times_of name log

-- A message that reaches a provider.
abbrev pub noted : {P : Type 0} → Bool → String × ℕ → Gate P → Gate P
noted true x g = record g { unlimited = x ∷ g.unlimited }
noted false x g = record g { log = x ∷ g.log }

module _ {P : Type 0} (r : SlidingWindowLimiter) (gap : Gate P → ℕ) (fault : Gate P → Option Error)
    (provider : String → Message → P → Option Error × P) where
  abbrev pub now_of : Gate P → ℕ
  now_of g = suc (g.clock + gap g)

  abbrev pub counted : Option Error → Gate P → Gate P
  counted none g = record g { is_failed = false }
  counted (some e) g = record g { is_failed = true; failures = suc g.failures }

  unfoldable pub limit_as : Option Error → String → Gate P → (Bool × Option Error) × Gate P
  unfolding limit_call
  limit_as o name g =
      let (answer, ss) = limit_call r o (now_of g) (set_of name g) in
      (answer, record (counted o g) { clock = now_of g; sets = insert name ss g.sets })

  abbrev pub limit_gate : String → Gate P → (Bool × Option Error) × Gate P
  limit_gate name g = limit_as (fault g) name g

  abbrev pub provide : String → Message → Gate P → Option Error × Gate P
  provide name msg g =
      let (e, p) = provider name msg g.providers in
      (e, noted g.is_failed (name, g.clock) (record g { providers = p }))

  -- For each service, its set has the unexpired times of the messages that reached its provider, and
  -- each of them found room; and no more messages than failures went without.
  pub record IsThrottled (g : Gate P) : Type 0 where
    pub follows :
        (name : String) (now : ℕ)
        → g.clock < now
        → Follows r.interval now (set_of name g) (times_of name g.log)
    pub room : (name : String) → FoundRoom r (times_of name g.log)
    pub few : length g.unlimited ≤ g.failures

  set_inserted :
      (name n : String) (ss : List ℕ) (sets : Dict (List ℕ))
      → Option.get_or (lookup n (insert name ss sets)) []
        ≡ (if name =ₛ n then ss else Option.get_or (lookup n sets) [])
  set_inserted name n ss sets = elim (Bool-cases (name =ₛ n)) [
    | inl same ↦ rw (lookup-insert name n ss sets, same) refl
    | inr other ↦ rw (lookup-insert name n ss sets, other) refl
  ]

  module _ (name : String) (g : Gate P) (h : IsThrottled g) where
    pub own : Follows r.interval (now_of g) (set_of name g) (times_of name g.log)
    own = h.follows name (now_of g) (omega arith)

    pub kept : List ℕ
    kept = remove_expired r.interval (now_of g) (set_of name g)

    pub full-IsThrottled : leb r.rate (length kept) ≡ true → IsThrottled (limit_as none name g).1
    unfolding kept limit_as
    full-IsThrottled full = record {
      follows = λ n later less. elim (Bool-cases (name =ₛ n)) [
        | inl same ↦
            rw (set_inserted name n (limit r (now_of g) (set_of name g)).1 g.sets, same)
              (rw (limit_full r (now_of g) (set_of name g) full) (
                subst (λ (k : String). Follows r.interval later kept (times_of k g.log))
                  ((eq_iff name n).0 same)
                  (kept-Follows r (now_of g) later (set_of name g) (times_of name g.log) less own)))
        | inr other ↦
            rw (set_inserted name n (limit r (now_of g) (set_of name g)).1 g.sets, other)
              (h.follows n later (omega arith))
      ];
      room = h.room;
      few = h.few;
    }

    -- Redis has failed, and the message goes through.
    pub failed-IsThrottled :
        (e : Error) (msg : Message) → IsThrottled (provide name msg (limit_as (some e) name g).1).1
    unfolding limit_as
    failed-IsThrottled e msg = record {
      follows = λ n later less. elim (Bool-cases (name =ₛ n)) [
        | inl same ↦
            rw (set_inserted name n (set_of name g) g.sets, same)
              (subst (λ (k : String). Follows r.interval later (set_of name g) (times_of k g.log))
                ((eq_iff name n).0 same) (h.follows name later (omega arith)))
        | inr other ↦
            rw (set_inserted name n (set_of name g) g.sets, other) (h.follows n later (omega arith))
      ];
      room = h.room;
      few = omega (arith, h.few);
    }

    pub has_room :
        leb r.rate (length kept) ≡ false
        → within r.interval (now_of g) (times_of name g.log) < r.rate
    unfolding kept
    has_room open_ =
        let alike = limited_alike r (now_of g) (set_of name g) (times_of name g.log) own in
        ground (arith, alike, open_)

    pub room-IsThrottled :
        (msg : Message)
        → leb r.rate (length kept) ≡ false
        → IsThrottled (provide name msg (limit_as none name g).1).1
    unfolding kept limit_as
    room-IsThrottled msg open_ = record {
      follows = λ n later less. elim (Bool-cases (name =ₛ n)) [
        | inl same ↦
            (let entered =
                entered-Follows r (now_of g) later kept (times_of name g.log) less (
                  kept-Follows r (now_of g) later (set_of name g) (times_of name g.log) less own) in
              rw
                (
                  set_inserted name n (limit r (now_of g) (set_of name g)).1 g.sets,
                  same,
                  limit_room r (now_of g) (set_of name g) own.earlier open_,
                )
                (subst
                  (λ (k : String).
                    Follows r.interval later (now_of g ∷ kept) (now_of g ∷ times_of k g.log))
                  ((eq_iff name n).0 same) entered))
        | inr other ↦
            rw (set_inserted name n (limit r (now_of g) (set_of name g)).1 g.sets, other)
              (h.follows n later (omega arith))
      ];
      room = λ n. elim (Bool-cases (name =ₛ n)) [
        | inl same ↦ rw same (
            subst (λ (k : String). FoundRoom r (now_of g ∷ times_of k g.log))
              ((eq_iff name n).0 same) (has_room open_, h.room name))
        | inr other ↦ rw other (h.room n)
      ];
      few = h.few;
    }
