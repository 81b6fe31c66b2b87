-- ===== src/Pusher/RateLimited.antt =====
-- The ten rounds of `RateLimitPusher.Push`, whatever the limiter and the providers do.
use offlinepush.Base.{
  ℕ, zero, suc, ◌+◌, ◌%◌, ◌≤◌, ◌<◌, ◌≡◌, refl, ◌∙◌, ◌⊎◌, inl, inr, List, String, Option, none, some,
  Bool, false, length, length-set, get_elem?, set, get_elem?-lt, set-get_elem?, get_elem?-set_ne,
  All, All-get_elem?, arith,
}
use offlinepush.Base.Result.{Error, pusher_error}
use offlinepush.Domain.{Message}
use offlinepush.Pusher.{
  FailoverPusher, Attempt, delivered, next, PushOutcome, returned, attempt, push_rounds,
  push_limited,
}

-- `Push` returns: nil or PusherError, with as many services, and none changed from index k on.
abbrev pub Settles : {W : Type 0} → ℕ → List FailoverPusher → PushOutcome W → Type 0
Settles {W} k svcs o =
    (e : Option Error) × (svcs' : List FailoverPusher) × (w' : W) × (o ≡ returned e svcs' w')
    × ((e ≡ none) ⊎ (e ≡ some pusher_error))
    × (length svcs' ≡ length svcs)
    × ((i : ℕ) → k ≤ i → get_elem? svcs' i ≡ get_elem? svcs i)

module _ {W : Type 0} (limit : String → W → (Bool × Option Error) × W)
    (provider : String → Message → W → Option Error × W) where
  Settles-set :
      (k i : ℕ) (svcs : List FailoverPusher) (f : FailoverPusher) (o : PushOutcome W)
      → i < k
      → Settles k (set svcs i f) o
      → Settles k svcs o
  Settles-set k i svcs f o h (e, svcs', w', is, res, len, kept) = (
    e,
    svcs',
    w',
    is,
    res,
    len ∙ length-set svcs i f,
    λ j hj. kept j hj ∙ get_elem?-set_ne svcs i j f (omega arith),
  )

  pub push_next :
      (n k : ℕ) (msg : Message) (svcs : List FailoverPusher) (w : W) {f f' : FailoverPusher}
      {w' : W}
      → get_elem? svcs (k % length svcs) ≡ some f
      → attempt limit provider f msg w ≡ next f' w'
      → push_rounds limit provider (suc n) k msg svcs w
        ≡ push_rounds limit provider n (k + 1) msg (set svcs (k % length svcs) f') w'
  unfolding push_rounds
  push_next n k msg svcs w found tried = rw (found, push_rounds) (rw (tried, push_rounds))

  pub push_delivered :
      (n k : ℕ) (msg : Message) (svcs : List FailoverPusher) (w : W) {f f' : FailoverPusher}
      {w' : W}
      → get_elem? svcs (k % length svcs) ≡ some f
      → attempt limit provider f msg w ≡ delivered f' w'
      → push_rounds limit provider (suc n) k msg svcs w
        ≡ returned none (set svcs (k % length svcs) f') w'
  unfolding push_rounds
  push_delivered n k msg svcs w found tried = rw (found, push_rounds) (rw (tried, push_rounds))

  pub Attempt-cases :
      (a : Attempt W)
      → ((f : FailoverPusher) × (w : W) × (a ≡ delivered f w))
        ⊎ ((f : FailoverPusher) × (w : W) × (a ≡ next f w))
  Attempt-cases (delivered f w) = inl (f, w, refl)
  Attempt-cases (next f w) = inr (f, w, refl)

  push_rounds-Settles :
      (n k : ℕ) (msg : Message) (svcs : List FailoverPusher) (w : W)
      → 0 < length svcs
      → Settles (k + n) svcs (push_rounds limit provider n k msg svcs w)
  push_rounds-Settles zero k msg svcs w h =
      unfold push_rounds in (some pusher_error, svcs, w, refl, inr refl, refl, λ i hi. refl)
  push_rounds-Settles (suc n) k msg svcs w h =
      let at = k % length svcs in
      let (f, found) = get_elem?-lt svcs at (omega arith) in
      elim (Attempt-cases (attempt limit provider f msg w)) [
        | inl (f', w', tried) ↦ rw (push_delivered n k msg svcs w found tried) (
            Settles-set (k + suc n) at svcs f' _ (grind arith)
              ((none, set svcs at f', w', refl, inl refl, refl, λ i hi. refl)))
        | inr (f', w', tried) ↦ rw (push_next n k msg svcs w found tried) (
            Settles-set (k + suc n) at svcs f' _ (grind arith) (
              let shift : k + 1 + n ≡ k + suc n = omega arith in
              rw shift at (
                push_rounds-Settles n (k + 1) msg (set svcs at f') w'
                  (rw (length-set svcs at f') h))))
      ]

  -- With at least one service `Push` never panics, whatever the limiter and the providers answer: it
  -- returns nil or PusherError, keeps the number of services, and does not touch the services from the
  -- eleventh on, which get no message even when all others are out of use.
  pub push_limited-Settles :
      (msg : Message) (svcs : List FailoverPusher) (w : W)
      → 0 < length svcs
      → Settles 10 svcs (push_limited limit provider msg svcs w)
  unfolding push_limited
  push_limited-Settles msg svcs w h = push_rounds-Settles 10 0 msg svcs w h

  attempt_unhealthy :
      (f : FailoverPusher) (msg : Message) (w : W)
      → f.healthy ≡ false
      → attempt limit provider f msg w ≡ next f w
  unfolding attempt
  attempt_unhealthy f msg w h = rw h

  push_rounds_unhealthy :
      (n k : ℕ) (msg : Message) (svcs : List FailoverPusher) (w : W)
      → 0 < length svcs
      → All (λ (f : FailoverPusher). f.healthy ≡ false) svcs
      → push_rounds limit provider n k msg svcs w ≡ returned (some pusher_error) svcs w
  push_rounds_unhealthy zero k msg svcs w h u = unfold push_rounds in refl
  push_rounds_unhealthy (suc n) k msg svcs w h u =
      let at = k % length svcs in
      let (f, found) = get_elem?-lt svcs at (omega arith) in
      let out = All-get_elem? (λ (f : FailoverPusher). f.healthy ≡ false) svcs at u found in
      push_next n k msg svcs w found (attempt_unhealthy f msg w out)
      ∙ rw (set-get_elem? svcs at found) (push_rounds_unhealthy n (k + 1) msg svcs w h u)

  -- When every service is out of use, `Push` returns PusherError and asks neither the limiter nor a
  -- provider: the services and the world are as before.
  pub push_limited_unhealthy :
      (msg : Message) (svcs : List FailoverPusher) (w : W)
      → 0 < length svcs
      → All (λ (f : FailoverPusher). f.healthy ≡ false) svcs
      → push_limited limit provider msg svcs w ≡ returned (some pusher_error) svcs w
  unfolding push_limited
  push_limited_unhealthy msg svcs w h u = push_rounds_unhealthy 10 0 msg svcs w h u
