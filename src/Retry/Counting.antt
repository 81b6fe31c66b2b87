-- ===== src/Retry/Counting.antt =====
-- The strategy allows its maximum of retries and then none.
use offlinepush.Base.{
  ℕ, zero, suc, ◌+◌, ◌-◌, ◌^◌, ◌<◌, ◌≡◌, refl, ap, List, [], ◌∷◌, ◌∙◌, Bool, true, false, arith,
  leb,
}
use offlinepush.Base.Int.{ℤ, pos}
use offlinepush.Base.Int64.{pos-add₆₄}
use offlinepush.Retry.{next, nexts}

-- so many calls are allowed, of so many calls
abbrev pub allowed : ℕ → ℕ → List Bool
allowed m zero = []
allowed zero (suc k) = false ∷ allowed zero k
allowed (suc m) (suc k) = true ∷ allowed m k

allowed_step :
    (d m c k : ℕ)
    → m - c ≡ d
    → leb (c + 1 + 0) (m + 0) ∷ allowed (m - (c + 1)) k ≡ allowed d (suc k)
allowed_step zero m c k e =
    let none_left : m - (c + 1) ≡ 0 = omega arith in
    let past : leb (c + 1 + 0) (m + 0) ≡ false = ground arith in rw (none_left, past) refl
allowed_step (suc d) m c k e =
    let one_less : m - (c + 1) ≡ d = omega arith in
    let within : leb (c + 1 + 0) (m + 0) ≡ true = ground arith in rw (one_less, within) refl

zero_less : (m : ℕ) → m ≡ m - 0
zero_less m = omega arith

nexts_from :
    (k : ℕ) (interval : ℤ) (m c : ℕ)
    → c + k < 2 ^ 63
    → nexts k (record { interval = interval; max = pos m; cnt = pos c }) ≡ allowed (m - c) k
unfolding nexts next
nexts_from zero interval m c h = refl
nexts_from (suc k) interval m c h =
    rw (pos-add₆₄ c 1 (omega arith), nexts_from k interval m (c + 1) (omega arith))
      (allowed_step (m - c) m c k refl)

-- A fresh strategy whose maximum `m` is not negative answers its first `m` calls with true and every
-- later one with false, as long as the calls are fewer than 2 ^ 63.
pub nexts-allowed :
    (k m : ℕ) (interval : ℤ)
    → k < 2 ^ 63
    → nexts k (record { interval = interval; max = pos m; cnt = pos 0 }) ≡ allowed m k
nexts-allowed k m interval h =
    nexts_from k interval m 0 (omega arith) ∙ ap (λ (d : ℕ). allowed d k) (omega arith)
