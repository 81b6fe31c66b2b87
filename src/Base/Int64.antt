-- ===== src/Base/Int64.antt =====
-- Go's `int` and `int64`: an operation computes in ℤ and wraps its result to 64 bits.
use Prim.Native.Nat.{ℕ, ◌+◌, ◌-◌, ◌*◌, ◌%◌, ◌^◌, ◌<◌, ◌≤◌}
use mathlib.Core.Path.{◌≡◌}
use native.Mathlib.Omega.{arith}
use offlinepush.Base.Tests.{ltb, if◌then◌else◌}
use offlinepush.Base.Int.{ℤ, pos, negsuc, ◌+ℤ◌, ◌-ℤ◌, ◌*ℤ◌, ◌≤ℤ◌}

-- The bit pattern of an integer, below 2 ^ 64.
abbrev pub to_word : ℤ → ℕ
to_word (pos n) = n % 2 ^ 64
to_word (negsuc n) = 2 ^ 64 - 1 - n % 2 ^ 64

-- The number that a bit pattern stands for.
abbrev pub signed64 : ℕ → ℤ
signed64 w = if ltb w (2 ^ 63) then pos w else negsuc (2 ^ 64 - 1 - w)

unfoldable pub wrap64 : ℤ → ℤ
wrap64 a = signed64 (to_word a)

-- The range of an int64.
pub record IsInt64 (a : ℤ) : Type 0 where
  pub low : negsuc (2 ^ 63 - 1) ≤ℤ a
  pub high : a ≤ℤ pos (2 ^ 63 - 1)

infixl 65 ◌+₆₄◌ ◌-₆₄◌
infixl 70 ◌*₆₄◌
unfoldable pub ◌+₆₄◌ : ℤ → ℤ → ℤ
a +₆₄ b = wrap64 (a +ℤ b)

unfoldable pub ◌-₆₄◌ : ℤ → ℤ → ℤ
a -₆₄ b = wrap64 (a -ℤ b)

unfoldable pub ◌*₆₄◌ : ℤ → ℤ → ℤ
a *₆₄ b = wrap64 (a *ℤ b)

-- Every result of a wrapping operation is an int64.
pub wrap64-IsInt64 : (a : ℤ) → IsInt64 (wrap64 a)
unfolding wrap64
wrap64-IsInt64 (pos n) = ground arith
wrap64-IsInt64 (negsuc n) = ground arith

-- An int64 is its own wrap.
pub wrap64_id : (a : ℤ) → IsInt64 a → wrap64 a ≡ a
unfolding wrap64
wrap64_id (pos n) h = ground arith
wrap64_id (negsuc n) h = ground arith

-- Where the true result of an operation on numbers that are not negative fits, it is the result.
pub pos-add₆₄ : (m n : ℕ) → m + n < 2 ^ 63 → pos m +₆₄ pos n ≡ pos (m + n)
unfolding ◌+₆₄◌ ◌+ℤ◌ wrap64
pos-add₆₄ m n h = ground arith

pub pos-sub₆₄ : (m n : ℕ) → n ≤ m → m < 2 ^ 63 → pos m -₆₄ pos n ≡ pos (m - n)
unfolding ◌-₆₄◌ ◌-ℤ◌ wrap64
pos-sub₆₄ m n h b = ground arith

pub pos-mul₆₄ : (m n : ℕ) → m * n < 2 ^ 63 → pos m *₆₄ pos n ≡ pos (m * n)
unfolding ◌*₆₄◌ ◌*ℤ◌ wrap64
pos-mul₆₄ m n h = ground arith

-- Wrapping an intermediate result makes no difference to the wrapped result.
pub wrap64-add : (a b : ℤ) → wrap64 (wrap64 a +ℤ b) ≡ wrap64 (a +ℤ b)
unfolding wrap64 ◌+ℤ◌
wrap64-add a b = ground arith
