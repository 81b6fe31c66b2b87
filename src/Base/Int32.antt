-- ===== src/Base/Int32.antt =====
-- Go's `int32`: an operation computes in ℤ and wraps its result to 32 bits.
use Prim.Native.Nat.{ℕ, ◌+◌, ◌-◌, ◌%◌, ◌^◌, ◌<◌, ◌≤◌}
use mathlib.Core.Path.{◌≡◌}
use native.Mathlib.Omega.{arith}
use offlinepush.Base.Tests.{ltb, if◌then◌else◌}
use offlinepush.Base.Int.{ℤ, pos, negsuc, ◌+ℤ◌, ◌-ℤ◌, ◌*ℤ◌, ◌≤ℤ◌}

-- The bit pattern of an integer, below 2 ^ 32.
abbrev pub to_word32 : ℤ → ℕ
to_word32 (pos n) = n % 2 ^ 32
to_word32 (negsuc n) = 2 ^ 32 - 1 - n % 2 ^ 32

-- The number that a bit pattern stands for.
abbrev pub signed32 : ℕ → ℤ
signed32 w = if ltb w (2 ^ 31) then pos w else negsuc (2 ^ 32 - 1 - w)

unfoldable pub wrap32 : ℤ → ℤ
wrap32 a = signed32 (to_word32 a)

-- The range of an int32.
pub record IsInt32 (a : ℤ) : Type 0 where
  pub low : negsuc (2 ^ 31 - 1) ≤ℤ a
  pub high : a ≤ℤ pos (2 ^ 31 - 1)

infixl 65 ◌+₃₂◌ ◌-₃₂◌
infixl 70 ◌*₃₂◌
unfoldable pub ◌+₃₂◌ : ℤ → ℤ → ℤ
a +₃₂ b = wrap32 (a +ℤ b)

unfoldable pub ◌-₃₂◌ : ℤ → ℤ → ℤ
a -₃₂ b = wrap32 (a -ℤ b)

unfoldable pub ◌*₃₂◌ : ℤ → ℤ → ℤ
a *₃₂ b = wrap32 (a *ℤ b)

-- Every result of a wrapping operation is an int32.
pub wrap32-IsInt32 : (a : ℤ) → IsInt32 (wrap32 a)
unfolding wrap32
wrap32-IsInt32 (pos n) = ground arith
wrap32-IsInt32 (negsuc n) = ground arith

-- An int32 is its own wrap.
pub wrap32_id : (a : ℤ) → IsInt32 a → wrap32 a ≡ a
unfolding wrap32
wrap32_id (pos n) h = ground arith
wrap32_id (negsuc n) h = ground arith

-- Where the true result of an operation on numbers that are not negative fits, it is the result.
pub pos-add₃₂ : (m n : ℕ) → m + n < 2 ^ 31 → pos m +₃₂ pos n ≡ pos (m + n)
unfolding ◌+₃₂◌ ◌+ℤ◌ wrap32
pos-add₃₂ m n h = ground arith

pub pos-sub₃₂ : (m n : ℕ) → n ≤ m → m < 2 ^ 31 → pos m -₃₂ pos n ≡ pos (m - n)
unfolding ◌-₃₂◌ ◌-ℤ◌ wrap32
pos-sub₃₂ m n h b = ground arith
