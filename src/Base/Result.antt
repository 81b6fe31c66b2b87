-- ===== src/Base/Result.antt =====
-- Go's errors: the sentinel values of the program's packages, and any other error of a library.
-- A function that returns `error` alone returns `Option Error`; `none` is nil.
use Prim.Native.String.{String}

pub data Error : Type 0 where
  canceled deadline_exceeded : Error
  no_biz repeated_operation : Error
  pusher_error : Error
  refresh_failed failed_to_preempt_lock : Error
  duplicate_record : Error
  no_topic : Error
  other : String → Error

-- A function that returns (T, error) with T unused when the error is not nil.
pub data Result {ℓ} (A : Type ℓ) : Type ℓ where
  ok : A → Result A
  err : Error → Result A

infixl 10 ◌>>=◌
abbrev pub ◌>>=◌ {ℓ κ} : {A : Type ℓ} {B : Type κ} → Result A → (A → Result B) → Result B
ok a >>= f = f a
err e >>= f = err e
