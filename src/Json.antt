-- ===== src/Json.antt =====
-- encoding/json as the program uses it, for one type. `unmarshal` gives what is left in a variable
-- that was zero before, and the error beside it. What the code relies on is `RoundTrips`.
pub mod Framed
pub mod Task
use offlinepush.Base.{◌≡◌, String, Option, none}
use offlinepush.Base.Result.{Error, Result, ok}

pub record Codec (A : Type 0) : Type 0 where
  pub marshal : A → Result String
  pub unmarshal : String → A × Option Error

-- A text that `marshal` made is read back as the value, without an error.
pub record RoundTrips {A : Type 0} (codec : Codec A) : Type 0 where
  pub back : (a : A) (s : String) → codec.marshal a ≡ ok s → codec.unmarshal s ≡ (a, none)
