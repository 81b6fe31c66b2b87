-- ===== src/Domain.antt =====
-- internal/domain: what is pushed, and to whom. An int64 is an integer in the range of `IsInt64`.
use offlinepush.Base.{List, String}
use offlinepush.Base.Int.{ℤ}

pub record Topic : Type 0 where
  pub name : String
  pub domain : String

pub record Device : Type 0 where
  pub type : String
  pub id : ℤ

pub record Message : Type 0 where
  pub topic : Topic
  pub device : Device

-- The types of a pusher of commands, which no code uses yet.
record Task : Type 0 where
  message_list : List Message
  qps : ℤ

record Command : Type 0 where
  type : String
  content : String

record PushCommand : Type 0 where
  device_id : String
  cmd : Command
