-- ===== src/Forward.antt =====
-- internal/component/cron.go and internal/component/hash.go, Subscribe: a goroutine takes values
-- from a channel without buffer and sends them on to its reader. Those who write to the channel do
-- it in a select with a default case, so that a value is dropped unless the goroutine waits for one.
pub mod Order
mod Tests
use offlinepush.Base.{Bool, true, false, List, [], ◌∷◌, ◌++◌}

-- Where the goroutine stands: before its select, waiting in it, sending to the reader, returned.
pub data Place (A : Type 0) : Type 0 where
  running waiting ended : Place A
  sending : A → Place A

-- The goroutine, with what the reader has got and what was dropped.
pub record Forward (A : Type 0) : Type 0 where
  pub place : Place A
  pub delivered : List A
  pub dropped : List A

-- What happens: a value is offered, the goroutine comes to its select, its reader takes the value,
-- the context is done and the select sees it.
pub data Act (A : Type 0) : Type 0 where
  arrives : A → Act A
  turns receives ends : Act A

abbrev pub subscribed : {A : Type 0} → Forward A
subscribed = record { place = running; delivered = []; dropped = [] }

-- Whether a select with a default case that offers a value meets the goroutine.
abbrev pub is_waiting : {A : Type 0} → Place A → Bool
is_waiting waiting = true
is_waiting running = false
is_waiting (sending x) = false
is_waiting ended = false

module _ {A : Type 0} where
  -- `case ch <- x:` and `default:`
  unfoldable pub offer : A → Place A → Forward A → Forward A
  offer x waiting s = record s { place = sending x }
  offer x running s = record s { dropped = s.dropped ++ x ∷ [] }
  offer x (sending y) s = record s { dropped = s.dropped ++ x ∷ [] }
  offer x ended s = record s { dropped = s.dropped ++ x ∷ [] }

  -- The next round of the loop
  unfoldable pub turn : Place A → Forward A → Forward A
  turn running s = record s { place = waiting }
  turn waiting s = s
  turn (sending x) s = s
  turn ended s = s

  -- `ch <- x` meets the reader.
  unfoldable pub deliver : Place A → Forward A → Forward A
  deliver (sending x) s = record s { place = running; delivered = s.delivered ++ x ∷ [] }
  deliver running s = s
  deliver waiting s = s
  deliver ended s = s

  -- `case <-ctx.Done(): return`; while it sends, the goroutine does not look at the context.
  unfoldable pub stop : Place A → Forward A → Forward A
  stop running s = record s { place = ended }
  stop waiting s = record s { place = ended }
  stop (sending x) s = s
  stop ended s = s

  unfoldable pub act : Act A → Forward A → Forward A
  unfolding offer turn deliver stop
  act (arrives x) s = offer x s.place s
  act turns s = turn s.place s
  act receives s = deliver s.place s
  act ends s = stop s.place s

  unfoldable pub acts : List (Act A) → Forward A → Forward A
  acts [] s = s
  acts (a ∷ rest) s = acts rest (act a s)
