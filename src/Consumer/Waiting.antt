-- ===== src/Consumer/Waiting.antt =====
-- The wait group of a batch counts the messages that no worker has finished.
use offlinepush.Base.{
  ℕ, suc, ◌+◌, ◌<◌, ◌≤◌, ◌≡◌, refl, sym, ap, ◌∙◌, List, [], ◌∷◌, ◌++◌, length, arith,
}
use offlinepush.Base.Int.{ℤ, pos, pos_part, ◌-ℤ◌}
use offlinepush.Domain.{Message}
use offlinepush.Counter.{Access}
use offlinepush.Counter.Counting.{count_pushed}
use offlinepush.Consumer.{
  ConsumerMessage, Batch, begin, invoked, refused, work, done, Move, takes, refuses, works, signals,
  Returns,
}

length-middle :
    (before : List Message) (m : Message) (after : List Message)
    → length (before ++ (m ∷ after)) ≡ suc (length (before ++ after))
length-middle [] m after = refl
length-middle (x ∷ before) m after = ap suc (length-middle before m after)

-- The messages that no worker has counted.
abbrev pub uncounted : Batch → ℕ
uncounted b = length b.rest + length b.running + b.logged

-- What holds from the beginning of a batch: each message is waited for until a worker has finished
-- it, those that were refused for ever.
pub record IsWaiting (b : Batch) : Type 0 where
  pub waits : b.wg ≡ pos (uncounted b + length b.counted)
  pub total : uncounted b + length b.counted ≤ length b.msgs

decrement : (n m : ℕ) → m ≡ suc n → pos m -ℤ pos 1 ≡ pos n
unfolding ◌-ℤ◌
decrement n m h = ground arith

pub begin-IsWaiting :
    (sarama_msgs : List ConsumerMessage) (msgs : List Message) → IsWaiting (begin sarama_msgs msgs)
unfolding begin
begin-IsWaiting sarama_msgs msgs = record { waits = ap pos (omega arith); total = omega arith }

pub Move-IsWaiting : {b b' : Batch} {l : List Access} → IsWaiting b → Move b l b' → IsWaiting b'
unfolding invoked refused work done
Move-IsWaiting h (takes m {ms} e) = record {
  waits = h.waits ∙ ap pos (omega (arith, ap length e));
  total = omega (arith, ap length e, h.total);
}
Move-IsWaiting h (refuses m {ms} e) = record {
  waits = h.waits ∙ ap pos (omega (arith, ap length e));
  total = omega (arith, ap length e, h.total);
}
Move-IsWaiting h (works m before after e) =
    let size = ap length e ∙ length-middle before m after in
    record { waits = h.waits ∙ ap pos (omega (arith, size)); total = omega (arith, size, h.total) }
Move-IsWaiting h (signals m before after e) =
    let size = ap length e ∙ length-middle before m after in
    record {
      waits = ap (λ (z : ℤ). z -ℤ pos 1) h.waits ∙ decrement _ _ (omega (arith, size));
      total = omega (arith, size, h.total);
    }

-- A message is counted exactly when a worker has pushed it.
pub Move-uncounted :
    {b b' : Batch} {l : List Access}
    → Move b l b'
    → (count_pushed l + uncounted b' ≡ uncounted b) × (b'.msgs ≡ b.msgs)
unfolding invoked refused work done
Move-uncounted (takes m e) = (omega (arith, ap length e), refl)
Move-uncounted (refuses m e) = (omega (arith, ap length e), refl)
Move-uncounted (works m before after e) =
    (omega (arith, ap length e ∙ length-middle before m after), refl)
Move-uncounted (signals m before after e) = (omega arith, refl)

length_zero : (l : List Message) → length l ≡ 0 → l ≡ []
length_zero [] h = refl
length_zero (m ∷ l) h = absurd (omega arith)

pub Returns-uncounted :
    {b : Batch}
    → IsWaiting b
    → Returns b
    → (b.logged ≡ 0) × (b.running ≡ []) × (b.counted ≡ []) × (uncounted b ≡ 0)
Returns-uncounted {b} h ret =
    let none_left : uncounted b + length b.counted ≡ 0 = ap pos_part (sym h.waits ∙ ret.waited) in
    (
      omega (arith, none_left),
      length_zero b.running (omega (arith, none_left)),
      length_zero b.counted (omega (arith, none_left)),
      omega (arith, none_left),
    )

pub data Moves (b : Batch) : Batch → Type 0 where
  here : Moves b b
  next : {c d : Batch} {l : List Access} → Moves b c → Move c l d → Moves b d

pub Moves-IsWaiting : {b c : Batch} → IsWaiting b → Moves b c → IsWaiting c × (c.msgs ≡ b.msgs)
Moves-IsWaiting h here = (h, refl)
Moves-IsWaiting h (next r s) =
    let (so_far, same) = Moves-IsWaiting h r in
    (Move-IsWaiting so_far s, (Move-uncounted s).1 ∙ same)

-- What a batch has left to do.
abbrev pub measure : Batch → ℕ
measure b =
    length b.rest
    + length b.rest
    + length b.rest
    + length b.running
    + length b.running
    + length b.counted

pub measure-Move : {b c : Batch} {l : List Access} → Move b l c → measure c < measure b
unfolding invoked refused work done
measure-Move (takes m e) = omega (arith, ap length e)
measure-Move (refuses m e) = omega (arith, ap length e)
measure-Move (works m before after e) = omega (arith, ap length e ∙ length-middle before m after)
measure-Move (signals m before after e) = omega (arith, ap length e ∙ length-middle before m after)

abbrev CanMove : Batch → Type 0
CanMove b = (l : List Access) × (c : Batch) × Move b l c
