-- ===== src/Producer/Task/Owed.antt =====
-- What the goroutines of a task have still to send, and what a task has to send for its types.
use offlinepush.Base.{
  ℕ, ◌+◌, ◌-◌, ◌^◌, ◌<◌, ◌≡◌, ◌≢◌, refl, sym, ap, ◌∙◌, List, [], ◌∷◌, ◌++◌, map, take, String,
  Option, none, some, All, arith, append_assoc, Option-cases, inl, inr,
}
use offlinepush.Base.Int.{ℤ, pos, pos_part}
use offlinepush.Base.Int64.{◌+₆₄◌, pos-add₆₄}
use offlinepush.Base.Counts.{flat}
use offlinepush.Base.Result.{Error}
use offlinepush.Domain.{Topic}
use offlinepush.Dao
use offlinepush.Dao.{Gorm, Cursor}
use offlinepush.Dao.Table.{rows_of, above}
use offlinepush.Producer.{ProducerMessage}
use offlinepush.Producer.Delivery.{notice}
use offlinepush.Producer.Task.Readers.{HasReturned, IsAt}
use offlinepush.Producer.Task.{Reader, reader, after_round}

-- What a goroutine has still to send.
abbrev pub owed : ℕ → Topic → List Dao.Device → Reader → List ProducerMessage
owed num topic tab r = elim r.result [
  | none ↦
      map (notice topic) (take (num - pos_part r.i) (above r.cursor.position (rows_of r.typ tab)))
  | some e ↦ []
]

abbrev pub all_owed : ℕ → Topic → List Dao.Device → List Reader → List ProducerMessage
all_owed num topic tab [] = []
all_owed num topic tab (r ∷ rs) = owed num topic tab r ++ all_owed num topic tab rs

-- The messages of a task: for each type, one for each of its first `num` rows with a positive cid.
abbrev pub due : ℕ → Topic → List Dao.Device → String → List ProducerMessage
due num topic tab typ = map (notice topic) (take num (above (pos 0) (rows_of typ tab)))

abbrev pub dues : ℕ → Topic → List Dao.Device → List String → List ProducerMessage
dues num topic tab types = flat (due num topic tab) types

-- A goroutine that has not returned an error.
abbrev pub IsSound : Reader → Type 0
IsSound r = (e : Error) → r.result ≢ some (some e)

pub all_owed-middle :
    (num : ℕ) (topic : Topic) (tab : List Dao.Device) (before : List Reader) (r : Reader)
    (after : List Reader)
    → all_owed num topic tab (before ++ (r ∷ after))
      ≡ all_owed num topic tab before ++ (owed num topic tab r ++ all_owed num topic tab after)
all_owed-middle num topic tab [] r after = refl
all_owed-middle num topic tab (x ∷ before) r after =
    ap (λ (l : List ProducerMessage). owed num topic tab x ++ l)
      (all_owed-middle num topic tab before r after)
    ∙ sym (append_assoc (owed num topic tab x) (all_owed num topic tab before) _)

pub running_owed :
    (num k : ℕ) (topic : Topic) (tab : List Dao.Device) (r : Reader)
    → r.i ≡ pos k
    → r.result ≡ none
    → owed num topic tab r
      ≡ map (notice topic) (take (num - k) (above r.cursor.position (rows_of r.typ tab)))
running_owed num k topic tab r i running = rw (running, i) refl

pub returned_owed :
    (num : ℕ) (topic : Topic) (tab : List Dao.Device) (rs : List Reader)
    → All HasReturned rs
    → all_owed num topic tab rs ≡ []
returned_owed num topic tab [] h = refl
returned_owed num topic tab (r ∷ rs) (gone, h) = elim (Option-cases r.result) [
  | inl none_yet ↦ absurd (gone none_yet)
  | inr (e, is) ↦ rw (is, returned_owed num topic tab rs h) refl
]

pub begin-owed :
    (num : ℕ) (topic : Topic) (tab : List Dao.Device) (types : List String)
    → all_owed num topic tab (map reader types) ≡ dues num topic tab types
begin-owed num topic tab [] = refl
begin-owed num topic tab (t ∷ types) =
    let all : num - 0 ≡ num = omega arith in rw (all, begin-owed num topic tab types) refl

-- A goroutine with i = k and its next page read without an error.
pub after_round-owed :
    (num k : ℕ) (topic : Topic) (tab : List Dao.Device) (r : Reader) (e : Option Error)
    (cursor : Cursor)
    → r.i ≡ pos k
    → r.result ≡ none
    → e ≡ none
    → k < num
    → num + 100 < 2 ^ 63
    → (owed num topic tab (after_round r e cursor)
        ≡ map (notice topic) (take (num - (k + 100)) (above cursor.position (rows_of r.typ tab))))
      × IsAt num (after_round r e cursor)
      × IsSound (after_round r e cursor)
unfolding after_round
after_round-owed num k topic tab r none cursor i running fine h b =
    let next_i : r.i +₆₄ pos 100 ≡ pos (k + 100) =
      ap (λ (z : ℤ). z +₆₄ pos 100) i ∙ pos-add₆₄ k 100 (omega arith) in
    (
      running_owed num (k + 100) topic tab (record r { i = r.i +₆₄ pos 100; cursor = cursor })
          next_i running,
      rw next_i (refl, omega arith),
      λ e h. cc,
    )
after_round-owed num k topic tab r (some f) cursor i running fine h b = cc
