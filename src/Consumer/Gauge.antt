-- ===== src/Consumer/Gauge.antt =====
-- The gauge of messages: what the producer adds for a batch the consumer takes off again.
use offlinepush.Base.{
  ℕ, ◌≡◌, refl, List, ◌∷◌, String, some, ◌=ₛ◌, arith, eq_iff, eq_refl, length, if◌then◌else◌,
  Bool-cases, inl, inr,
}
use offlinepush.Base.Int.{ℤ, pos, ◌+ℤ◌, ◌-ℤ◌}
use offlinepush.Base.Dict.{Dict, insert, lookup-insert}
use offlinepush.Domain.{Message}
use offlinepush.Producer.{gauge_value, gauge_add}
use offlinepush.Consumer.{gauge_sub, finish}

add_sub : (a : ℤ) (n : ℕ) → a +ℤ pos n -ℤ pos n ≡ a
unfolding ◌+ℤ◌ ◌-ℤ◌
add_sub a n = ground arith

gauge_value-insert :
    (k j : String) (v : ℤ) (g : Dict ℤ)
    → gauge_value j (insert k v g) ≡ (if k =ₛ j then v else gauge_value j g)
unfolding gauge_value
gauge_value-insert k j v g = elim (Bool-cases (k =ₛ j)) [
  | inl same ↦ rw (lookup-insert k j v g, same) refl
  | inr other ↦ rw (lookup-insert k j v g, other) refl
]

value_balanced :
    (k j : String) (n : ℕ) (g : Dict ℤ)
    → gauge_value j (gauge_sub k (pos n) (gauge_add k (pos n) g)) ≡ gauge_value j g
unfolding gauge_add gauge_sub
value_balanced k j n g =
    let v = gauge_value k g +ℤ pos n in
    ground (
      arith,
      eq_iff k j,
      eq_refl k,
      gauge_value-insert k j (gauge_value k (insert k v g) -ℤ pos n) (insert k v g),
      gauge_value-insert k j v g,
      gauge_value-insert k k v g,
      add_sub (gauge_value k g) n,
    )

-- If a batch that is not empty has as many kafka messages as messages, and the producer has added
-- their number to the gauge of the first one's topic, then `BatchConsume` does not panic and brings
-- the gauge of every topic back to its value before that.
pub finish_balances :
    (m : Message) (ms : List Message) (g : Dict ℤ)
    → (g' : Dict ℤ) × (finish
          (length (m ∷ ms))
          (m ∷ ms)
          (gauge_add m.topic.name (pos (length (m ∷ ms))) g)
        ≡ some g')
      × ((j : String) → gauge_value j g' ≡ gauge_value j g)
unfolding finish
finish_balances m ms g =
    let n = length (m ∷ ms) in
    (
      gauge_sub m.topic.name (pos n) (gauge_add m.topic.name (pos n) g),
      refl,
      λ j. value_balanced m.topic.name j n g,
    )
