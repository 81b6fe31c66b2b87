-- ===== src/Forward/Tests.antt =====
-- A forwarding goroutine at work: two values come at once, and one later.
use offlinepush.Base.{ℕ, ◌≡◌, refl, List, [], ◌∷◌}
use offlinepush.Forward.{act, Forward, Act, arrives, turns, receives, waiting, sending, acts}

abbrev three : List (Act ℕ)
three = turns ∷ arrives 1 ∷ arrives 2 ∷ receives ∷ turns ∷ arrives 3 ∷ []

abbrev idle : Forward ℕ
idle = record { place = waiting; delivered = []; dropped = [] }

-- The second value is dropped, since the first still waits for its receiver; the third is sent.
three_acted : acts three idle ≡ record { place = sending 3; delivered = 1 ∷ []; dropped = 2 ∷ [] }
unfolding acts act
three_acted = refl
