-- ===== src/Producer/Task/Readers.antt =====
-- The goroutines of a task: the one that moves stands between others, which stay.
use offlinepush.Base.{
  suc, ap, length, ◌*◌, ◌^◌, ℕ, ◌+◌, ◌<◌, ◌≡◌, ◌≢◌, none, refl, List, [], ◌∷◌, ◌++◌, map, String,
  true, false, All, arith, ◌≤◌,
}
use offlinepush.Base.Int64.{◌*₆₄◌, pos-mul₆₄}
use offlinepush.Base.Int.{ℤ, pos, pos_part, ltb_ℤ}
use offlinepush.Producer.Task.{Reader, reader}

-- the variable `i` of a goroutine
abbrev pub IsAt : ℕ → Reader → Type 0
IsAt num r = (r.i ≡ pos (pos_part r.i)) × (pos_part r.i < num + 100)

abbrev pub HasReturned : Reader → Type 0
HasReturned r = r.result ≢ none

pub All-middle :
    (P : Reader → Type 0) (before : List Reader) (r : Reader) (after : List Reader)
    → All P (before ++ (r ∷ after))
    → P r × ((s : Reader) → P s → All P (before ++ (s ∷ after)))
All-middle P [] r after (h, hs) = (h, λ s p. (p, hs))
All-middle P (x ∷ before) r after (h, hs) =
    let (own, put) = All-middle P before r after hs in (own, λ s p. (h, put s p))

pub All-reader : (num : ℕ) (types : List String) → All (IsAt num) (map reader types)
All-reader num [] = tt
All-reader num (t ∷ types) = ((refl, omega arith), All-reader num types)

pub below_num : (y z : ℤ) (k num : ℕ) → y ≡ pos k → z ≡ pos num → ltb_ℤ y z ≡ true → k < num
below_num y z k num i n h = ground (arith, rw (i, n) at h)

pub not_below_num : (y z : ℤ) (k num : ℕ) → y ≡ pos k → z ≡ pos num → ltb_ℤ y z ≡ false → num ≤ k
not_below_num y z k num i n h = ground (arith, rw (i, n) at h)

pub length-middle :
    (before : List Reader) (r s : Reader) (after : List Reader)
    → length (before ++ (r ∷ after)) ≡ length (before ++ (s ∷ after))
length-middle [] r s after = refl
length-middle (x ∷ before) r s after = ap suc (length-middle before r s after)

-- the product that `doTask` adds to the hope count
pub hoped :
    (num : ℕ) (rs : List Reader) (types : List String) (z : ℤ)
    → length rs ≡ length types
    → z ≡ pos num
    → length types * num < 2 ^ 63
    → pos (length rs) *₆₄ z ≡ pos (length types * num)
hoped num rs types z many n small = rw (many, n) (pos-mul₆₄ (length types) num small)
