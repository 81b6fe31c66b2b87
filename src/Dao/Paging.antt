-- ===== src/Dao/Paging.antt =====
-- The cursor of `FindDevicesPage` walks through an ascending table: after a page, what lies past the
-- cursor is exactly what the page left out.
use offlinepush.Base.{
  ℕ, zero, suc, ◌≡◌, refl, List, [], ◌∷◌, map, some, take, drop, All, arith, last?, Bool-cases, inl,
  inr,
}
use offlinepush.Base.Int.{ℤ, ltb_ℤ, ◌≤ℤ◌, ◌<ℤ◌}
use offlinepush.Dao.{Device, Gorm, Cursor, advance}
use offlinepush.Dao.Table.{above, only_cid, IsAscending}

-- the last cid of a page, or the cursor that an empty page leaves
abbrev pub last_cid : ℤ → List Device → ℤ
last_cid c [] = c
last_cid c (r ∷ rs) = last_cid r.cid rs

last?-map :
    (r : Device) (rs : List Device)
    → (d : Device) × (last? (map only_cid (r ∷ rs)) ≡ some d) × (d.cid ≡ last_cid r.cid rs)
last?-map r [] = (only_cid r, refl, refl)
last?-map r (s ∷ rs) = last?-map s rs

pub advance-last_cid :
    {D : Type 0} (gorm : Gorm D) (cursor : Cursor) (rs : List Device)
    → (advance gorm cursor (map only_cid rs)).position ≡ last_cid cursor.position rs
unfolding advance
advance-last_cid gorm cursor [] = refl
advance-last_cid gorm cursor (r ∷ rs) = let (d, found, cid) = last?-map r rs in rw (found) cid

above-All : (c : ℤ) (rs : List Device) → All (λ (s : Device). c <ℤ s.cid) rs → above c rs ≡ rs
above-All c [] h = refl
above-All c (r ∷ rs) h = ground (arith, above-All c rs h.1)

above-above : (c d : ℤ) (rs : List Device) → c ≤ℤ d → above d (above c rs) ≡ above d rs
above-above c d [] h = refl
above-above c d (r ∷ rs) h = ground (arith, above-above c d rs h)

All-above :
    (x c : ℤ) (rs : List Device)
    → All (λ (s : Device). x <ℤ s.cid) rs
    → All (λ (s : Device). x <ℤ s.cid) (above c rs)
All-above x c [] h = h
All-above x c (r ∷ rs) h = elim (Bool-cases (ltb_ℤ c r.cid)) [
  | inl e ↦ rw e (h.0, All-above x c rs h.1)
  | inr e ↦ rw e (All-above x c rs h.1)
]

above_bound : (c : ℤ) (rs : List Device) → All (λ (s : Device). c <ℤ s.cid) (above c rs)
above_bound c [] = tt
above_bound c (r ∷ rs) = elim (Bool-cases (ltb_ℤ c r.cid)) [
  | inl e ↦ rw e (ground arith, above_bound c rs)
  | inr e ↦ rw e (above_bound c rs)
]

above-IsAscending : (c : ℤ) (rs : List Device) → IsAscending rs → IsAscending (above c rs)
above-IsAscending c [] h = h
above-IsAscending c (r ∷ rs) h = elim (Bool-cases (ltb_ℤ c r.cid)) [
  | inl e ↦ rw e (All-above r.cid c rs h.0, above-IsAscending c rs h.1)
  | inr e ↦ rw e (above-IsAscending c rs h.1)
]

last_cid_ge :
    (c : ℤ) (n : ℕ) (zs : List Device)
    → All (λ (s : Device). c <ℤ s.cid) zs
    → IsAscending zs
    → c ≤ℤ last_cid c (take n zs)
last_cid_ge c zero zs b h = omega arith
last_cid_ge c (suc n) [] b h = omega arith
last_cid_ge c (suc n) (z ∷ zs) b h = omega (arith, last_cid_ge z.cid n zs h.0 h.1)

above-last_cid :
    (c : ℤ) (n : ℕ) (zs : List Device)
    → All (λ (s : Device). c <ℤ s.cid) zs
    → IsAscending zs
    → above (last_cid c (take n zs)) zs ≡ drop n zs
above-last_cid c zero zs b h = above-All c zs b
above-last_cid c (suc n) [] b h = refl
above-last_cid c (suc n) (z ∷ zs) b h =
    ground (arith, last_cid_ge z.cid n zs h.0 h.1, above-last_cid z.cid n zs h.0 h.1)

-- After a page of n rows the rows past the cursor are those that the page left out.
pub above-page :
    (c : ℤ) (n : ℕ) (rs : List Device)
    → IsAscending rs
    → above (last_cid c (take n (above c rs))) rs ≡ drop n (above c rs)
above-page c n rs h =
    let zs : List Device = above c rs in
    let b : All (λ (s : Device). c <ℤ s.cid) (above c rs) = above_bound c rs in
    let asc : IsAscending (above c rs) = above-IsAscending c rs h in
    rw (← above-above c (last_cid c (take n (above c rs))) rs (last_cid_ge c n (above c rs) b asc))
      (above-last_cid c n (above c rs) b asc)
