-- ===== src/ConsistentHash/Division.antt =====
-- Pods that agree divide the device types: each type has exactly one of them.
use offlinepush.Base.{
  ℕ, ◌+◌, ◌≡◌, refl, ap, ◌∙◌, List, [], ◌∷◌, String, true, ◌=ₛ◌, contains, arith, eq_iff, All,
  if◌then◌else◌,
}
use offlinepush.Base.Counts.{IsDistinct, count, count_once}
use offlinepush.ConsistentHash.{HashRing, ConsistentHash, owner, get_responsible_keys}
use offlinepush.ConsistentHash.Partition.{Agree, contains-responsible}

abbrev pub names : {R : Type 0} → List (ConsistentHash R) → List String
names [] = []
names (c ∷ cs) = c.pod_name ∷ names cs

module _ {R : Type 0} (hr : HashRing R) where
  -- The number of pods that handle a type.
  abbrev pub handlers : String → List (ConsistentHash R) → ℕ
  handlers t [] = 0
  handlers t (c ∷ cs) = (if contains (get_responsible_keys hr c) t then 1 else 0) + handlers t cs

  handles :
      (c d : ConsistentHash R) (t : String)
      → contains c.types t ≡ true
      → Agree c d
      → contains (get_responsible_keys hr d) t ≡ (d.pod_name =ₛ owner hr c.ring t)
  handles c d t known agree = ground (
    arith,
    contains-responsible hr d t,
    ap (λ (ts : List String). contains ts t) agree.types,
    ap (λ (r : R). owner hr r t) agree.rings,
    eq_iff (owner hr d.ring t) d.pod_name,
    eq_iff d.pod_name (owner hr c.ring t),
  )

  handlers-count :
      (c : ConsistentHash R) (t : String) (pods : List (ConsistentHash R))
      → contains c.types t ≡ true
      → All (Agree c) pods
      → handlers t pods ≡ count (owner hr c.ring t) (names pods)
  handlers-count c t [] known agree = refl
  handlers-count c t (d ∷ ds) known (agree, rest) =
      rw (handles c d t known agree) (omega (arith, handlers-count c t ds known rest))

  -- If pods with different names agree on the ring and the types, and the node of a configured type
  -- on their ring is the name of one of them, then exactly one of the pods handles this type.
  pub Agree-handlers :
      (c : ConsistentHash R) (t : String) (pods : List (ConsistentHash R))
      → All (Agree c) pods
      → IsDistinct (names pods)
      → contains c.types t ≡ true
      → contains (names pods) (owner hr c.ring t) ≡ true
      → handlers t pods ≡ 1
  Agree-handlers c t pods agree distinct known present =
      handlers-count c t pods known agree
      ∙ count_once (owner hr c.ring t) (names pods) distinct present
