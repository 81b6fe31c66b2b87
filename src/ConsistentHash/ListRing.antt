-- ===== src/ConsistentHash/ListRing.antt =====
-- A ring for the tests: a list of names, whose first name owns every type.
use offlinepush.Base.{
  ◌≢◌, ◌≡◌, refl, List, [], ◌∷◌, String, Option, none, some, true, false, ◌=ₛ◌, contains, arith,
  eq_iff, if◌then◌else◌,
}
use offlinepush.ConsistentHash.{HashRing}
use offlinepush.ConsistentHash.Membership.{AnsweringRing, RingLaws}

abbrev pub without : String → List String → List String
without m [] = []
without m (n ∷ ns) = let rest = without m ns in if m =ₛ n then rest else n ∷ rest

abbrev first : List String → Option String
first [] = none
first (n ∷ ns) = some n

abbrev pub list_ring : HashRing (List String)
list_ring = record {
  new = λ ns. ns;
  add_node = λ n r. n ∷ r;
  remove_node = without;
  get_node = λ t r. first r;
}

contains-without :
    (m : String) (ns : List String) (n : String)
    → contains (without m ns) n ≡ (if m =ₛ n then false else contains ns n)
contains-without m [] n = ground arith
contains-without m (k ∷ ns) n =
    ground (arith, eq_iff m n, eq_iff m k, eq_iff k n, contains-without m ns n)

first-member : (n : String) (r : List String) → first r ≡ some n → contains r n ≡ true
first-member n [] h = cc
first-member n (m ∷ r) h = ground (arith, h, eq_iff m n)

first-answers : (n : String) (r : List String) → contains r n ≡ true → first r ≢ none
first-answers n [] h e = cc
first-answers n (m ∷ r) h e = cc

pub list_ring-AnsweringRing : AnsweringRing list_ring
list_ring-AnsweringRing = record {
  laws = record {
    member = contains;
    member-new = λ ns n. refl;
    member-add = λ m r n. refl;
    member-remove = contains-without;
    get-member = λ t n r h. first-member n r h;
  };
  answers = λ t n r. first-answers n r;
}

pub list_ring-RingLaws : RingLaws list_ring
list_ring-RingLaws = list_ring-AnsweringRing.laws
