-- ===== src/Counter/Counting.antt =====
-- What the counter shows after any interleaving of the goroutines' accesses.
use offlinepush.Base.{ℕ, suc, ◌≡◌, ◌≢◌, refl, sym, ap, ◌∙◌, List, [], ◌∷◌, ◌++◌, arith, All}
use offlinepush.Base.Int.{ℤ, pos, ◌+ℤ◌}
use offlinepush.Base.Int64.{◌+₆₄◌, wrap64, wrap64-add}
use offlinepush.Counter.{
  Counter, Access, pushed, hoped, reset_hope, reset_pushed, incr_pushed_count, add_hope_count,
  store_hope, store_pushed, access, accesses,
}

-- The messages pushed, and the sum of the counts hoped for.
abbrev pub count_pushed : List Access → ℕ
count_pushed [] = 0
count_pushed (pushed ∷ l) = suc (count_pushed l)
count_pushed (hoped delta ∷ l) = count_pushed l
count_pushed (reset_hope ∷ l) = count_pushed l
count_pushed (reset_pushed ∷ l) = count_pushed l

abbrev pub sum_hoped : List Access → ℤ
sum_hoped [] = pos 0
sum_hoped (pushed ∷ l) = sum_hoped l
sum_hoped (hoped delta ∷ l) = delta +ℤ sum_hoped l
sum_hoped (reset_hope ∷ l) = sum_hoped l
sum_hoped (reset_pushed ∷ l) = sum_hoped l

-- An access that does not store into the field.
abbrev pub KeepsPushed : Access → Type 0
KeepsPushed a = a ≢ reset_pushed

abbrev pub KeepsHoped : Access → Type 0
KeepsHoped a = a ≢ reset_hope

pub accesses-append :
    (c : Counter) (l m : List Access) → accesses c (l ++ m) ≡ accesses (accesses c l) m
unfolding accesses
accesses-append c [] m = refl
accesses-append c (a ∷ l) m = accesses-append (access c a) l m

add_one : (x : ℤ) (n : ℕ) → x +ℤ pos 1 +ℤ pos n ≡ x +ℤ pos (suc n)
unfolding ◌+ℤ◌
add_one x n = ground arith

pub add_assoc : (x y z : ℤ) → x +ℤ y +ℤ z ≡ x +ℤ (y +ℤ z)
unfolding ◌+ℤ◌
add_assoc x y z = ground arith

add_zero : (x : ℤ) → x +ℤ pos 0 ≡ x
unfolding ◌+ℤ◌
add_zero x = ground arith

pub zero_add : (x : ℤ) → pos 0 +ℤ x ≡ x
unfolding ◌+ℤ◌
zero_add x = ground arith

pub pushed_since :
    (l : List Access) (c : Counter) (x : ℤ)
    → All KeepsPushed l
    → c.pushed_count ≡ wrap64 x
    → (accesses c l).pushed_count ≡ wrap64 (x +ℤ pos (count_pushed l))
unfolding accesses access incr_pushed_count add_hope_count store_hope ◌+₆₄◌
pushed_since [] c x keeps h = h ∙ ap wrap64 (sym (add_zero x))
pushed_since (pushed ∷ l) c x (keep, keeps) h =
    pushed_since l (access c pushed) (x +ℤ pos 1) keeps
      (ap (λ (y : ℤ). y +₆₄ pos 1) h ∙ wrap64-add x (pos 1))
    ∙ ap wrap64 (add_one x (count_pushed l))
pushed_since (hoped delta ∷ l) c x (keep, keeps) h =
    pushed_since l (access c (hoped delta)) x keeps h
pushed_since (reset_hope ∷ l) c x (keep, keeps) h = pushed_since l (access c reset_hope) x keeps h
pushed_since (reset_pushed ∷ l) c x (keep, keeps) h = absurd (keep refl)

pub hoped_since :
    (l : List Access) (c : Counter) (x : ℤ)
    → All KeepsHoped l
    → c.hope_count ≡ wrap64 x
    → (accesses c l).hope_count ≡ wrap64 (x +ℤ sum_hoped l)
unfolding accesses access incr_pushed_count add_hope_count store_pushed ◌+₆₄◌
hoped_since [] c x keeps h = h ∙ ap wrap64 (sym (add_zero x))
hoped_since (pushed ∷ l) c x (keep, keeps) h = hoped_since l (access c pushed) x keeps h
hoped_since (hoped delta ∷ l) c x (keep, keeps) h =
    hoped_since l (access c (hoped delta)) (x +ℤ delta) keeps
      (ap (λ (y : ℤ). y +₆₄ delta) h ∙ wrap64-add x delta)
    ∙ ap wrap64 (add_assoc x delta (sum_hoped l))
hoped_since (reset_hope ∷ l) c x (keep, keeps) h = absurd (keep refl)
hoped_since (reset_pushed ∷ l) c x (keep, keeps) h = hoped_since l (access c reset_pushed) x keeps h

-- After the last reset of the pushed count, in whatever order the accesses fall, it is the number of
-- pushes since then, wrapped to 64 bits.
pub pushed_after_reset :
    (c : Counter) (before after : List Access)
    → All KeepsPushed after
    → (accesses c (before ++ (reset_pushed ∷ after))).pushed_count
      ≡ wrap64 (pos (count_pushed after))
unfolding accesses access store_pushed wrap64
pushed_after_reset c before after keeps =
    ap (λ (d : Counter). d.pushed_count) (accesses-append c before (reset_pushed ∷ after))
    ∙ (pushed_since after (access (accesses c before) reset_pushed) (pos 0) keeps refl
        ∙ ap wrap64 (zero_add (pos (count_pushed after))))

-- After the last reset of the hoped count it is the sum of the numbers added since then, wrapped to 64
-- bits, whatever their signs.
pub hoped_after_reset :
    (c : Counter) (before after : List Access)
    → All KeepsHoped after
    → (accesses c (before ++ (reset_hope ∷ after))).hope_count ≡ wrap64 (sum_hoped after)
unfolding accesses access store_hope wrap64
hoped_after_reset c before after keeps =
    ap (λ (d : Counter). d.hope_count) (accesses-append c before (reset_hope ∷ after))
    ∙ (hoped_since after (access (accesses c before) reset_hope) (pos 0) keeps refl
        ∙ ap wrap64 (zero_add (sum_hoped after)))
