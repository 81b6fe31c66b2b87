-- ===== src/Fleet/Counts.antt =====
-- The counts of all the pods, which GET /count shows: what their producers hope for, and what their
-- workers push. The messages of a pod's producer may be consumed by any other pod.
use offlinepush.Base.{
  ℕ, zero, suc, ◌+◌, ◌*◌, ◌^◌, ◌<◌, ◌≤◌, ◌≡◌, refl, sym, ap, ◌∙◌, List, [], ◌∷◌, ◌++◌, take, drop,
  length, length-append, length-take, String, Option, none, true, All, arith, Bool-cases, inl, inr,
}
use offlinepush.Base.Int.{ℤ, pos, ◌+ℤ◌}
use offlinepush.Base.Int64.{wrap64, wrap64_id}
use offlinepush.Base.Dict.{Dict}
use offlinepush.Base.Result.{Error}
use offlinepush.Config.{PushConfig}
use offlinepush.Counter.{
  Counter, new_counter, Access, pushed, hoped, reset_hope, reset_pushed, accesses, access,
}
use offlinepush.Counter.Counting.{
  KeepsPushed, KeepsHoped, sum_hoped, count_pushed, pushed_since, hoped_since, zero_add,
}
use offlinepush.Dao
use offlinepush.Dao.{Gorm}
use offlinepush.Dao.Table.{IndexScan, rows_of, above, IsAscending}
use offlinepush.Producer.{ProducerMessage, World}
use offlinepush.Producer.Task.{Reader, Task, Reach, all_succeeded, finish, hope_accesses}
use offlinepush.Producer.Task.Readers.{HasReturned}
use offlinepush.Producer.Task.Readers
use offlinepush.Producer.Task.Delivered.{readers_deliver}
use offlinepush.Producer.Task.Hope.{length-dues}
use offlinepush.Consumer.{Pod, start_batch, Run}
use offlinepush.Consumer.Counting.{in_flight, all_uncounted, Run-IsCounted}
use offlinepush.Fleet.{Producer, produce_types, all_types, begin_all}

-- Those accesses that add to the hope count.
abbrev pub hoped_only : List Access → List Access
hoped_only [] = []
hoped_only (pushed ∷ l) = hoped_only l
hoped_only (hoped delta ∷ l) = hoped delta ∷ hoped_only l
hoped_only (reset_hope ∷ l) = hoped_only l
hoped_only (reset_pushed ∷ l) = hoped_only l

sum-hoped_only : (l : List Access) → sum_hoped (hoped_only l) ≡ sum_hoped l
sum-hoped_only [] = refl
sum-hoped_only (pushed ∷ l) = sum-hoped_only l
sum-hoped_only (hoped delta ∷ l) = ap (λ (z : ℤ). delta +ℤ z) (sum-hoped_only l)
sum-hoped_only (reset_hope ∷ l) = sum-hoped_only l
sum-hoped_only (reset_pushed ∷ l) = sum-hoped_only l

-- What `doTask` does to the counter is the accesses of its pod's goroutines.
finish-accesses :
    {D K : Type 0} (cfg : PushConfig) (t : Task D K) (c : Counter)
    → finish cfg t c ≡ accesses c (hope_accesses cfg t.readers)
unfolding finish hope_accesses accesses access
finish-accesses cfg t c = elim (Bool-cases (all_succeeded t.readers)) [
  | inl fine ↦ rw fine refl
  | inr failed ↦ rw failed refl
]

-- A pod's part of a task: its goroutines `rs`, which raise its hope count, and its consumer from
-- counts of zero to a time at which no batch is running.
pub record Works (cfg : PushConfig) (rs : List Reader) (q : Pod) : Type 0 where
  pub done : List Access
  pub gauge : Dict ℤ
  pub ran : Run (start_batch new_counter gauge) done q
  pub keeps_pushed : All KeepsPushed done
  pub keeps_hoped : All KeepsHoped done
  pub idle : q.batches ≡ []
  pub hopes : hoped_only done ≡ hope_accesses cfg rs

-- The sums over the pods.
abbrev pub total_hope : List Pod → ℤ
total_hope [] = pos 0
total_hope (q ∷ qs) = q.counter.hope_count +ℤ total_hope qs

abbrev pub total_pushed : List Pod → ℤ
total_pushed [] = pos 0
total_pushed (q ∷ qs) = q.counter.pushed_count +ℤ total_pushed qs

abbrev pub all_handled : List Pod → ℕ
all_handled [] = 0
all_handled (q ∷ qs) = length q.handled + all_handled qs

small_wrap : (n : ℕ) → n < 2 ^ 63 → wrap64 (pos n) ≡ pos n
small_wrap n h = wrap64_id (pos n) (omega arith)

zero_plus : (z : ℤ) (n : ℕ) → z ≡ pos n → n < 2 ^ 63 → wrap64 (pos 0 +ℤ z) ≡ pos n
zero_plus z n e h = ap wrap64 (zero_add z ∙ e) ∙ small_wrap n h

plus_zero : (z : ℤ) (n : ℕ) → z ≡ pos n → z +ℤ pos 0 ≡ pos n
unfolding ◌+ℤ◌
plus_zero z n h = ground arith

pos_sum : (y z : ℤ) (m n : ℕ) → y ≡ pos m → z ≡ pos n → y +ℤ z ≡ pos (m + n)
unfolding ◌+ℤ◌
pos_sum y z m n h k = ground arith

hope_sum :
    (cfg : PushConfig) (num : ℕ) (rs : List Reader) (types : List String)
    → cfg.num ≡ pos num
    → length rs ≡ length types
    → all_succeeded rs ≡ true
    → length types * num < 2 ^ 63
    → sum_hoped (hope_accesses cfg rs) ≡ pos (length types * num)
unfolding hope_accesses
hope_sum cfg num rs types asked many fine small =
    rw fine (plus_zero _ _ (Readers.hoped num rs types cfg.num many asked small))

pod_counts :
    (cfg : PushConfig) (num : ℕ) (rs : List Reader) (types : List String) (q : Pod)
    → cfg.num ≡ pos num
    → length rs ≡ length types
    → all_succeeded rs ≡ true
    → length types * num < 2 ^ 63
    → length q.handled < 2 ^ 63
    → Works cfg rs q
    → (q.counter.hope_count ≡ pos (length types * num))
      × (q.counter.pushed_count ≡ pos (length q.handled))
unfolding wrap64
pod_counts cfg num rs types q asked many fine small few w =
    let h = Run-IsCounted w.gauge w.ran in
    let hopes =
      sym (sum-hoped_only w.done)
      ∙ (ap sum_hoped w.hopes ∙ hope_sum cfg num rs types asked many fine small) in
    let worked : count_pushed w.done ≡ length q.handled =
      omega (arith, h.number, ap all_uncounted w.idle, ap in_flight w.idle) in
    (
      ap (λ (c : Counter). c.hope_count) h.counter
          ∙ (hoped_since w.done new_counter (pos 0) w.keeps_hoped refl
              ∙ zero_plus (sum_hoped w.done) _ hopes small),
      ap (λ (c : Counter). c.pushed_count) h.counter
          ∙ (pushed_since w.done new_counter (pos 0) w.keeps_pushed refl
              ∙ zero_plus (pos (count_pushed w.done)) _ (ap pos worked) few),
    )

times_sum : (m n k : ℕ) → (m + n) * k ≡ m * k + n * k
times_sum m n k = grind arith

length-drop : (n : ℕ) (rs : List Reader) (m : ℕ) → length rs ≡ n + m → length (drop n rs) ≡ m
length-drop zero rs m h = omega arith
length-drop (suc n) [] m h = absurd (omega arith)
length-drop (suc n) (r ∷ rs) m h = length-drop n rs m (omega arith)

succeeded_parts :
    (n : ℕ) (rs : List Reader)
    → all_succeeded rs ≡ true
    → (all_succeeded (take n rs) ≡ true) × (all_succeeded (drop n rs) ≡ true)
succeeded_parts zero rs h = (refl, h)
succeeded_parts (suc n) [] h = (refl, refl)
succeeded_parts (suc n) (r ∷ rs) h = ground (arith, succeeded_parts n rs)

module _ (inter_set : List String → List String → List String) (cfg : PushConfig) where
  -- Each pod works on its own part of the goroutines, which stand one pod behind the other.
  abbrev pub AllWork : List Producer → List Reader → List Pod → Type 0
  AllWork [] rs [] = Unit
  AllWork [] rs (q ∷ qs) = ⊥
  AllWork (p ∷ ps) rs [] = ⊥
  AllWork (p ∷ ps) rs (q ∷ qs) =
      let n = length (produce_types inter_set p cfg) in
      Works cfg (take n rs) q × AllWork ps (drop n rs) qs

module _ (inter_set : List String → List String → List String) (cfg : PushConfig) (num : ℕ)
    (asked : cfg.num ≡ pos num) where
  all_counts :
      (ps : List Producer) (rs : List Reader) (qs : List Pod)
      → length rs ≡ length (all_types inter_set ps cfg)
      → all_succeeded rs ≡ true
      → length (all_types inter_set ps cfg) * num < 2 ^ 63
      → all_handled qs < 2 ^ 63
      → AllWork inter_set cfg ps rs qs
      → (total_hope qs ≡ pos (length (all_types inter_set ps cfg) * num))
        × (total_pushed qs ≡ pos (all_handled qs))
  all_counts [] rs [] many fine small few w = (ap pos (omega arith), refl)
  all_counts [] rs (q ∷ qs) many fine small few w = absurd w
  all_counts (p ∷ ps) rs [] many fine small few w = absurd w
  all_counts (p ∷ ps) rs (q ∷ qs) many fine small few (own, w) =
      let types = produce_types inter_set p cfg in
      let others = all_types inter_set ps cfg in
      let n = length types in
      let (good, rest_good) = succeeded_parts n rs fine in
      let size = length-append types others in
      let products : length (types ++ others) * num ≡ n * num + length others * num =
        ap (λ (k : ℕ). k * num) size ∙ times_sum n (length others) num in
      let (hope, real) =
        pod_counts cfg num (take n rs) types q asked (omega (arith, length-take n rs, size)) good
          (omega (arith, products)) (omega arith) own in
      let (hopes, reals) =
        all_counts ps (drop n rs) qs (length-drop n rs _ (many ∙ size)) rest_good
          (omega (arith, products)) (omega arith) w in
      (pos_sum _ _ _ _ hope hopes ∙ ap pos (sym products), pos_sum _ _ _ _ real reals)

  module _ {D K : Type 0} (gorm : Gorm D) (send : List ProducerMessage → K → Option Error × K)
      (table : D → List Dao.Device) (scan : IndexScan gorm table)
      (accepts : (msgs : List ProducerMessage) (k : K) → (send msgs k).0 ≡ none)
      (fits : num + 100 < 2 ^ 63) (tab : List Dao.Device)
      (ascending : (typ : String) → IsAscending (rows_of typ tab)) where
    -- All pods run a task, each with its own producer, counter and consumer, in any interleaving
    -- and from counts of zero. When all goroutines of the task have returned, the handlers of all
    -- batches have returned, and the messages that these handled, on whichever pod, are as many as
    -- the task has sent, then over all pods the hope counts and the pushed counts add up to the
    -- same number: `num` for each type of each pod. Each of these types has at least `num` rows
    -- with a positive cid; no count is reset meanwhile; each pod's hope count is raised only by the
    -- `doTask` of this task; the index scan serves the rows of a type in ascending order, the
    -- broker accepts every batch, `num` with one batch added fits an int, and the whole an int64.
    pub counts_meet :
        (ps : List Producer) (qs : List Pod) (w : World D K) (t : Task D K)
        → let types = all_types inter_set ps cfg in
          All (λ (typ : String). num ≤ length (above (pos 0) (rows_of typ tab))) types
          → length types * num < 2 ^ 63
          → table w.db ≡ tab
          → Reach gorm send cfg (begin_all inter_set ps cfg w) t
          → All HasReturned t.readers
          → AllWork inter_set cfg ps t.readers qs
          → length w.sent + all_handled qs ≡ length t.world.sent
          → (total_hope qs ≡ pos (length types * num))
            × (total_pushed qs ≡ pos (length types * num))
    counts_meet ps qs w t plenty small same r gone works handled =
        let types = all_types inter_set ps cfg in
        let (sent, kept, fine, number, size) =
          readers_deliver gorm send table scan accepts cfg num asked fits tab ascending types w t
            same r gone in
        let all_sent : all_handled qs ≡ length types * num =
          omega (arith, handled, number, length-dues num cfg.topic tab types plenty) in
        let (hopes, reals) =
          all_counts ps t.readers qs size fine small (omega (arith, all_sent)) works in
        (hopes, reals ∙ ap pos all_sent)
