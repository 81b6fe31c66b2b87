-- ===== src/Fleet/Delivered.antt =====
-- Pods that agree on the ring send together what a configuration asks for, and nothing twice.
use offlinepush.Base.{
  ℕ, ◌+◌, ◌^◌, ◌<◌, ◌≡◌, refl, sym, ap, ◌∙◌, List, [], ◌∷◌, map, String, Option, none, Bool, true,
  false, ◌&&◌, contains, All, arith, Bool-cases, inl, inr, if◌then◌else◌,
}
use offlinepush.Base.Int.{pos}
use offlinepush.Base.Bags.{bag, sum}
use offlinepush.Base.Counts.{
  IsDistinct, count, count_absent, count_once, count-IsDistinct, count-append, flat_of_counts,
}
use offlinepush.Base.Result.{Error}
use offlinepush.Config.{PushConfig}
use offlinepush.Dao
use offlinepush.Dao.{Gorm}
use offlinepush.Dao.Table.{IndexScan, rows_of, IsAscending}
use offlinepush.Producer.{ProducerMessage, World}
use offlinepush.Producer.Task.{Task, Reach, all_succeeded}
use offlinepush.Producer.Task.Readers.{HasReturned}
use offlinepush.Producer.Task.Owed.{due, dues}
use offlinepush.Producer.Task.Delivered.{readers_deliver}
use offlinepush.ConsistentHash.{HashRing, ConsistentHash, owner, get_responsible_keys}
use offlinepush.ConsistentHash.Partition.{Agree}
use offlinepush.ConsistentHash.Division.{names, handlers, Agree-handlers}
use offlinepush.Fleet.{new_producer, produce_types, all_types, begin_all}

-- `slice.InterSet` answers with what two slices share, without repetition.
pub record Intersects (inter_set : List String → List String → List String) : Type 0 where
  pub contains-inter_set :
      (xs ys : List String) (t : String)
      → contains (inter_set xs ys) t ≡ (contains xs t && contains ys t)
  pub distinct : (xs ys : List String) → IsDistinct (inter_set xs ys)

module _ {R : Type 0} (hr : HashRing R) (inter_set : List String → List String → List String)
    (laws : Intersects inter_set) (cfg : PushConfig) where
  count-produce_types :
      (t : String) (c : ConsistentHash R)
      → count t (produce_types inter_set (new_producer hr c) cfg) ≡ (
          if contains (get_responsible_keys hr c) t && contains cfg.device_type_list t
          then 1
          else 0)
  unfolding produce_types new_producer
  count-produce_types t c =
      let keys = get_responsible_keys hr c in
      count-IsDistinct t (inter_set keys cfg.device_type_list)
        (laws.distinct keys cfg.device_type_list)
      ∙ ap (λ (b : Bool). if b then 1 else 0) (laws.contains-inter_set keys cfg.device_type_list t)

  -- A type of the configuration is taken as often as there are pods that handle it.
  count_taken :
      (t : String) (pods : List (ConsistentHash R))
      → contains cfg.device_type_list t ≡ true
      → count t (all_types inter_set (map (new_producer hr) pods) cfg) ≡ handlers hr t pods
  count_taken t [] asked = refl
  count_taken t (c ∷ cs) asked = ground (
    arith,
    count-append t (produce_types inter_set (new_producer hr c) cfg)
        (all_types inter_set (map (new_producer hr) cs) cfg),
    count-produce_types t c,
    count_taken t cs asked,
    asked,
  )

  count_not_taken :
      (t : String) (pods : List (ConsistentHash R))
      → contains cfg.device_type_list t ≡ false
      → count t (all_types inter_set (map (new_producer hr) pods) cfg) ≡ 0
  count_not_taken t [] asked = refl
  count_not_taken t (c ∷ cs) asked = ground (
    arith,
    count-append t (produce_types inter_set (new_producer hr c) cfg)
        (all_types inter_set (map (new_producer hr) cs) cfg),
    count-produce_types t c,
    count_not_taken t cs asked,
    asked,
  )

  -- A type that the pods know, and that one of them owns.
  abbrev pub IsOwned : ConsistentHash R → List (ConsistentHash R) → String → Type 0
  IsOwned c pods t =
      (contains c.types t ≡ true) × (contains (names pods) (owner hr c.ring t) ≡ true)

  counts-Agree :
      (c : ConsistentHash R) (pods : List (ConsistentHash R))
      → All (Agree c) pods
      → IsDistinct (names pods)
      → IsDistinct cfg.device_type_list
      → ((t : String) → contains cfg.device_type_list t ≡ true → IsOwned c pods t)
      → (t : String)
      → count t (all_types inter_set (map (new_producer hr) pods) cfg)
        ≡ count t cfg.device_type_list
  counts-Agree c pods agree apart once owned t =
      elim (Bool-cases (contains cfg.device_type_list t)) [
        | inl asked ↦
            (let (known, present) = owned t asked in
              count_taken t pods asked
              ∙ (Agree-handlers hr c t pods agree apart known present
                  ∙ sym (count_once t cfg.device_type_list once asked)))
        | inr other ↦ count_not_taken t pods other ∙ sym (count_absent t cfg.device_type_list other)
      ]

  module _ {D K : Type 0} (gorm : Gorm D) (send : List ProducerMessage → K → Option Error × K)
      (table : D → List Dao.Device) (scan : IndexScan gorm table)
      (accepts : (msgs : List ProducerMessage) (k : K) → (send msgs k).0 ≡ none) (num : ℕ)
      (asked : cfg.num ≡ pos num) (fits : num + 100 < 2 ^ 63) (tab : List Dao.Device)
      (ascending : (typ : String) → IsAscending (rows_of typ tab)) where
    -- Pods with different names that agree on the ring and the types run the task of one
    -- configuration, over one database and one broker, in any interleaving of all their goroutines.
    -- Each type of the configuration stands in it once, is known to the pods and owned by one of
    -- them. Once all goroutines have returned, none has failed, and the broker has got, up to their
    -- order, the messages of before and one message for each of the first `num` rows with a
    -- positive cid of every type of the configuration: no device is left out and none gets two.
    -- `slice.InterSet` intersects without repetition, the index scan serves the rows of a type in
    -- ascending order, the broker accepts every batch, and `num` with one batch added fits an int.
    pub fleet_delivers :
        (c : ConsistentHash R) (pods : List (ConsistentHash R)) (w : World D K) (t : Task D K)
        → All (Agree c) pods
        → IsDistinct (names pods)
        → IsDistinct cfg.device_type_list
        → ((typ : String) → contains cfg.device_type_list typ ≡ true → IsOwned c pods typ)
        → table w.db ≡ tab
        → Reach gorm send cfg (begin_all inter_set (map (new_producer hr) pods) cfg w) t
        → All HasReturned t.readers
        → (bag t.world.sent ≡ sum (bag w.sent) (bag (dues num cfg.topic tab cfg.device_type_list)))
          × (all_succeeded t.readers ≡ true)
    fleet_delivers c pods w t agree apart once owned same r gone =
        let types = all_types inter_set (map (new_producer hr) pods) cfg in
        let (sent, kept, fine, number, size) =
          readers_deliver gorm send table scan accepts cfg num asked fits tab ascending types w t
            same r gone in
        let whole =
          flat_of_counts (due num cfg.topic tab) types cfg.device_type_list
            (counts-Agree c pods agree apart once owned) in
        (sent ∙ ap (sum (bag w.sent)) whole, fine)
