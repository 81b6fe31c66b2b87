-- ===== src/Consumer/Partitions.antt =====
-- The topics and partitions that the log names for a batch.
use offlinepush.Base.{◌≡◌, refl, List, [], ◌∷◌, map, String, ◌||◌, contains, arith}
use offlinepush.Base.Counts.{IsDistinct}
use offlinepush.Base.Keys.{keys-insert, insert-IsDistinct}
use offlinepush.Base.Dict.{Dict, insert, keys}
use offlinepush.Consumer.{ConsumerMessage, partition_name, partition_set}

set_names :
    (ms : List ConsumerMessage) (mp : Dict (Unit {0}))
    → IsDistinct (keys mp)
    → IsDistinct (keys (partition_set ms mp))
      × ((n : String)
          → contains (keys (partition_set ms mp)) n
            ≡ (contains (map partition_name ms) n || contains (keys mp) n))
unfolding partition_set
set_names [] mp h = (h, λ n. refl)
set_names (m ∷ ms) mp h =
    let k = partition_name m in
    let (distinct, names) = set_names ms (insert k tt mp) (insert-IsDistinct k tt mp h) in
    (distinct, λ n. ground (arith, names n, keys-insert k n tt mp))

-- The log of a batch names each topic with a partition that one of its kafka messages has, and no
-- other, and none of them twice.
pub partitions_named :
    (ms : List ConsumerMessage)
    → IsDistinct (keys (partition_set ms []))
      × ((n : String)
          → contains (keys (partition_set ms [])) n ≡ contains (map partition_name ms) n)
partitions_named ms =
    let (distinct, names) = set_names ms [] tt in (distinct, λ n. ground (arith, names n))
