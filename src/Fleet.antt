-- ===== src/Fleet.antt =====
-- internal/component/producer.go with internal/component/hash.go: a producer and the types it takes
-- from its consistent hash, and all the pods at work on one configuration. Each pod has a cron of
-- its own and each gets every manual task, so that all run the task; the database and the broker are
-- shared.
pub mod Delivered
pub mod Following
pub mod Posted
pub mod Counts
mod Tests
use offlinepush.Base.{List, [], ◌∷◌, ◌++◌, map, String}
use offlinepush.Config.{PushConfig}
use offlinepush.ConsistentHash.{HashRing, ConsistentHash, get_responsible_keys}
use offlinepush.Producer.{World}
use offlinepush.Producer.Task.{Task, reader, begin}

-- `Producer` without its clients.
pub record Producer : Type 0 where
  pub responsible_types : List String

unfoldable pub new_producer : {R : Type 0} → HashRing R → ConsistentHash R → Producer
new_producer hr c = record { responsible_types = get_responsible_keys hr c }

-- `p.responsibleTypes = types`
abbrev pub on_types : List String → Producer → Producer
on_types types p = record p { responsible_types = types }

module _ (inter_set : List String → List String → List String) where
  -- `produceTypes` of `doTask`
  unfoldable pub produce_types : Producer → PushConfig → List String
  produce_types p cfg = inter_set p.responsible_types cfg.device_type_list

  -- The types of all the pods, one pod behind the other.
  abbrev pub all_types : List Producer → PushConfig → List String
  all_types [] cfg = []
  all_types (p ∷ ps) cfg = produce_types p cfg ++ all_types ps cfg

  -- The goroutines of all the pods. Each pod has a gauge of its own; the gauge of this world stands
  -- for their sum, as a send adds its number to one of them.
  abbrev pub begin_all : {D K : Type 0} → List Producer → PushConfig → World D K → Task D K
  begin_all ps cfg w = record { readers = map reader (all_types ps cfg); world = w }
