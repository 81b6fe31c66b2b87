-- ===== src/Fleet/Posted.antt =====
-- From a request to the messages: web/web.go, internal/service/service.go, the registry, and the
-- producers of all the pods.
use mathlib.Core.Option.{some-injective}
use offlinepush.Base.{
  ℕ, ◌+◌, ◌^◌, ◌<◌, ◌≡◌, refl, sym, ap, ◌∙◌, List, [], ◌∷◌, map, String, Option, none, some, Bool,
  true, not, ◌&&◌, contains, All, arith, eq_iff,
}
use offlinepush.Base.Int.{pos}
use offlinepush.Base.Bags.{bag, sum}
use offlinepush.Base.Counts.{IsDistinct}
use offlinepush.Base.Dict.{lookup, lookup-All}
use offlinepush.Base.Result.{Error, ok}
use offlinepush.Config.{RegisterConfig, PushConfig, push_map, devices}
use offlinepush.Json.{Codec, RoundTrips}
use offlinepush.Registry.{Registry, put}
use offlinepush.Dao
use offlinepush.Dao.{Gorm}
use offlinepush.Dao.Table.{IndexScan, rows_of, IsAscending}
use offlinepush.Producer.{ProducerMessage, World, manual_task}
use offlinepush.Producer.Task.{Task, Reach}
use offlinepush.Producer.Task.Readers.{HasReturned}
use offlinepush.Producer.Task.Owed.{dues}
use offlinepush.ConsistentHash.{HashRing, ConsistentHash, owner}
use offlinepush.ConsistentHash.Partition.{Agree}
use offlinepush.ConsistentHash.Division.{names}
use offlinepush.Service.{task_instance}
use offlinepush.Service.Web.{add_task_handler, text, status_ok}
use offlinepush.Service.Tasks.{add_task_success}
use offlinepush.Fleet.{new_producer, begin_all}
use offlinepush.Fleet.Delivered.{Intersects, IsOwned, fleet_delivers}

-- The lists of the push map hold known types, each once.
is_distinct : List String → Bool
is_distinct [] = true
is_distinct (n ∷ ns) = not (contains ns n) && is_distinct ns

is_distinct-IsDistinct : (ns : List String) → is_distinct ns ≡ true → IsDistinct ns
unfolding is_distinct
is_distinct-IsDistinct [] h = tt
is_distinct-IsDistinct (n ∷ ns) h = (ground arith, is_distinct-IsDistinct ns (ground arith))

are_known : List String → List String → Bool
are_known ds [] = true
are_known ds (n ∷ ns) = contains ds n && are_known ds ns

known_contains :
    (ds ns : List String) (t : String)
    → are_known ds ns ≡ true
    → contains ns t ≡ true
    → contains ds t ≡ true
unfolding are_known
known_contains ds [] t h m = cc
known_contains ds (n ∷ ns) t h m = ground (arith, eq_iff n t, known_contains ds ns t)

push_map_distinct :
    All (λ (e : String × PushConfig). is_distinct e.1.device_type_list ≡ true) push_map
unfolding push_map is_distinct
push_map_distinct = (refl, (refl, (refl, tt)))

push_map_known :
    All (λ (e : String × PushConfig). are_known devices e.1.device_type_list ≡ true) push_map
unfolding push_map are_known
push_map_known = (refl, (refl, (refl, tt)))

module _ {R : Type 0} (hr : HashRing R) (inter_set : List String → List String → List String)
    (laws : Intersects inter_set) {W : Type 0} (rg : Registry W) (cfg : RegisterConfig)
    (codec : Codec PushConfig) (rt : RoundTrips codec) {D K : Type 0} (gorm : Gorm D)
    (send : List ProducerMessage → K → Option Error × K) (table : D → List Dao.Device)
    (scan : IndexScan gorm table)
    (accepts : (msgs : List ProducerMessage) (k : K) → (send msgs k).0 ≡ none)
    (tab : List Dao.Device) (ascending : (typ : String) → IsAscending (rows_of typ tab)) where
  -- A request for a business of the push map that is answered with success has registered a note;
  -- the event by which the registry reports the note is read as the task of the push map with the
  -- number asked for; and once this task has run to its end on all the pods, in any interleaving of
  -- their goroutines, the broker has got, up to their order, the messages of before and one message
  -- for each of the first `num` rows with a positive cid of every device type of the business. The
  -- pods have different names and agree on the ring and on the types, which are the configured
  -- ones, and each of these has one of the pods as its node; tasks are read back from their texts,
  -- `slice.InterSet` intersects without repetition, the index scan serves the rows of a type in
  -- ascending order, the broker accepts every batch, and `num` with one batch added fits an int.
  pub posted_task_delivers :
      (num : ℕ) (business : String) (task : PushConfig) (v v' : W) (c : ConsistentHash R)
      (pods : List (ConsistentHash R)) (w : World D K) (t : Task D K)
      → num + 100 < 2 ^ 63
      → lookup business push_map ≡ some task
      → add_task_handler rg cfg codec (ok (record { business = business; num = pos num })) v
        ≡ (text status_ok "success", v')
      → c.types ≡ devices
      → All (Agree c) pods
      → IsDistinct (names pods)
      → ((typ : String)
          → contains devices typ ≡ true
          → contains (names pods) (owner hr c.ring typ) ≡ true)
      → table w.db ≡ tab
      → let asked = record task { num = pos num } in
        Reach gorm send asked (begin_all inter_set (map (new_producer hr) pods) asked w) t
        → All HasReturned t.readers
        → (note : String) × (rg.register (task_instance cfg note) v ≡ (none, v'))
          × (manual_task codec (record { type = put; ins = task_instance cfg note }) ≡ some asked)
          × (bag t.world.sent
              ≡ sum (bag w.sent) (bag (dues num task.topic tab task.device_type_list)))
  posted_task_delivers num business task v v' c pods w t fits known posted types agree apart owned
        same run gone =
      let asked = record task { num = pos num } in
      let (found, note, is, stored, read) =
        add_task_success rg cfg codec (record { business = business; num = pos num }) v v' rt
          posted in
      let same_task : found ≡ task = some-injective found task (sym is ∙ known) in
      let once = is_distinct-IsDistinct task.device_type_list (
        lookup-All (λ (p : PushConfig). is_distinct p.device_type_list ≡ true) business push_map
          push_map_distinct known) in
      let known_types =
        lookup-All (λ (p : PushConfig). are_known devices p.device_type_list ≡ true) business
          push_map push_map_known known in
      let own : (typ : String)
          → contains task.device_type_list typ ≡ true
          → IsOwned hr inter_set laws asked c pods typ =
        λ typ m.
          let here = known_contains devices task.device_type_list typ known_types m in
          (ap (λ (ts : List String). contains ts typ) types ∙ here, owned typ here) in
      let (sent, fine) =
        fleet_delivers hr inter_set laws asked gorm send table scan accepts num refl fits tab
          ascending c pods w t agree apart once own same run gone in
      (note, stored, rw same_task at read, sent)
