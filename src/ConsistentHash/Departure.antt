-- ===== src/ConsistentHash/Departure.antt =====
-- The nodes that leave: etcd's delete events have no value, and are sent on as the zero event.
use offlinepush.Base.{◌≡◌, refl, String, some, none, eq_refl}
use offlinepush.Base.Dict.{lookup, lookup-insert}
use offlinepush.Base.Result.{Error, ok}
use offlinepush.Json.{Codec, RoundTrips}
use offlinepush.Registry.{ServiceInstance}
use offlinepush.Etcd
use offlinepush.Etcd.{WatchEvent, mvcc_put, mvcc_delete}
use offlinepush.Base.{Bool}
use offlinepush.ConsistentHash.{HashRing, ConsistentHash, on_add_node, on_type, on_event}

-- What etcd reports of a put, and of a delete, whose value is empty.
abbrev pub put_event : String → WatchEvent
put_event v = record { type = mvcc_put; value = v }

abbrev pub delete_event : WatchEvent
delete_event = record { type = mvcc_delete; value = "" }

module _ {R : Type 0} (hr : HashRing R) where
  -- If the texts of instances read back and the empty text does not, then a reported put of an instance
  -- adds the node of its address, but a reported delete, whose value is empty, changes neither the
  -- ring nor the nodes and hands over nothing: the node is still there after it.
  pub delete_ignored :
      (codec : Codec ServiceInstance) (rt : RoundTrips codec) (ready : Bool) (c : ConsistentHash R)
      (ins : ServiceInstance) {v : String} {rest : ServiceInstance} {e : Error}
      → codec.marshal ins ≡ ok v
      → codec.unmarshal "" ≡ (rest, some e)
      → let joined = on_event hr ready (Etcd.convert codec (put_event v)) c in
        (on_event hr ready (Etcd.convert codec delete_event) joined.0 ≡ (joined.0, none))
        × (lookup ins.address joined.0.nodes ≡ some tt)
  unfolding Etcd.convert Etcd.decoded Etcd.types_map on_event on_type on_add_node
  delete_ignored codec rt ready c ins made unreadable =
      rw (rt.back ins _ made, unreadable)
        (refl, rw (lookup-insert ins.address ins.address tt c.nodes, eq_refl ins.address) refl)
