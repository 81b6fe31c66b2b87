-- ===== src/Etcd.antt =====
-- pkg/registry/etcd/etcd.go: the registry over an etcd client, which is a parameter.
pub mod Listing
pub mod Watching
pub mod Kinds
pub mod Subscription
pub mod InMemory
pub mod Store
mod Tests
use Prim.Native.String.{◌++◌ as concat}
use offlinepush.Base.{List, [], ◌∷◌, ◌++◌, String, Option, none, some, Bool, true, false}
use offlinepush.Base.Result.{Error, Result, ok, err}
use offlinepush.Json.{Codec}
use offlinepush.Registry.{
  ServiceInstance, EventType, unknown, put, delete, Event, no_instance, Registry,
}

-- The calls of the etcd client and of its session: `get_prefix` is `Get` with `WithPrefix`, reduced
-- to the values of the pairs that it returns, and `put` is `Put` with the session's lease.
pub record Client (W : Type 0) : Type 0 where
  pub put : String → String → W → Option Error × W
  pub delete : String → W → Option Error × W
  pub get_prefix : String → W → Result (List String) × W
  pub close_session : W → Option Error × W
  pub close : W → Option Error × W

-- fmt.Sprintf("%s/%s", ins.ServiceName, ins.Address)
abbrev pub instance_key : ServiceInstance → String
instance_key ins = concat ins.service_name (concat "/" ins.address)

-- One round of the loop of `ListService`, and the rest of it; `unmarshal` gives a value and an error.
unfoldable pub decode_next :
    ServiceInstance × Option Error → Result (List ServiceInstance) → Result (List ServiceInstance)
decode_next (ins, some failure) rest = err failure
decode_next (ins, none) (ok instances) = ok (ins ∷ instances)
decode_next (ins, none) (err failure) = err failure

-- The loop of `ListService`: one value that cannot be read fails the whole list.
unfoldable pub decode_all : Codec ServiceInstance → List String → Result (List ServiceInstance)
decode_all codec [] = ok []
decode_all codec (v ∷ vs) = decode_next (codec.unmarshal v) (decode_all codec vs)

module _ {W : Type 0} (client : Client W) (codec : Codec ServiceInstance) where
  unfoldable pub put_marshaled : String → Result String → W → Option Error × W
  put_marshaled key (err failure) w = (some failure, w)
  put_marshaled key (ok val) w = client.put key val w

  unfoldable pub register : ServiceInstance → W → Option Error × W
  register ins w = put_marshaled (instance_key ins) (codec.marshal ins) w

  unfoldable pub unregister : ServiceInstance → W → Option Error × W
  unregister ins w = client.delete (instance_key ins) w

  unfoldable pub decode_response : Result (List String) → Result (List ServiceInstance)
  unfolding decode_all
  decode_response (err failure) = err failure
  decode_response (ok kvs) = decode_all codec kvs

  unfoldable pub list_service : String → W → Result (List ServiceInstance) × W
  unfolding decode_response
  list_service service_name w =
      let (resp, w') = client.get_prefix service_name w in (decode_response resp, w')

  -- The watches are cancelled before the session and the client are closed.
  unfoldable pub close : W → Option Error × W
  close w =
      let (e, w') = client.close_session w in
      elim e [ some failure ↦ (some failure, w') | none ↦ client.close w' ]

  abbrev pub registry : Registry W
  registry = record {
    register = register;
    unregister = unregister;
    list_service = list_service;
    close = close;
  }

-- What etcd's watch reports: `mvccpb.PUT` and `mvccpb.DELETE` are its only types of events.
pub data WatchType : Type 0 where
  mvcc_put mvcc_delete : WatchType

pub record WatchEvent : Type 0 where
  pub type : WatchType
  pub value : String

pub record WatchResponse : Type 0 where
  pub canceled : Bool
  pub failure : Option Error
  pub events : List WatchEvent

unfoldable pub types_map : WatchType → EventType
types_map mvcc_put = put
types_map mvcc_delete = delete

-- The event for the type of a reported one and what its value was decoded to: a value that cannot be
-- read is sent on as the zero event.
unfoldable pub decoded : WatchType → ServiceInstance × Option Error → Event
unfolding types_map
decoded type (ins, some failure) = record { type = unknown; ins = no_instance }
decoded type (ins, none) = record { type = types_map type; ins = ins }

unfoldable pub convert : Codec ServiceInstance → WatchEvent → Event
unfolding decoded
convert codec e = decoded e.type (codec.unmarshal e.value)

unfoldable pub convert_all : Codec ServiceInstance → List WatchEvent → List Event
unfolding convert
convert_all codec [] = []
convert_all codec (e ∷ es) = convert codec e ∷ convert_all codec es

-- What `Subscribe` sends on its channel for the responses of the watch, as long as the reader takes
-- the events and the watch is not cancelled by `Close`.
unfoldable pub subscribe : Codec ServiceInstance → List WatchResponse → List Event
unfolding convert_all
subscribe codec [] = []
subscribe codec (r ∷ rs) =
    let later = subscribe codec rs in
    elim r.canceled [
      | true ↦ []
      | false ↦ elim r.failure [ some _ ↦ later | none ↦ convert_all codec r.events ++ later ]
    ]
