-- ===== src/Etcd/Watching.antt =====
-- A subscriber gets the instances that are registered, in order, up to the cancellation of the watch.
use offlinepush.Base.{◌≡◌, refl, List, [], ◌∷◌, ◌++◌, map, String, none, true, false, All}
use offlinepush.Base.Result.{ok}
use offlinepush.Json.{Codec, RoundTrips}
use offlinepush.Registry.{ServiceInstance, Event, put}
use offlinepush.Etcd.{
  WatchEvent, WatchResponse, mvcc_put, decoded, types_map, convert, convert_all, subscribe,
}

-- An instance and the text that it is marshaled to.
abbrev pub Made : Codec ServiceInstance → ServiceInstance × String → Type 0
Made codec (ins, v) = codec.marshal ins ≡ ok v

-- How etcd reports that it is registered, and what the subscriber is to get.
abbrev pub reported : ServiceInstance × String → WatchEvent
reported (ins, v) = record { type = mvcc_put; value = v }

abbrev pub registered : ServiceInstance × String → Event
registered (ins, v) = record { type = put; ins = ins }

abbrev pub response : List (ServiceInstance × String) → WatchResponse
response batch = record { canceled = false; failure = none; events = map reported batch }

abbrev pub cancellation : WatchResponse
cancellation = record { canceled = true; failure = none; events = [] }

abbrev pub flatten : List (List (ServiceInstance × String)) → List Event
flatten [] = []
flatten (batch ∷ batches) = map registered batch ++ flatten batches

module _ (codec : Codec ServiceInstance) (rt : RoundTrips codec) where
  convert_all-reported :
      (batch : List (ServiceInstance × String))
      → All (Made codec) batch
      → convert_all codec (map reported batch) ≡ map registered batch
  unfolding convert_all convert decoded types_map
  convert_all-reported [] made = refl
  convert_all-reported ((ins, v) ∷ batch) (made, rest) =
      rw (rt.back ins v made, convert_all-reported batch rest) refl

  -- If the responses of a watch report registrations of instances whose marshaled texts read back, and
  -- then the watch is cancelled, the subscriber gets a put event for each instance, in order, and none
  -- for what follows.
  pub subscribe-registered :
      (batches : List (List (ServiceInstance × String))) (later : List WatchResponse)
      → All (All (Made codec)) batches
      → subscribe codec (map response batches ++ (cancellation ∷ later)) ≡ flatten batches
  unfolding subscribe
  subscribe-registered [] later made = refl
  subscribe-registered (batch ∷ batches) later (made, rest) =
      rw (convert_all-reported batch made, subscribe-registered batches later rest) refl
