-- ===== src/Etcd/Tests.antt =====
-- The registry over etcd at concrete inputs.
use offlinepush.Base.{◌≡◌, ◌⊎◌, ◌↔◌, List, true, false, none, All, refl, [], ◌∷◌, ◌++◌, String}
use offlinepush.Json.Framed.{instance_codec, instance_codec-RoundTrips}
use offlinepush.Registry.{ServiceInstance}
use mathlib.Core.List.{Memᴰ}
use offlinepush.Base.Result.{ok}
use offlinepush.Base.Dict.{delete, insert}
use offlinepush.Etcd
use offlinepush.Etcd.{subscribe, list_service, WatchResponse, mvcc_delete}
use offlinepush.Etcd.Kinds.{all_reported, IsSent, subscribe-IsSent}
use offlinepush.Etcd.Store.{Call, registers, unregisters, after, table, IsListed}
use offlinepush.Etcd.Store.Listed.{list_service-table}
use offlinepush.Etcd.Store.Replay.{log_client, log_client-IsStore}
use offlinepush.Registry.{Event}
use offlinepush.Etcd.Subscription.{
  Watch, new_watch, on_response, cancel, quit, Step, Reach, here, next, responds,
}
use offlinepush.Etcd.Subscription.Prefix.{got-subscribe}
use offlinepush.Etcd.Watching.{reported, response}

abbrev counts : ServiceInstance
counts = record { address = "pod1"; service_name = "count-write"; weight = 0; note = "n" }

abbrev made_text : String
made_text = "1p1o1d1101c1o1u1n1t1-1w1r1i1t1e00n"

-- The goroutine has read a registration, and its reader has not taken the event.
abbrev reading : Watch
reading = on_response instance_codec (response ((counts, made_text) ∷ [])) new_watch

reach_reading : Reach instance_codec reading
reach_reading = next here (responds (response ((counts, made_text) ∷ [])) refl refl)

got-subscribe_example :
    (lost : List Event) × (reading.got ++ (reading.queue ++ lost)
      ≡ subscribe instance_codec reading.read)
    × ((reading.ended ≡ true)
        ⊎ ((lost ≡ []) × Step instance_codec (cancel reading) (quit (cancel reading))))
got-subscribe_example = got-subscribe instance_codec reading reach_reading

-- A pod registers itself, uploads a count, and leaves.
abbrev pod1 : ServiceInstance
pod1 = record { address = "pod1"; service_name = "pods"; weight = 0; note = "" }

abbrev calls : List Call
calls = registers pod1 ∷ registers counts ∷ unregisters pod1 ∷ []

list_service-table_example :
    (found : List ServiceInstance) × ((list_service log_client instance_codec "count"
        (after log_client instance_codec calls [])).0
      ≡ ok found)
    × ((ins : ServiceInstance) → Memᴰ ins found ↔ IsListed (table [] calls) "count" ins)
unfolding Etcd.register Etcd.put_marshaled Etcd.unregister delete insert
list_service-table_example =
    list_service-table log_client instance_codec instance_codec-RoundTrips log_client-IsStore calls
      "count" [] (made_text ∷ []) refl (refl, (refl, (refl, tt))) refl

-- A registration, and the deletion of its key.
abbrev put_and_gone : WatchResponse
put_and_gone = record {
  canceled = false;
  failure = none;
  events = reported (counts, made_text) ∷ record { type = mvcc_delete; value = "" } ∷ [];
}

subscribe-IsSent_example :
    All
      (IsSent instance_codec (all_reported (put_and_gone ∷ [])))
      (subscribe instance_codec (put_and_gone ∷ []))
subscribe-IsSent_example = subscribe-IsSent instance_codec (put_and_gone ∷ [])
