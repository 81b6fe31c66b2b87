-- ===== src/Service/Tests.antt =====
-- The service at concrete inputs.
use offlinepush.Base.{
  ◌≡◌, ◌≢◌, refl, sym, ◌∙◌, ◌=ₛ◌, eq_iff, false, List, [], ◌∷◌, ◌++◌, String, none, some,
}
use offlinepush.Base.Int.{pos, ◌+ℤ◌}
use offlinepush.Base.Dict.{lookup, insert}
use offlinepush.Base.Result.{ok}
use offlinepush.Config.{RegisterConfig, PushConfig, dev_config}
use offlinepush.Json.Framed.{
  instance_codec, instance_codec-RoundTrips, unframe, unframe_nat, is_more,
}
use offlinepush.Json.Task.{config_codec}
use offlinepush.Registry.{ServiceInstance, Registry}
use offlinepush.Etcd
use offlinepush.Etcd.InMemory.{list_client, list_client-ReadsPuts}
use offlinepush.Service.{collect, counted, reset_instance, reset_counter, get_count}
use offlinepush.Service.Web.{done, reset_count}
use offlinepush.Counter.{
  Counter, upload_instance, new_counter, pushed, hoped, access, accesses, listen_reset,
}
use offlinepush.Base.Dict.{Dict}
use offlinepush.Etcd.Store.{Call, registers, after}
use offlinepush.Etcd.Store.Replay.{Log, log_client, log_client-IsStore}
use offlinepush.Service.Uploads.{get_count-uploads}
use offlinepush.Service.Routes.{post, Request, answer}
use offlinepush.Service.Routes.Effects.{Changes, answer-Changes}
use offlinepush.Base.Int64.{wrap64}
use offlinepush.Etcd.{WatchEvent, mvcc_put, mvcc_delete, subscribe}
use offlinepush.Etcd.Watching.{reported}
use offlinepush.Service.Resets.{after_events, one_event, any_event_forgets, posted_reset_clears}
use offlinepush.Service.Counts.{reset_is_counted}

abbrev cfg : RegisterConfig
cfg = (dev_config "pod0").register

-- a registry that keeps what is registered
abbrev keeping : Registry (List ServiceInstance)
keeping = record {
  register = λ ins w. (none, ins ∷ w);
  unregister = λ ins w. (none, w);
  list_service = λ name w. (ok w, w);
  close = λ w. (none, w);
}

abbrev reboot : PushConfig
reboot = record {
  topic = record { name = "reboot"; domain = "" };
  device_type_list = "DeviceQ" ∷ "DeviceR" ∷ "DeviceS" ∷ "DeviceT" ∷ "DeviceX" ∷ [];
  cron = "0 15 * * *";
  qps = pos 4000;
  num = pos 0;
}

reset_is_counted_example : lookup {V = String} "" (("", "") ∷ []) ≢ none
unfolding reset_counter get_count Etcd.register Etcd.put_marshaled Etcd.list_service
    Etcd.decode_response Etcd.decode_all Etcd.decode_next counted collect insert reset_instance
    unframe unframe_nat is_more
reset_is_counted_example =
    reset_is_counted list_client instance_codec list_client-ReadsPuts instance_codec-RoundTrips cfg
      [] (("", "") ∷ []) refl refl refl

-- Two pods upload, one twice, and the counts are reset in between; a message is counted between the two
-- loads of the second upload.
abbrev pod1 : RegisterConfig
pod1 = (dev_config "pod1").register

abbrev none_pushed : Counter
none_pushed = record { hope_count = pos 2; pushed_count = pos 0 }

abbrev earlier : List Call
earlier = registers (upload_instance cfg none_pushed []) ∷ registers (reset_instance cfg) ∷ []

abbrev later : List Call
later = registers (upload_instance pod1 none_pushed []) ∷ []

abbrev all_calls : List Call
all_calls = earlier ++ (registers (upload_instance cfg none_pushed (pushed ∷ [])) ∷ later)

apart : {s t : String} → (s =ₛ t) ≡ false → s ≢ t
apart {s} {t} differ h = cc (sym differ ∙ (eq_iff s t).1 h)

get_count-uploads_example :
    (mp : Dict String) × ((get_count
        (Etcd.registry log_client instance_codec)
        cfg
        (after log_client instance_codec all_calls [])).0
      ≡ (mp, none))
    × (lookup "pod0" mp ≡ some "hopeCount:2,realCount:1")
unfolding Etcd.register Etcd.put_marshaled upload_instance reset_instance access wrap64 ◌+ℤ◌
    offlinepush.Base.Decimal.decimal insert lookup
get_count-uploads_example =
    get_count-uploads log_client instance_codec instance_codec-RoundTrips log_client-IsStore cfg
      none_pushed (pushed ∷ []) earlier later [] _ refl (refl, (refl, (refl, (refl, tt))))
      (apart refl, tt)
      (
        λ h k. refl,
        ((λ h k. absurd (apart refl h)), ((λ h k. refl), ((λ h k. absurd (apart refl h)), tt))),
      )
      refl

-- POST /offlinepush/task/add
abbrev adds : Request
adds = record {
  method = post;
  pattern = "/offlinepush/task/add";
  name = "";
  body = ok (record { business = "reboot"; num = pos 2 });
}

answer-Changes_example :
    Changes keeping cfg config_codec adds [] (answer keeping cfg config_codec adds []).1
answer-Changes_example = answer-Changes keeping cfg config_codec (λ name w. refl) adds []

abbrev gone : WatchEvent
gone = record { type = mvcc_delete; value = "" }

any_event_forgets_example :
    (accesses
      (listen_reset
        (ok (subscribe instance_codec (one_event gone ∷ [])))
        (accesses new_counter (pushed ∷ [])))
      (pushed ∷ hoped (pos 3) ∷ [])).pushed_count
    ≡ wrap64 (pos 1)
any_event_forgets_example =
    any_event_forgets instance_codec gone new_counter (pushed ∷ []) (pushed ∷ hoped (pos 3) ∷ [])
      ((λ h. cc), ((λ h. cc), tt))

abbrev after_reset : Log
after_reset = (Etcd.register log_client instance_codec (reset_instance cfg) []).1

-- An upload of another pod, after the reset.
abbrev uploaded : List (String × WatchEvent)
uploaded = (("offlinepush-msg-count/pod1", record { type = mvcc_put; value = "" }) ∷ [])

posted_reset_clears_example :
    (v : String) × (instance_codec.marshal (reset_instance cfg) ≡ ok v)
    × (log_client.put "offlinepush-msg-count-write/" v [] ≡ (none, after_reset))
    × ((c : Counter)
        → (after_events log_client instance_codec cfg uploaded c ≡ c)
          × (after_events log_client instance_codec cfg
                (("offlinepush-msg-count-write/", reported (reset_instance cfg, v)) ∷ uploaded)
                c
              ≡ new_counter))
unfolding reset_count reset_counter done Etcd.register Etcd.put_marshaled
posted_reset_clears_example =
    posted_reset_clears log_client instance_codec cfg [] after_reset uploaded refl (refl, tt)
