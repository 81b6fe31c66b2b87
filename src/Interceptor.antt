-- ===== src/Interceptor.antt =====
-- internal/component/interceptor.go: which business may push. The switches change only when the
-- registry reports a change, so that all pods follow the same order of changes.
pub mod Switching
mod Tests
use mathlib.Core.Option
use offlinepush.Base.{List, [], ◌∷◌, String, Option, none, some, Bool, true, false, if◌then◌else◌}
use offlinepush.Base.Dict.{Dict, lookup, insert, keys}
use offlinepush.Base.Result.{Error, Result, ok, err, no_biz, repeated_operation}
use offlinepush.Config.{RegisterConfig, push_map}
use offlinepush.Json.{Codec}
use offlinepush.Registry.{ServiceInstance, Registry, Event, EventType, put}

-- The program's `pair`.
pub record Pair : Type 0 where
  pub biz : String
  pub status : Bool

-- `Interceptor` without its mutex, its registry and its logger; each method holds the mutex.
pub record Interceptor : Type 0 where
  pub switches : Dict Bool

abbrev pub all_on : List String → Dict Bool
all_on [] = []
all_on (k ∷ ks) = insert k true (all_on ks)

unfoldable pub new_interceptor : Interceptor
unfolding push_map insert
new_interceptor = record { switches = all_on (keys push_map) }

-- `string(js)` after `js, _ := json.Marshal(…)`: on an error js is nil
unfoldable pub marshaled : Result String → String
marshaled (ok s) = s
marshaled (err e) = ""

-- The instance under which the status of a business is published.
abbrev pub switch_instance : RegisterConfig → Codec Pair → String → Bool → ServiceInstance
unfolding marshaled
switch_instance cfg codec biz status = record {
  address = "interceptor";
  service_name = cfg.interceptor_key;
  weight = 0;
  note = marshaled (codec.marshal (record { biz = biz; status = status }));
}

-- `i.Switch[biz]`: false for a missing key
unfoldable pub permit : Interceptor → String → Bool
permit i biz = Option.get_or (lookup biz i.switches) false

-- `GetMap` hands out the map itself.
unfoldable pub get_map : Interceptor → Dict Bool
get_map i = i.switches

module _ {W : Type 0} (rg : Registry W) (cfg : RegisterConfig) (codec : Codec Pair) where
  unfoldable pub resume_biz : Interceptor → String → W → Option Error × W
  resume_biz i biz w = elim (lookup biz i.switches) [
    | none ↦ (some no_biz, w)
    | some false ↦ rg.register (switch_instance cfg codec biz true) w
    | some true ↦ (some repeated_operation, w)
  ]

  unfoldable pub pause_biz : Interceptor → String → W → Option Error × W
  pause_biz i biz w = elim (lookup biz i.switches) [
    | none ↦ (some no_biz, w)
    | some true ↦ rg.register (switch_instance cfg codec biz false) w
    | some false ↦ (some repeated_operation, w)
  ]

-- `watchCh` for one event: the error of Unmarshal is ignored.
abbrev pub is_put : EventType → Bool
is_put put = true
is_put _ = false

unfoldable pub on_event : Codec Pair → Event → Interceptor → Interceptor
on_event codec event i =
    let p = (codec.unmarshal event.ins.note).0 in
    if is_put event.type then record i { switches = insert p.biz p.status i.switches } else i

unfoldable pub on_events : Codec Pair → List Event → Interceptor → Interceptor
on_events codec [] i = i
on_events codec (e ∷ es) i = on_events codec es (on_event codec e i)
