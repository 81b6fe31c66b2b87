-- ===== src/Interceptor/Tests.antt =====
-- The interceptor at concrete inputs.
use offlinepush.Base.{◌≡◌, refl, List, [], ◌∷◌, map, String, Bool, true, false}
use offlinepush.Config.{RegisterConfig, dev_config}
use offlinepush.Json.Framed.{pair_codec, pair_codec-RoundTrips}
use offlinepush.Interceptor.{new_interceptor, permit, on_events}
use offlinepush.Interceptor.Switching.{Encodes, published, replay, permit-on_events}

abbrev cfg : RegisterConfig
cfg = (dev_config "pod0").register

pair_codec-Encodes : Encodes pair_codec
pair_codec-Encodes = record { text = λ p. (_, refl) }

abbrev changes : List (String × Bool)
changes = ("card", false) ∷ ("weather", false) ∷ ("card", true) ∷ []

permit-on_events_example :
    permit (on_events pair_codec (map (published cfg pair_codec) changes) new_interceptor) "weather"
    ≡ replay "weather" changes (permit new_interceptor "weather")
permit-on_events_example =
    permit-on_events cfg pair_codec pair_codec-RoundTrips pair_codec-Encodes changes new_interceptor
      "weather"
