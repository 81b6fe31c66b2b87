-- ===== src/Etcd/Subscription.antt =====
-- pkg/registry/etcd/etcd.go: the goroutine of `Subscribe`, its reader, and `Close`, step by step. The
-- function `subscribe` of Etcd says what the reader gets when it takes everything.
pub mod Prefix
use offlinepush.Base.{List, [], ◌∷◌, ◌++◌, Bool, true, false, Option, none, some, ◌≡◌}
use offlinepush.Base.Result.{Error}
use offlinepush.Json.{Codec}
use offlinepush.Registry.{ServiceInstance, Event}
use offlinepush.Etcd.{WatchEvent, WatchResponse, convert_all}

-- The responses that the goroutine has read, the events of the last one that it has still to send,
-- the events that the reader got, whether the context is cancelled, and whether the goroutine ended.
pub record Watch : Type 0 where
  pub read : List WatchResponse
  pub queue : List Event
  pub got : List Event
  pub canceled : Bool
  pub ended : Bool

abbrev pub new_watch : Watch
new_watch = record { read = []; queue = []; got = []; canceled = false; ended = false }

-- `resp.Err()` with the events: a failed response is passed over.
unfoldable pub events_of : Codec ServiceInstance → Option Error → List WatchEvent → List Event
unfolding convert_all
events_of codec (some failure) events = []
events_of codec none events = convert_all codec events

-- A response comes from the channel: `return` if it is canceled.
unfoldable pub after_response : Bool → Codec ServiceInstance → WatchResponse → Watch → Watch
unfolding events_of
after_response true codec r w = record w { read = w.read ++ r ∷ []; ended = true }
after_response false codec r w = record w {
  read = w.read ++ r ∷ [];
  queue = events_of codec r.failure r.events;
}

unfoldable pub on_response : Codec ServiceInstance → WatchResponse → Watch → Watch
unfolding after_response
on_response codec r w = after_response r.canceled codec r w

-- `case res <- event:`
unfoldable pub send_event : Event → List Event → Watch → Watch
send_event e rest w = record w { queue = rest; got = w.got ++ e ∷ [] }

-- `Close` calls the watch's cancel function.
unfoldable pub cancel : Watch → Watch
cancel w = record w { canceled = true }

-- `case <-ctx.Done(): return`, or the end of the channel, which the client closes then
unfoldable pub quit : Watch → Watch
quit w = record w { queue = []; ended = true }

pub data Step (codec : Codec ServiceInstance) : Watch → Watch → Type 0 where
  responds :
      {w : Watch} (r : WatchResponse)
      → w.ended ≡ false
      → w.queue ≡ []
      → Step codec w (on_response codec r w)
  sends :
      {w : Watch} (e : Event) {rest : List Event}
      → w.queue ≡ e ∷ rest
      → Step codec w (send_event e rest w)
  cancels : {w : Watch} → Step codec w (cancel w)
  quits : {w : Watch} → w.canceled ≡ true → w.ended ≡ false → Step codec w (quit w)

pub data Reach (codec : Codec ServiceInstance) : Watch → Type 0 where
  here : Reach codec new_watch
  next : {v w : Watch} → Reach codec v → Step codec v w → Reach codec w
