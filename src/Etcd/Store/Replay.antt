-- ===== src/Etcd/Store/Replay.antt =====
-- A client that keeps what was put and deleted and replays it, to show that `IsStore` can hold.
use offlinepush.Base.{◌≡◌, List, [], ◌∷◌, String, Option, none, some}
use offlinepush.Base.Counts.{IsDistinct}
use offlinepush.Base.Dict.{Dict, insert, delete, keys, lookup-insert, lookup-delete}
use offlinepush.Base.Keys.{insert-IsDistinct, delete-IsDistinct}
use offlinepush.Base.Result.{ok}
use offlinepush.Etcd.{Client}
use offlinepush.Etcd.Store.{values, IsStore}

abbrev pub Log : Type 0
Log = List (String × Option String)

abbrev pub replay : Log → Dict String
replay [] = []
replay ((k, none) ∷ w) = delete k (replay w)
replay ((k, some v) ∷ w) = insert k v (replay w)

pub replay-IsDistinct : (w : Log) → IsDistinct (keys (replay w))
replay-IsDistinct [] = tt
replay-IsDistinct ((k, none) ∷ w) = delete-IsDistinct k (replay w) (replay-IsDistinct w)
replay-IsDistinct ((k, some v) ∷ w) = insert-IsDistinct k v (replay w) (replay-IsDistinct w)

abbrev pub log_client : Client Log
log_client = record {
  put = λ k v w. (none, (k, some v) ∷ w);
  delete = λ k w. (none, (k, none) ∷ w);
  get_prefix = λ prefix w. (ok (values prefix (replay w)), w);
  close_session = λ w. (none, w);
  close = λ w. (none, w);
}

pub log_gets :
    (prefix : String) (w : Log) (kvs : List String)
    → (log_client.get_prefix prefix w).0 ≡ ok kvs
    → kvs ≡ values prefix (replay w)
log_gets prefix w kvs got = cc

abbrev pub log_client-IsStore : IsStore log_client
log_client-IsStore = record {
  view = replay;
  single = replay-IsDistinct;
  puts = λ k v w stored j. lookup-insert k j v (replay w);
  deletes = λ k w gone j. lookup-delete k j (replay w);
  gets = log_gets;
}
