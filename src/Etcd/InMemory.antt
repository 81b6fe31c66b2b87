-- ===== src/Etcd/InMemory.antt =====
-- A client that keeps the pairs in a list, to show that `ReadsPuts` can hold.
use text.Mathlib.Text.{starts_with}
use mathlib.Core.List.{Memᴰ}
use offlinepush.Base.{◌≡◌, List, [], ◌∷◌, String, none, true, if◌then◌else◌}
use offlinepush.Base.Result.{ok}
use offlinepush.Etcd.{Client}
use offlinepush.Etcd.Listing.{ReadsPuts}

abbrev values : String → List (String × String) → List String
values prefix [] = []
values prefix ((k, v) ∷ w) =
    let rest = values prefix w in if starts_with k prefix then v ∷ rest else rest

abbrev pub list_client : Client (List (String × String))
list_client = record {
  put = λ k v w. (none, (k, v) ∷ w);
  delete = λ k w. (none, w);
  get_prefix = λ prefix w. (ok (values prefix w), w);
  close_session = λ w. (none, w);
  close = λ w. (none, w);
}

head_mem :
    (k v prefix : String) (w : List (String × String)) (kvs : List String)
    → starts_with k prefix ≡ true
    → ok (values prefix ((k, v) ∷ w)) ≡ ok kvs
    → Memᴰ v kvs
head_mem k v prefix w [] within got = cc (rw within at got)
head_mem k v prefix w (x ∷ kvs) within got = Memᴰ.head (cc (rw within at got))

pub list_client-ReadsPuts : ReadsPuts list_client
list_client-ReadsPuts = record {
  read = λ k v prefix w kvs stored within got. head_mem k v prefix w kvs within got;
}
