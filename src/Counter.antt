-- ===== src/Counter.antt =====
-- internal/component/counter.go: how many messages the pod hopes to push and has pushed.
-- The two int64 fields are shared by all goroutines; an `Access` is one atomic operation on them.
pub mod Counting
use Prim.Native.String.{◌++◌ as concat}
use offlinepush.Base.{List, [], ◌∷◌, Option, String}
use offlinepush.Base.Int.{ℤ, pos}
use offlinepush.Base.Int64.{◌+₆₄◌}
use offlinepush.Base.Decimal.{decimal}
use offlinepush.Config.{RegisterConfig}
use offlinepush.Base.Result.{Error, Result, ok, err}
use offlinepush.Registry.{ServiceInstance, Event, Registry}

pub record Counter : Type 0 where
  pub hope_count : ℤ
  pub pushed_count : ℤ

abbrev pub new_counter : Counter
new_counter = record { hope_count = pos 0; pushed_count = pos 0 }

unfoldable pub incr_pushed_count : Counter → Counter
unfolding ◌+₆₄◌
incr_pushed_count c = record c { pushed_count = c.pushed_count +₆₄ pos 1 }

unfoldable pub add_hope_count : Counter → ℤ → Counter
unfolding ◌+₆₄◌
add_hope_count c delta = record c { hope_count = c.hope_count +₆₄ delta }

-- The two stores of `ListenReset`, each atomic by itself.
unfoldable pub store_hope : Counter → ℤ → Counter
store_hope c v = record c { hope_count = v }

unfoldable pub store_pushed : Counter → ℤ → Counter
store_pushed c v = record c { pushed_count = v }

-- The goroutines' accesses, in the order in which the memory sees them.
pub data Access : Type 0 where
  pushed : Access
  hoped : ℤ → Access
  reset_hope reset_pushed : Access

unfoldable pub access : Counter → Access → Counter
unfolding incr_pushed_count add_hope_count store_hope store_pushed
access c pushed = incr_pushed_count c
access c (hoped delta) = add_hope_count c delta
access c reset_hope = store_hope c (pos 0)
access c reset_pushed = store_pushed c (pos 0)

unfoldable pub accesses : Counter → List Access → Counter
accesses c [] = c
accesses c (a ∷ as') = accesses (access c a) as'

-- `GetCount` loads one field after the other; other goroutines may access them in between.
unfoldable pub get_count : Counter → List Access → ℤ × ℤ
unfolding accesses
get_count c between = (c.hope_count, (accesses c between).pushed_count)

-- What `ListenReset` does for an event on its channel, whatever the event.
unfoldable pub on_reset : Counter → Counter
unfolding store_hope store_pushed
on_reset c = store_pushed (store_hope c (pos 0)) (pos 0)

-- The instance that `Upload` registers at a tick.
unfoldable pub upload_instance : RegisterConfig → Counter → List Access → ServiceInstance
unfolding get_count decimal
upload_instance cfg c between =
    let (hope, rel) = get_count c between in
    record {
      address = cfg.pod_name;
      service_name = cfg.read_count_key;
      weight = 0;
      note = concat "hopeCount:" (concat (decimal hope) (concat ",realCount:" (decimal rel)));
    }

-- `Upload` at a tick: an error of `Register` is logged.
unfoldable pub upload :
    {W : Type 0} → Registry W → RegisterConfig → Counter → List Access → W → Option Error × W
unfolding upload_instance
upload rg cfg c between w = rg.register (upload_instance cfg c between) w

-- The key that `ListenReset` subscribes to.
unfoldable pub reset_key : RegisterConfig → String
reset_key cfg = cfg.write_count_key

-- `ListenReset`: nothing is ever reset if the subscription fails, and else every event resets both
-- counts, until the context is done.
unfoldable pub on_resets : List Event → Counter → Counter
unfolding on_reset
on_resets [] c = c
on_resets (event ∷ events) c = on_resets events (on_reset c)

unfoldable pub listen_reset : Result (List Event) → Counter → Counter
unfolding on_resets
listen_reset (err e) c = c
listen_reset (ok events) c = on_resets events c
