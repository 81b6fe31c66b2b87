-- ===== src/Producer/Task.antt =====
-- internal/component/producer.go, doTask: one goroutine of an errgroup for each device type of the
-- task that the pod is responsible for. The goroutines share the database, the broker and the gauge;
-- a step is one round of the loop of one of them. slice.InterSet is a parameter.
pub mod Readers
pub mod Sent
pub mod Owed
pub mod Delivered
pub mod Ending
pub mod Hope
pub mod Samples
mod Tests
use offlinepush.Base.{
  ℕ, ◌≡◌, List, [], ◌∷◌, ◌++◌, map, length, String, Option, none, some, Bool, true, false, ◌&&◌,
  if◌then◌else◌,
}
use offlinepush.Base.Int.{ℤ, pos, ltb_ℤ}
use offlinepush.Base.Int64.{◌+₆₄◌, ◌*₆₄◌}
use offlinepush.Base.Result.{Error}
use offlinepush.Config.{PushConfig}
use offlinepush.Counter.{Counter, Access, hoped, add_hope_count}
use offlinepush.Dao.{Gorm, Cursor}
use offlinepush.Producer.{ProducerMessage, World, round, batch_size}

-- A goroutine: its device type and its variables `i` and `cursor`, and what it has returned.
pub record Reader : Type 0 where
  pub typ : String
  pub i : ℤ
  pub cursor : Cursor
  pub result : Option (Option Error)

pub record Task (D K : Type 0) : Type 0 where
  pub readers : List Reader
  pub world : World D K

abbrev pub reader : String → Reader
reader t = record { typ = t; i = pos 0; cursor = record { position = pos 0 }; result = none }

-- `slice.InterSet(p.responsibleTypes, cfg.DeviceTypeList)`, and a goroutine for each type of it
unfoldable pub begin :
    {D K : Type 0}
    → (List String → List String → List String)
    → List String
    → PushConfig
    → World D K
    → Task D K
begin inter_set responsible cfg w = record {
  readers = map reader (inter_set responsible cfg.device_type_list);
  world = w;
}

-- The goroutine after its round: an error ends it.
unfoldable pub after_round : Reader → Option Error → Cursor → Reader
after_round r none cursor = record r { i = r.i +₆₄ pos batch_size; cursor = cursor }
after_round r (some e) cursor = record r { cursor = cursor; result = some (some e) }

module _ {D K : Type 0} (gorm : Gorm D) (send : List ProducerMessage → K → Option Error × K)
    (cfg : PushConfig) where
  unfoldable pub next : Bool → Reader → World D K → Reader × World D K
  unfolding after_round
  next true r w =
      let (e, (cursor', w')) = round gorm send cfg.topic r.typ cfg.num r.i r.cursor w in
      (after_round r e cursor', w')
  next false r w = (record r { result = some none }, w)

  -- `i < num`, and the round or the return
  unfoldable pub advance : Reader → World D K → Reader × World D K
  unfolding next
  advance r w = next (ltb_ℤ r.i cfg.num) r w

  pub data Step : Task D K → Task D K → Type 0 where
    reads :
        {t : Task D K} (before : List Reader) (r : Reader) (after : List Reader)
        → t.readers ≡ before ++ (r ∷ after)
        → r.result ≡ none
        → Step t (record {
          readers = before ++ ((advance r t.world).0 ∷ after);
          world = (advance r t.world).1;
        })

  pub data Reach (t : Task D K) : Task D K → Type 0 where
    here : Reach t t
    further : {u v : Task D K} → Reach t u → Step u v → Reach t v

abbrev pub succeeded : Reader → Bool
succeeded r = elim r.result [ none ↦ false | some e ↦ elim e [ none ↦ true | some f ↦ false ] ]

abbrev pub all_succeeded : List Reader → Bool
all_succeeded [] = true
all_succeeded (r ∷ rs) = succeeded r && all_succeeded rs

-- `eg.Wait()` after every goroutine has returned: the hope count grows only if there was no error.
unfoldable pub finish : {D K : Type 0} → PushConfig → Task D K → Counter → Counter
unfolding add_hope_count ◌*₆₄◌
finish cfg t c =
    if all_succeeded t.readers then add_hope_count c (pos (length t.readers) *₆₄ cfg.num) else c

-- The same as accesses to the counter that the goroutines of a pod share.
unfoldable pub hope_accesses : PushConfig → List Reader → List Access
unfolding ◌*₆₄◌
hope_accesses cfg rs = if all_succeeded rs then hoped (pos (length rs) *₆₄ cfg.num) ∷ [] else []
