-- ===== src/Cron/Idle.antt =====
-- What a scheduled task sends.
use offlinepush.Base.{◌≡◌, refl, ◌∙◌, List, [], ◌∷◌, map, String, Option, some, All, false}
use offlinepush.Base.Int.{pos, ltb_ℤ}
use offlinepush.Base.Dict.{lookup, lookup-All}
use offlinepush.Base.Result.{Error}
use offlinepush.Config.{PushConfig, push_map}
use offlinepush.Dao.{Gorm}
use offlinepush.Producer.{ProducerMessage, World}
use offlinepush.Producer.Task.{
  Reader, Task, reader, begin, next, advance, Step, reads, Reach, here, further,
}
use offlinepush.Producer.Task.Readers.{All-middle}

all-IsFresh : (types : List String) → All (λ (r : Reader). r.i ≡ pos 0) (map reader types)
all-IsFresh [] = tt
all-IsFresh (t ∷ types) = (refl, all-IsFresh types)

zero_num : All (λ (e : String × PushConfig). e.1.num ≡ pos 0) push_map
unfolding push_map
zero_num = (refl, (refl, (refl, tt)))

module _ {D K : Type 0} (gorm : Gorm D) (send : List ProducerMessage → K → Option Error × K)
    (cfg : PushConfig) (asked : cfg.num ≡ pos 0) where
  record IsIdle (w : World D K) (t : Task D K) : Type 0 where
    same : t.world ≡ w
    fresh : All (λ (r : Reader). r.i ≡ pos 0) t.readers

  at_once : (r : Reader) → r.i ≡ pos 0 → ltb_ℤ r.i cfg.num ≡ false
  at_once r i = rw (i, asked) refl

  advance-idle :
      (r : Reader) (w : World D K)
      → r.i ≡ pos 0
      → ((advance gorm send cfg r w).1 ≡ w) × ((advance gorm send cfg r w).0.i ≡ pos 0)
  unfolding advance next
  advance-idle r w i = rw (at_once r i) (refl, i)

  Step-IsIdle : {w : World D K} {t u : Task D K} → IsIdle w t → Step gorm send cfg t u → IsIdle w u
  Step-IsIdle {w} {t} h (reads before r after e running) =
      let (i, put) = All-middle (λ (r : Reader). r.i ≡ pos 0) before r after (rw e at h.fresh) in
      let (kept, i') = advance-idle r t.world i in
      record { same = kept ∙ h.same; fresh = put (advance gorm send cfg r t.world).0 i' }

  Reach-IsIdle :
      {w : World D K} {t u : Task D K} → IsIdle w t → Reach gorm send cfg t u → IsIdle w u
  Reach-IsIdle h here = h
  Reach-IsIdle h (further r s) = Step-IsIdle (Reach-IsIdle h r) s

-- No configuration of `PushMap` has a number of devices, so that a scheduled task, wherever its
-- goroutines stand, has read no row and sent no message: the database, the broker, the messages sent
-- and the gauge are those of before.
pub scheduled_sends_nothing :
    {D K : Type 0} (gorm : Gorm D) (send : List ProducerMessage → K → Option Error × K)
    (topic : String) (cfg : PushConfig) (inter_set : List String → List String → List String)
    (responsible : List String) (w : World D K) (t : Task D K)
    → lookup topic push_map ≡ some cfg
    → Reach gorm send cfg (begin inter_set responsible cfg w) t
    → t.world ≡ w
unfolding begin
scheduled_sends_nothing gorm send topic cfg inter_set responsible w t known r =
    let asked = lookup-All (λ (c : PushConfig). c.num ≡ pos 0) topic push_map zero_num known in
    (Reach-IsIdle gorm send cfg asked
      (record { same = refl; fresh = all-IsFresh (inter_set responsible cfg.device_type_list) })
      r).same
