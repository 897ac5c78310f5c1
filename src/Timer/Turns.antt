-- ===== src/Timer/Turns.antt =====
-- A turn of the wheel's loop `run`: what it waits for, and what it hands out.
use long_gw.Base.{ℕ, ◌≡◌, refl, List, [], ◌∷◌, Str, All, arith}
use long_gw.Base.Dict.{Dict}
use long_gw.Timer.{Item, Wheel, drop_cancelled, next_task, run_turn}
use long_gw.Timer.Tracked.{Row, IsDistinct, IsTracked, live}
use long_gw.Timer.Live.{pop_due-IsTracked}

module _ {P : Type 0} where
  drop_cancelled-IsTracked :
      (ts : Dict ℕ) (next : ℕ) (q : List (Item P))
      → All (Row ts next) q
      → IsDistinct q
      → All (Row ts next) (drop_cancelled q) × IsDistinct (drop_cancelled q)
  unfolding drop_cancelled
  drop_cancelled-IsTracked ts next [] r d = (r, d)
  drop_cancelled-IsTracked ts next (x ∷ q) r d =
      ground (arith, r, d, drop_cancelled-IsTracked ts next q r.1 d.1)

  live-drop_cancelled : (k : Str) (q : List (Item P)) → live k (drop_cancelled q) ≡ live k q
  unfolding drop_cancelled
  live-drop_cancelled k [] = refl
  live-drop_cancelled k (x ∷ q) = ground (arith, live-drop_cancelled k q)

  -- Looking for the task to wait for keeps a wheel consistent, and every key its live items: what
  -- is thrown away was cancelled.
  pub next_task-live :
      (k : Str) (w : Wheel P)
      → IsTracked w
      → let after = (next_task w).0 in IsTracked after × (live k after.queue ≡ live k w.queue)
  unfolding next_task
  next_task-live k w t =
      let r = drop_cancelled-IsTracked w.tasks w.next_id w.queue t.0 t.1 in
      ((r.0, r.1, t.2), live-drop_cancelled k w.queue)

  -- A turn of the loop keeps a wheel consistent.
  pub run_turn-IsTracked : (now : ℕ) (w : Wheel P) → IsTracked w → IsTracked (run_turn now w).0
  unfolding run_turn
  run_turn-IsTracked now w t = pop_due-IsTracked now w t
