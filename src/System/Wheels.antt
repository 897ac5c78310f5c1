-- ===== src/System/Wheels.antt =====
-- The turns of the wheels' loops keep an invariant of the world.
use long_gw.Base.{ℕ, [], refl, get_elem?, Option-cases, inl, inr}
use long_gw.Timer.{run_turn, next_task}
use long_gw.Timer.Shards.{AreTracked-set, AreTracked-get}
use long_gw.Timer.Turns.{next_task-live, run_turn-IsTracked}
use long_gw.World.{Deps, World}
use long_gw.System.{wheel_next, wheel_turn}
use long_gw.System.Keeps.{Keeps}

module _ {I : World → Type 0} {allowed : Deps → Type 0} (keeps : Keeps I allowed) where
  pub wheel_next_keeps : (i : ℕ) (w : World) → I w → I (wheel_next i w)
  unfolding wheel_next
  wheel_next_keeps i w h = elim (Option-cases (get_elem? w.timer i)) [
    | inl n ↦ rw (wheel_next, n) h
    | inr (v, e) ↦
        rw (wheel_next, e)
          (keeps.timers w _ (refl, refl, refl, λ s. refl)
            (λ t.
              AreTracked-set i (next_task v).0 w.timer t
                (next_task-live [] v (AreTracked-get i v w.timer t e)).0)
            h)
  ]

  pub wheel_turn_keeps : (i : ℕ) (w : World) → I w → I (wheel_turn i w).0
  unfolding wheel_turn
  wheel_turn_keeps i w h = elim (Option-cases (get_elem? w.timer i)) [
    | inl n ↦ rw (wheel_turn, n) h
    | inr (v, e) ↦
        rw (wheel_turn, e)
          (keeps.timers w _ (refl, refl, refl, λ s. refl)
            (λ t.
              AreTracked-set i (run_turn w.clock v).0 w.timer t
                (run_turn-IsTracked w.clock v (AreTracked-get i v w.timer t e)))
            h)
  ]
