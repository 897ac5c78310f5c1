-- ===== src/Tests/Shards.antt =====
-- A scheduler with one wheel.
use long_gw.Tests.Data.{online}
use long_gw.Base.{ℕ, ◌≡◌, refl, List, [], ◌∷◌, true, str_eq, if◌then◌else◌, arith, lit}
use long_gw.Timer.{Task, Wheel, new_wheel, shard, sharded_schedule, sharded_cancel, heartbeat}
use long_gw.Timer.Live.{item_of, new_wheel-IsTracked}
use long_gw.Timer.Shards.{AreTracked, live_in, sharded_cancel-live, sharded_schedule-live}
use long_gw.Base.Dict.{lookup}
use long_gw.World.{World}

abbrev beat : Task ℕ
beat = record { key = lit "p"; kind = heartbeat; due_at = 10; payload = 1; has_handler = true }

abbrev one_wheel : List (Wheel ℕ)
one_wheel = new_wheel ∷ []

-- The beat is scheduled.
abbrev beating : List (Wheel ℕ)
beating = (sharded_schedule 5 beat one_wheel).0

abbrev timed : World
timed = record online { timer = new_wheel ∷ [] }

sharded_schedule-live_example :
    let after = (sharded_schedule 5 beat one_wheel).0 in
    AreTracked after
    × (live_in (lit "p") after ≡ (
        if str_eq beat.key (lit "p")
        then item_of 5 beat (shard beat.key one_wheel) ∷ []
        else live_in (lit "p") one_wheel))
unfolding str_eq lookup
sharded_schedule-live_example =
    sharded_schedule-live 5 beat (lit "p") one_wheel ((new_wheel-IsTracked ℕ, tt)) (omega arith)
      refl refl

sharded_cancel-live_example :
    let after = (sharded_cancel (lit "p") beating).0 in
    AreTracked after
    × (live_in (lit "p") after
        ≡ (if str_eq (lit "p") (lit "p") then [] else live_in (lit "p") beating))
unfolding str_eq lookup
sharded_cancel-live_example =
    sharded_cancel-live (lit "p") (lit "p") beating
      ((sharded_schedule-live 5 beat (lit "p") one_wheel (new_wheel-IsTracked ℕ, tt) (omega arith)
        refl refl).0)
      refl
