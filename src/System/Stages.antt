-- ===== src/System/Stages.antt =====
-- Chains of stages keep an invariant of the world: a chain does, where each of its stages does.
use long_gw.Base.{List, [], ◌∷◌, All}
use long_gw.World.{World}
use long_gw.Pipeline.{flow_world, Flow, Stage, run_chain}

module _ (I : World → Type 0) {C : Type 0} where
  -- What is called with a context and a world keeps the invariant of the world.
  abbrev pub Preserves : (C → World → Flow C) → Type 0
  Preserves next = (ctx : C) (w : World) → I w → I (flow_world (next ctx w))

  -- A stage does, where what comes behind it does.
  abbrev pub IsSafe : Stage C → Type 0
  IsSafe stage = (next : C → World → Flow C) → Preserves next → Preserves (stage next)

  pub run_chain-Preserves :
      (stages : List (Stage C)) → All IsSafe stages → Preserves (run_chain stages)
  unfolding run_chain
  run_chain-Preserves [] a ctx w h = h
  run_chain-Preserves (stage ∷ stages) a ctx w h =
      a.0 (run_chain stages) (run_chain-Preserves stages a.1) ctx w h
