-- ===== src/Pipeline.antt =====
-- Chains of stages, gateway/internal/pipeline/pipeline.go, over a context `C` and the shared world.
pub mod Downlink
pub mod Uplink
use long_gw.Base.{List, [], ◌∷◌, ◌++◌, Option, none, some, Str, ◌≡◌, refl}
use long_gw.World.{World}

-- What a call of a stage leaves: the context and the world, and whether it panics.
pub data Flow (C : Type 0) : Type 0 where
  running : C → World → Flow C
  panicked : C → World → Flow C

-- A stage is handed `next`, and goes on by calling it. The gateway's stages call it once at most.
abbrev pub Stage : Type 0 → Type 0
Stage C = (C → World → Flow C) → C → World → Flow C

module _ {C : Type 0} where
  -- `Chain.Run`: the closure `run` of the source moves to the next stage whenever it is called, and
  -- behind the last one does nothing.
  unfoldable pub run_chain : List (Stage C) → C → World → Flow C
  run_chain [] ctx w = running ctx w
  run_chain (stage ∷ stages) ctx w = stage (run_chain stages) ctx w

  -- `Append`
  unfoldable pub append_stages : List (Stage C) → List (Stage C) → List (Stage C)
  append_stages chain stages = chain ++ stages

  -- What comes after a call of `next`.
  abbrev pub afterwards : Flow C → (C → World → Flow C) → Flow C
  afterwards (running ctx w) f = f ctx w
  afterwards (panicked ctx w) f = panicked ctx w

  -- What a run leaves.
  abbrev pub flow_ctx : Flow C → C
  flow_ctx (running ctx w) = ctx
  flow_ctx (panicked ctx w) = ctx

  abbrev pub flow_world : Flow C → World
  flow_world (running ctx w) = w
  flow_world (panicked ctx w) = w
