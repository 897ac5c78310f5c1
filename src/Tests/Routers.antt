-- ===== src/Tests/Routers.antt =====
-- The local router and the worker pools at concrete calls.
use long_gw.Tests.Data.{target, router_with}
use long_gw.Base.{◌≡◌, [], ◌∷◌, lit}
use long_gw.Router.{new_local_router, resolve}
use long_gw.Router.Membership.{
  membership, step, spec_step, step-spec_step, run, run-new-IsWellFormed, registers, joins,
}
use long_gw.Router.Resolve.{Answers, resolve-Answers}

step-spec_step_example :
    membership (step (joins (lit "r1") (target 0)) (router_with 0))
    ≡ spec_step (joins (lit "r1") (target 0)) (membership (router_with 0))
step-spec_step_example = step-spec_step (joins (lit "r1") (target 0)) (router_with 0)

resolve-Answers_example :
    Answers
      (run (registers (target 0) ∷ []) new_local_router)
      (lit "u1")
      (resolve (lit "u1") (run (registers (target 0) ∷ []) new_local_router))
resolve-Answers_example =
    resolve-Answers (lit "u1") (run (registers (target 0) ∷ []) new_local_router)
      (run-new-IsWellFormed (registers (target 0) ∷ []))
