-- ===== src/System/Keeps.antt =====
-- What an invariant of the world has to keep, so that every call of the gateway keeps it: the laws of
-- the single writes. The other files of System use an invariant by these laws.
use long_gw.Base.{true, ℕ, ◌≤◌, ◌≡◌, ap, refl, arith, Str, length}
use long_gw.Router.{LocalRouter}
use long_gw.Router.Membership.{IsWellFormed, Call, step, step-IsWellFormed}
use long_gw.Timer.Shards.{AreTracked}
use long_gw.World.{World, Conn, Session, Deps, world_of, put_session, put_conn, set_router}
use long_gw.Connection.{conn_submit, write_next, write_channel_size}
use long_gw.Worker.{take_upstream, take_downstream, submit_upstream, manager_submit_downstream}

-- Every session has the dependencies that it had.
abbrev pub SameDeps : World → World → Type 0
SameDeps w w' = (s : ℕ) → (w'.sessions s).deps ≡ (w.sessions s).deps

-- Two worlds that differ in messages, the rest of the sessions, the scanner, the store, the clock and
-- the timer at most.
abbrev pub SameParts : World → World → Type 0
SameParts w w' =
    (w'.conns ≡ w.conns) × (w'.pools ≡ w.pools) × (w'.router ≡ w.router) × SameDeps w w'

-- An invariant `I`, of worlds whose new sessions have dependencies that are `allowed`.
pub record Keeps (I : World → Type 0) (allowed : Deps → Type 0) : Type 0 where
  pub timers :
      (w w' : World) → SameParts w w' → (AreTracked w.timer → AreTracked w'.timer) → I w → I w'
  pub routers :
      (r : LocalRouter) (w : World)
      → (IsWellFormed w.router → IsWellFormed r)
      → I w
      → I (set_router r w)
  pub connects :
      (c : ℕ) (conn : Conn) (w : World)
      → (length (w.conns c).write_ch ≤ write_channel_size
          → length conn.write_ch ≤ write_channel_size)
      → I w
      → I (put_conn c conn w)
  pub makes :
      (s : ℕ) (sess : Session) (w : World) → allowed sess.deps → I w → I (put_session s sess w)
  pub acks : (d : Deps) → allowed d → allowed (record d { has_acker = true })
  pub sends : (c m : ℕ) (w : World) → I w → I (conn_submit c m w).1
  pub writes : (c : ℕ) (w : World) → I w → I (write_next c w).0
  pub takes :
      (biz : Str) (w : World) → I w → I (take_upstream biz w).0 × I (take_downstream biz w).0
  pub submits : (s m : ℕ) (w : World) → I w → I (world_of (submit_upstream s m w))
  pub pushes : (biz : Str) (m : ℕ) (w : World) → I w → I (manager_submit_downstream biz m w).0

-- A call that leaves the connections, the pools, the router and the sessions alone.
abbrev pub SameStores : World → World → Type 0
SameStores w w' =
    (w'.conns ≡ w.conns)
    × (w'.pools ≡ w.pools)
    × (w'.router ≡ w.router)
    × (w'.sessions ≡ w.sessions)

pub SameStores-SameParts : (w w' : World) → SameStores w w' → SameParts w w'
SameStores-SameParts w w' (c, p, r, s) = (c, p, r, λ i. ap (λ (f : ℕ → Session). (f i).deps) s)

module _ {I : World → Type 0} {allowed : Deps → Type 0} (keeps : Keeps I allowed) where
  -- The same parts, with the same timer.
  pub same_keeps : (w w' : World) → SameParts w w' → w'.timer ≡ w.timer → I w → I w'
  same_keeps w w' e t h = keeps.timers w w' e (λ a. rw t a) h

  -- A call of the router on the world.
  pub call_keeps : (c : Call) (w : World) → I w → I (set_router (step c w.router) w)
  call_keeps c w h = keeps.routers _ w (step-IsWellFormed c w.router) h

  pub stores_keep : (w w' : World) → SameStores w w' → w'.timer ≡ w.timer → I w → I w'
  stores_keep w w' e t h = same_keeps w w' (SameStores-SameParts w w' e) t h

  -- A write to a session that keeps its dependencies.
  pub put_session_keeps :
      (s : ℕ) (sess : Session) (w : World)
      → sess.deps ≡ (w.sessions s).deps
      → I w
      → I (put_session s sess w)
  put_session_keeps s sess w e h = same_keeps w _ (refl, refl, refl, λ i. ground (arith, e)) refl h
