-- ===== src/System/Sound.antt =====
-- The invariant of the world: the channels, the router and the timer are well formed.
use long_gw.Base.{Str, [], ℕ, ◌≤◌, ◌≡◌, refl, length, arith}
use long_gw.Router.{LocalRouter}
use long_gw.System.Keeps.{Keeps}
use long_gw.Router.Membership.{IsWellFormed}
use long_gw.Timer.Shards.{AreTracked}
use long_gw.World.{World, Conn, put_conn, set_router, put_session, world_of}
use long_gw.Connection.{conn_submit, write_next, write_channel_size}
use long_gw.Connection.Sending.{IsBounded, sending-IsBounded}
use long_gw.Worker.{
  take_upstream, take_downstream, manager_submit_downstream, manager_submit_upstream,
  submit_upstream,
}
use long_gw.Worker.Queues.{
  AreBounded, take-AreBounded, submit_upstream-AreBounded, submit_downstream-AreBounded,
}

-- No write channel and no channel of a worker pool holds more than its capacity, the router's maps
-- hold each key once, and every wheel's map and queue are consistent.
pub record Sound (w : World) : Type 0 where
  pub channels : IsBounded w
  pub pools : AreBounded w
  pub router : IsWellFormed w.router
  pub timers : AreTracked w.timer

unfoldable pub IsSound : World → Type 0
IsSound w = Sound w

-- Two worlds that differ in messages, sessions, the scanner, the store and the clock at most, with a
-- consistent scheduler.
timers-IsSound :
    (w w' : World)
    → (w'.conns ≡ w.conns) × (w'.pools ≡ w.pools) × (w'.router ≡ w.router)
    → AreTracked w'.timer
    → IsSound w
    → IsSound w'
unfolding IsSound AreBounded
timers-IsSound w w' (c, p, r) t h = record {
  channels = λ d. rw c (h.channels d);
  pools = rw p h.pools;
  router = rw r h.router;
  timers = t;
}

set_router-IsSound :
    (r : LocalRouter) (w : World) → IsWellFormed r → IsSound w → IsSound (set_router r w)
unfolding IsSound AreBounded
set_router-IsSound r w q h = record {
  channels = h.channels;
  pools = h.pools;
  router = q;
  timers = h.timers;
}

-- A call that writes the pools only.
pub pools-IsSound :
    (w w' : World)
    → AreBounded w'
    → IsSound w
    → w'.conns ≡ w.conns
    → w'.router ≡ w.router
    → w'.timer ≡ w.timer
    → IsSound w'
unfolding IsSound
pools-IsSound w w' q h c r t = record {
  channels = λ d. rw c (h.channels d);
  pools = q;
  router = rw r h.router;
  timers = rw t h.timers;
}

-- A call that writes the connections only.
channels-IsSound :
    (w w' : World)
    → IsBounded w'
    → IsSound w
    → w'.pools ≡ w.pools
    → w'.router ≡ w.router
    → w'.timer ≡ w.timer
    → IsSound w'
unfolding IsSound AreBounded
channels-IsSound w w' q h p r t = record {
  channels = q;
  pools = rw p h.pools;
  router = rw r h.router;
  timers = rw t h.timers;
}

pub IsSound-AreBounded : (w : World) → IsSound w → AreBounded w
unfolding IsSound
IsSound-AreBounded w h = h.pools

conn_submit-frame :
    (c m : ℕ) (w : World)
    → ((conn_submit c m w).1.pools ≡ w.pools)
      × ((conn_submit c m w).1.router ≡ w.router)
      × ((conn_submit c m w).1.timer ≡ w.timer)
unfolding conn_submit
conn_submit-frame c m w = ground arith

conn_submit-IsSound : (c m : ℕ) (w : World) → IsSound w → IsSound (conn_submit c m w).1
unfolding IsSound
conn_submit-IsSound c m w h =
    let f = conn_submit-frame c m w in
    channels-IsSound w _ (sending-IsBounded c m w h.channels).0 h f.0 f.1 f.2

write_next-frame :
    (c : ℕ) (w : World)
    → ((write_next c w).0.pools ≡ w.pools)
      × ((write_next c w).0.router ≡ w.router)
      × ((write_next c w).0.timer ≡ w.timer)
unfolding write_next
write_next-frame c w = ground arith

write_next-IsSound : (c : ℕ) (w : World) → IsSound w → IsSound (write_next c w).0
unfolding IsSound
write_next-IsSound c w h =
    let f = write_next-frame c w in
    channels-IsSound w _ (sending-IsBounded c 0 w h.channels).2 h f.0 f.1 f.2

-- A new connection, or a new state of one whose channel stays as it is or empty.
put_conn-IsSound :
    (c : ℕ) (conn : Conn) (w : World)
    → (length (w.conns c).write_ch ≤ write_channel_size → length conn.write_ch ≤ write_channel_size)
    → IsSound w
    → IsSound (put_conn c conn w)
unfolding IsSound
put_conn-IsSound c conn w l h =
    channels-IsSound w _ (λ d. ground (arith, h.channels d, h.channels c, l)) h refl refl refl

abbrev SameRest : World → World → Type 0
SameRest w w' = (w'.conns ≡ w.conns) × (w'.router ≡ w.router) × (w'.timer ≡ w.timer)

take-frame :
    (biz : Str) (w : World)
    → SameRest w (take_upstream biz w).0 × SameRest w (take_downstream biz w).0
unfolding take_upstream take_downstream
take-frame biz w = (ground arith, ground arith)

take-IsSound :
    (biz : Str) (w : World)
    → IsSound w
    → IsSound (take_upstream biz w).0 × IsSound (take_downstream biz w).0
take-IsSound biz w h =
    let b = take-AreBounded biz w (IsSound-AreBounded w h) in
    let (u, d) = take-frame biz w in
    (pools-IsSound w _ b.0 h u.0 u.1 u.2, pools-IsSound w _ b.1 h d.0 d.1 d.2)

submit-frame :
    (s m : ℕ) (biz : Str) (w : World)
    → SameRest w (world_of (submit_upstream s m w))
      × SameRest w (manager_submit_downstream biz m w).0
unfolding submit_upstream manager_submit_upstream manager_submit_downstream
submit-frame s m biz w = (ground arith, ground arith)

submit_upstream-IsSound :
    (s m : ℕ) (w : World) → IsSound w → IsSound (world_of (submit_upstream s m w))
submit_upstream-IsSound s m w h =
    let f = (submit-frame s m [] w).0 in
    pools-IsSound w _ (submit_upstream-AreBounded s m w (IsSound-AreBounded w h)) h f.0 f.1 f.2

submit_downstream-IsSound :
    (biz : Str) (m : ℕ) (w : World) → IsSound w → IsSound (manager_submit_downstream biz m w).0
submit_downstream-IsSound biz m w h =
    let f = (submit-frame 0 m biz w).1 in
    pools-IsSound w _ (submit_downstream-AreBounded biz m w (IsSound-AreBounded w h)) h f.0 f.1 f.2

-- The invariant is kept, whatever the dependencies of a new session.
pub IsSound-Keeps : Keeps IsSound (λ d. Unit)
unfolding IsSound
IsSound-Keeps = record {
  timers = λ w w' e t h. timers-IsSound w w' (e.0, e.1, e.2) (t h.timers) h;
  routers = λ r w q h. set_router-IsSound r w (q h.router) h;
  connects = put_conn-IsSound;
  makes = λ s sess w ok h. timers-IsSound w (put_session s sess w) (refl, refl, refl) h.timers h;
  acks = λ d ok. tt;
  sends = conn_submit-IsSound;
  writes = write_next-IsSound;
  takes = take-IsSound;
  submits = submit_upstream-IsSound;
  pushes = submit_downstream-IsSound;
}
