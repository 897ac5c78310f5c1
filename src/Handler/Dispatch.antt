-- ===== src/Handler/Dispatch.antt =====
-- What `Dispatch` does with each kind of frame.
use long_gw.Base.{
  ℕ, ◌<◌, ◌≡◌, Option-cases, inl, inr, refl, [], ◌∷◌, ◌++◌, Bool, true, false, Option, none, some,
  is_some, Str, Bytes, lit, length, arith,
}
use long_gw.Connection.{is_active, conn_submit, write_channel_size, next_seq}
use long_gw.Worker.{alloc}
use long_gw.Session.Close.{IsGone, close_session-closes}
use long_gw.World.{World, Message, ping, pong, kick, business, Outcome, done, panic, world_of}
use long_gw.Pipeline.{Flow, running, panicked}
use long_gw.Pipeline.Uplink.{UplinkCtx, uplink_run}
use long_gw.Pipeline.Uplink.Submission.{is_running, uplink_run-ends}
use long_gw.Handler.{frame, handle_heartbeat, handle_logout, flow_outcome, handle, dispatch}

abbrev pub returns : {A : Type 0} → Outcome A → Bool
returns (done a w) = true
returns (panic w) = false

-- The frames that the gateway serves: pings, business frames, and kicks with a trace context.
abbrev pub is_served : Message → Bool
is_served msg = elim msg.kind [
  | ping ↦ true
  | business ↦ true
  | kick ↦ is_some msg.trace
  | _ ↦ false
]

conn_submit-sessions : (c m : ℕ) (w : World) → (conn_submit c m w).1.sessions ≡ w.sessions
unfolding conn_submit
conn_submit-sessions c m w = ground arith

flow_outcome-returns : (f : Flow UplinkCtx) → is_running f ≡ true → returns (flow_outcome f) ≡ true
flow_outcome-returns (running ctx w) e = refl
flow_outcome-returns (panicked ctx w) e = e

module _ (encode : ℕ → Str → Bytes) (limiter : Option (Str → Str → Bool)) (nanos : ℕ) where
  -- The dispatch of a frame returns exactly for a ping, a business frame, and a kick with a
  -- trace context; on any other frame it panics.
  pub dispatch-returns :
      (s c m : ℕ) (w : World)
      → returns (dispatch encode limiter nanos s c m w) ≡ is_served (w.msgs m)
  unfolding dispatch handle handle_logout
  dispatch-returns s c m w = ground (
    arith,
    flow_outcome-returns (uplink_run encode limiter nanos s c m w)
        (uplink_run-ends encode limiter nanos s c m w),
  )

  -- A ping over an active connection with room is answered: a new message, a pong with the
  -- connection's next sequence number, becomes the last of its channel.
  pub dispatch-pongs :
      (s c m : ℕ) (w : World)
      → (w.msgs m).kind ≡ ping
      → is_active (w.conns c) ≡ true
      → length (w.conns c).write_ch < write_channel_size
      → let after = world_of (dispatch encode limiter nanos s c m w) in
        ((after.conns c).write_ch ≡ (w.conns c).write_ch ++ (w.next_msg ∷ []))
        × (after.msgs w.next_msg
            ≡ record (frame pong [] none (lit "pong")) { seq_id = next_seq (w.conns c) })
  unfolding dispatch handle handle_heartbeat conn_submit
  dispatch-pongs s c m w k a l = (ground arith, ground arith)

  -- A kick from a client, with a trace context, on a session that is not closed yet, closes it: it
  -- waits for no ACK any more, and the router does not have it under its user and device.
  pub dispatch-logs_out :
      (s c m : ℕ) (w : World)
      → (w.msgs m).kind ≡ kick
      → is_some (w.msgs m).trace ≡ true
      → (w.sessions s).done_once ≡ false
      → IsGone s
          (w.sessions s).user_id
          (w.sessions s).device_id
          (world_of (dispatch encode limiter nanos s c m w))
  unfolding dispatch handle handle_logout
  dispatch-logs_out s c m w k t h = elim (Option-cases ((w.msgs m).trace)) [
    | inl n ↦ ground (arith, n, t)
    | inr (id, e) ↦
        let w0 = alloc (frame kick (w.msgs m).msg_id (some id) []) w in
        let w1 = (conn_submit c w.next_msg w0).1 in
        let p = conn_submit-sessions c w.next_msg w0 in
        ground (arith, k, e, p, close_session-closes s w1)
  ]
