-- ===== src/System/Calls.antt =====
-- The calls of the scanner, the sessions and the registry keep an invariant of the world.
use long_gw.Base.{ℕ, ◌≡◌, refl, List, [], ◌∷◌, Str, arith, Option-cases, inl, inr}
use long_gw.Base.Dict.{insert}
use long_gw.Timer.Shards.{AreTracked, sharded_schedule-AreTracked}
use long_gw.World.{Deps, World, Message, world_of, put_msg, put_session}
use long_gw.Connection.{conn_submit}
use long_gw.Scanner.{track, forget_ack, ack_done, cancel_all, cancel_timers}
use long_gw.Scanner.Timers.{ack_task, ack_key-ne-nil, ack_done-timers_of, cancel_all-timers_of}
use long_gw.Session.{handle_undelivered, record_delivered, submit}
use long_gw.System.Keeps.{Keeps, SameStores, SameStores-SameParts, stores_keep, put_session_keeps}

module _ {I : World → Type 0} {allowed : Deps → Type 0} (keeps : Keeps I allowed) where
  track-frame : (m : Message) (id : Str) (w : World) → SameStores w (track m id w)
  unfolding track
  track-frame m id w = ground arith

  track-AreTracked :
      (m : Message) (id : Str) (w : World) → AreTracked w.timer → AreTracked (track m id w).timer
  unfolding track
  track-AreTracked m id w t = ground (
    arith,
    t,
    sharded_schedule-AreTracked w.clock (ack_task id m w) w.timer t (ack_key-ne-nil id m.msg_id),
  )

  pub track_keeps : (m : Message) (id : Str) (w : World) → I w → I (track m id w)
  track_keeps m id w h =
      keeps.timers w _ (SameStores-SameParts w (track m id w) (track-frame m id w))
        (track-AreTracked m id w) h

  forget_ack-frame :
      (id m : Str) (w : World)
      → SameStores w (forget_ack id m w) × ((forget_ack id m w).timer ≡ w.timer)
  unfolding forget_ack
  forget_ack-frame id m w = ground arith

  pub forget_ack_keeps : (id m : Str) (w : World) → I w → I (forget_ack id m w)
  forget_ack_keeps id m w h = let f = forget_ack-frame id m w in stores_keep keeps w _ f.0 f.1 h

  ack_done-frame : (m id : Str) (w : World) → SameStores w (ack_done m id w)
  unfolding ack_done forget_ack
  ack_done-frame m id w = ground arith

  pub ack_done_keeps : (m id : Str) (w : World) → I w → I (ack_done m id w)
  ack_done_keeps m id w h =
      keeps.timers w _ (SameStores-SameParts w (ack_done m id w) (ack_done-frame m id w))
        (λ a. (ack_done-timers_of id m m w a).0) h

  cancel_timers-frame :
      (id : Str) (ms : List Str) (w : World) → SameStores w (cancel_timers id ms w)
  unfolding cancel_timers
  cancel_timers-frame id [] w = (refl, refl, refl, refl)
  cancel_timers-frame id (m ∷ ms) w = cancel_timers-frame id ms _

  cancel_all-frame : (id : Str) (w : World) → SameStores w (cancel_all id w)
  unfolding cancel_all
  cancel_all-frame id w = cancel_timers-frame id _ _

  pub cancel_all_keeps : (id : Str) (w : World) → I w → I (cancel_all id w)
  cancel_all_keeps id w h =
      keeps.timers w _ (SameStores-SameParts w (cancel_all id w) (cancel_all-frame id w))
        (λ a. (cancel_all-timers_of id [] w a).0) h

  handle_undelivered-frame :
      (s m : ℕ) (w : World)
      → let w' = world_of (handle_undelivered s m w) in SameStores w w' × (w'.timer ≡ w.timer)
  unfolding handle_undelivered
  handle_undelivered-frame s m w = ground arith

  handle_undelivered_keeps : (s m : ℕ) (w : World) → I w → I (world_of (handle_undelivered s m w))
  handle_undelivered_keeps s m w h =
      let f = handle_undelivered-frame s m w in stores_keep keeps w _ f.0 f.1 h

  pub put_msg_keeps : (m : ℕ) (msg : Message) (w : World) → I w → I (put_msg m msg w)
  put_msg_keeps m msg w h = stores_keep keeps w _ (refl, refl, refl, refl) refl h

  record_delivered_keeps : (s m : ℕ) (w : World) → I w → I (record_delivered s m w)
  unfolding record_delivered
  record_delivered_keeps s m w h =
      let sess = w.sessions s in
      let seen = record sess { last_delivered_seq = (w.msgs m).seq_id } in
      let pending = record seen {
        pending_acks =
            insert (w.msgs m).msg_id (record { msg = m; retry_count = 0; last_retry_at = w.clock })
              sess.pending_acks;
      } in
      ground (
        arith,
        put_session_keeps keeps s seen w refl h,
        track_keeps (w.msgs m) sess.session_id (put_session s pending w)
            (put_session_keeps keeps s pending w refl h),
      )

  -- A message is handed to a session.
  pub submit_keeps : (s m : ℕ) (w : World) → I w → I (world_of (submit s m w))
  unfolding submit
  submit_keeps s m w h = elim (Option-cases ((w.sessions s).conn)) [
    | inl e ↦ ground (arith, e, handle_undelivered_keeps s m w h)
    | inr (c, e) ↦
        let w' = (conn_submit c m w).1 in
        let h' = keeps.sends c m w h in
        ground (
          arith,
          e,
          handle_undelivered_keeps s m w h,
          handle_undelivered_keeps s m w' h',
          record_delivered_keeps s m w' h',
        )
  ]
