-- ===== src/System/Sessions.antt =====
-- The calls of a session keep an invariant of the world.
use long_gw.Base.{ℕ, refl, List, [], ◌∷◌, true, Str, arith, Option-cases, inl, inr}
use long_gw.Base.Dict.{Dict, delete}
use long_gw.Router.{
  LocalRouter, Target, unregister_session, unregister_all, join_room, leave_room, subscribe,
  unsubscribe,
}
use long_gw.Router.Membership.{
  IsWellFormed, Call, unregisters_all, unregisters, joins, leaves, subscribes, unsubscribes, step,
  step-IsWellFormed,
}
use long_gw.World.{Deps, World, Pending, put_session, closed}
use long_gw.Connection.{close_conn}
use long_gw.Session.{
  target_of, join_rooms, subscribe_topics, bump_entry, retrack, flush_entry, flush_pending,
  attach_conn, detach_conn, ack, with_conn, session_join_room, session_leave_room,
  session_subscribe, session_unsubscribe, cut_connection, cancel_acks, give_up_device, close_body,
  close_session,
}
use long_gw.System.Calls.{track_keeps, ack_done_keeps, cancel_all_keeps}
use long_gw.System.Keeps.{Keeps, same_keeps, put_session_keeps, call_keeps}

module _ {I : World → Type 0} {allowed : Deps → Type 0} (keeps : Keeps I allowed) where
  join_rooms-IsWellFormed :
      (ks : List Str) (t : Target) (r : LocalRouter)
      → IsWellFormed r
      → IsWellFormed (join_rooms ks t r)
  unfolding join_rooms join_room step
  join_rooms-IsWellFormed [] t r h = h
  join_rooms-IsWellFormed (k ∷ ks) t r h =
      join_rooms-IsWellFormed ks t (join_room k t r) (step-IsWellFormed (joins k t) r h)

  subscribe_topics-IsWellFormed :
      (ks : List Str) (t : Target) (r : LocalRouter)
      → IsWellFormed r
      → IsWellFormed (subscribe_topics ks t r)
  unfolding subscribe_topics subscribe step
  subscribe_topics-IsWellFormed [] t r h = h
  subscribe_topics-IsWellFormed (k ∷ ks) t r h =
      subscribe_topics-IsWellFormed ks t (subscribe k t r) (step-IsWellFormed (subscribes k t) r h)

  pub bump_entry_keeps : (s : ℕ) (k : Str) (e : Pending) (w : World) → I w → I (bump_entry s k e w)
  unfolding bump_entry
  bump_entry_keeps s k e w h = same_keeps keeps w _ (refl, refl, refl, λ i. ground arith) refl h

  retrack_keeps : (s m : ℕ) (w : World) → I w → I (retrack s m w)
  unfolding retrack
  retrack_keeps s m w h =
      ground (arith, h, track_keeps keeps (w.msgs m) (w.sessions s).session_id w h)

  flush_entry_keeps :
      (s c : ℕ) (k : Str) (e : Pending) (w : World) → I w → I (flush_entry s c k e w)
  unfolding flush_entry
  flush_entry_keeps s c k e w h =
      retrack_keeps s e.msg _ (keeps.sends c e.msg _ (bump_entry_keeps s k e w h))

  flush_pending_keeps : (s c : ℕ) (p : Dict Pending) (w : World) → I w → I (flush_pending s c p w)
  unfolding flush_pending
  flush_pending_keeps s c [] w h = h
  flush_pending_keeps s c ((k, e) ∷ p) w h =
      flush_pending_keeps s c p (flush_entry s c k e w) (flush_entry_keeps s c k e w h)

  pub attach_conn_keeps : (s c : ℕ) (w : World) → I w → I (attach_conn s c w).1
  unfolding attach_conn
  attach_conn_keeps s c w h =
      let sess = w.sessions s in
      let t = target_of s w in
      flush_pending_keeps s c sess.pending_acks _ (
        put_session_keeps keeps s _ _ refl (
          keeps.routers _ w
            (λ f.
              subscribe_topics-IsWellFormed sess.sub_topics t _
                (join_rooms-IsWellFormed sess.sub_rooms t w.router f))
            h))

  pub detach_conn_keeps : (s : ℕ) (w : World) → I w → I (detach_conn s w)
  unfolding detach_conn unregister_all step
  detach_conn_keeps s w h =
      put_session_keeps keeps s _ _ (ground arith) (elim (Option-cases ((w.sessions s).conn)) [
        | inl e ↦ rw e h
        | inr (c, e) ↦ rw e (call_keeps keeps (unregisters_all (target_of s w)) w h)
      ])

  pub ack_keeps : (s : ℕ) (m : Str) (w : World) → I w → I (ack s m w)
  unfolding ack
  ack_keeps s m w h =
      let sess = w.sessions s in
      let dropped = put_session s (record sess { pending_acks = delete m sess.pending_acks }) w in
      let h' =
        put_session_keeps keeps s (record sess { pending_acks = delete m sess.pending_acks }) w refl
          h in
      ground (arith, h', ack_done_keeps keeps m sess.session_id dropped h')

  -- A call of the router that a session with a connection makes.
  with_conn_keeps : (s : ℕ) (c : Call) (w : World) → I w → I (with_conn s (step c) w)
  with_conn_keeps s c w h = elim (Option-cases ((w.sessions s).conn)) [
    | inl e ↦ rw (with_conn, e) h
    | inr (d, e) ↦ rw (with_conn, e) (call_keeps keeps c w h)
  ]

  -- Joining and leaving a room, and subscribing to a topic and its end.
  pub session_rooms_keeps :
      (s : ℕ) (k : Str) (w : World)
      → I w
      → I (session_join_room s k w)
        × I (session_leave_room s k w)
        × I (session_subscribe s k w)
        × I (session_unsubscribe s k w)
  unfolding session_join_room session_leave_room session_subscribe session_unsubscribe join_room
      leave_room subscribe unsubscribe step
  session_rooms_keeps s k w h =
      let t = target_of s w in
      (
        with_conn_keeps s (joins k t) _ (put_session_keeps keeps s _ w refl h),
        with_conn_keeps s (leaves k t) _ (put_session_keeps keeps s _ w refl h),
        with_conn_keeps s (subscribes k t) _ (put_session_keeps keeps s _ w refl h),
        with_conn_keeps s (unsubscribes k t) _ (put_session_keeps keeps s _ w refl h),
      )

  cut_connection_keeps : (s : ℕ) (w : World) → I w → I (cut_connection s w)
  unfolding cut_connection close_conn unregister_all step
  cut_connection_keeps s w h = elim (Option-cases ((w.sessions s).conn)) [
    | inl e ↦ rw (cut_connection, e) h
    | inr (c, e) ↦ rw (cut_connection, e) (call_keeps keeps (unregisters_all (target_of s w)) w h)
  ]

  cancel_acks_keeps : (s : ℕ) (w : World) → I w → I (cancel_acks s w)
  unfolding cancel_acks
  cancel_acks_keeps s w h = ground (arith, h, cancel_all_keeps keeps (w.sessions s).session_id w h)

  give_up_device_keeps : (s : ℕ) (w : World) → I w → I (give_up_device s w)
  unfolding give_up_device unregister_session step
  give_up_device_keeps s w h =
      call_keeps keeps (unregisters (w.sessions s).user_id (w.sessions s).device_id) w h

  pub close_session_keeps : (s : ℕ) (w : World) → I w → I (close_session s w)
  unfolding close_session close_body
  close_session_keeps s w h =
      let w' = cancel_acks s (give_up_device s (cut_connection s w)) in
      ground (
        arith,
        h,
        put_session_keeps keeps s
            (record (w'.sessions s) { state = closed; pending_acks = []; done_once = true }) w' refl
            (cancel_acks_keeps s _ (give_up_device_keeps s _ (cut_connection_keeps s w h))),
      )
