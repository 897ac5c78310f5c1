-- ===== src/Session/Subscriptions.antt =====
-- Subscriptions across a disconnection: `DetachConn`, `AttachConn`, JoinRoom and its kin of
-- session.go.
use long_gw.Base.{
  ℕ, ◌≡◌, refl, ap, ◌∙◌, List, [], ◌∷◌, none, some, arith, Str, str_eq_iff, str_eq_refl, inl, inr,
}
use long_gw.Base.Dict.{Elem}
use long_gw.World.{World, Session, suspended}
use long_gw.Router.{Target, Index, LocalRouter, join_room, subscribe, unregister_all}
use long_gw.Router.Index.{view, view-add_member, view-purge_member}
use long_gw.Session.{target_of, attach_conn, detach_conn, join_rooms, subscribe_topics}
use long_gw.Session.Attach.{Kept, attach_conn-frame}

module _ (t : Target) (k : Str) where
  -- Joining more rooms does not lose one.
  join_rooms-keeps :
      (ks : List Str) (r : LocalRouter)
      → view r.rooms k t.session_id ≡ some t
      → view (join_rooms ks t r).rooms k t.session_id ≡ some t
  unfolding join_rooms join_room
  join_rooms-keeps [] r h = h
  join_rooms-keeps (j ∷ ks) r h =
      join_rooms-keeps ks (join_room j t r)
        (ground (arith, view-add_member j t.session_id t r.rooms k t.session_id))

  join_rooms-joins :
      (ks : List Str) (r : LocalRouter)
      → Elem k ks
      → view (join_rooms ks t r).rooms k t.session_id ≡ some t
  unfolding join_rooms join_room
  join_rooms-joins [] r h = elim h [ ]
  join_rooms-joins (j ∷ ks) r (inl e) = join_rooms-keeps ks (join_room j t r) (
      ground (
        arith,
        str_eq_iff j k,
        str_eq_refl t.session_id,
        view-add_member j t.session_id t r.rooms k t.session_id,
      ))
  join_rooms-joins (j ∷ ks) r (inr h) = join_rooms-joins ks (join_room j t r) h

  subscribe_topics-rooms :
      (ks : List Str) (r : LocalRouter) → (subscribe_topics ks t r).rooms ≡ r.rooms
  unfolding subscribe_topics subscribe
  subscribe_topics-rooms [] r = refl
  subscribe_topics-rooms (j ∷ ks) r = subscribe_topics-rooms ks (subscribe j t r)

-- `AttachConn` puts the session back into every room that it joined.
attach_conn-rejoins :
    (s c : ℕ) (w : World) (k : Str)
    → Elem k (w.sessions s).sub_rooms
    → view (attach_conn s c w).1.router.rooms k (w.sessions s).session_id ≡ some (target_of s w)
attach_conn-rejoins s c w k h =
    let t = target_of s w in
    let sess = w.sessions s in
    ap (λ (p : Kept × LocalRouter). view p.1.rooms k sess.session_id) (attach_conn-frame s c w)
    ∙ (ap (λ (i : Index). view i k sess.session_id) (subscribe_topics-rooms t k sess.sub_topics _)
        ∙ join_rooms-joins t k sess.sub_rooms w.router h)

detached-session :
    (s : ℕ) (w : World)
    → (detach_conn s w).sessions s
      ≡ record (w.sessions s) { conn = none; state = suspended; suspended_at = w.clock }
unfolding detach_conn
detached-session s w = ground arith

detached-room :
    (s c : ℕ) (w : World) (k : Str)
    → (w.sessions s).conn ≡ some c
    → view (detach_conn s w).router.rooms k (w.sessions s).session_id ≡ none
unfolding detach_conn unregister_all
detached-room s c w k h =
    let id = (w.sessions s).session_id in
    ground (arith, h, str_eq_refl id, view-purge_member id w.router.rooms k id)

-- A room that a connected session has joined: when the session is detached the router does not
-- have it there, the session still knows its rooms, and attaching a connection puts it back into
-- the room.
pub reattach_restores_rooms :
    (s c d : ℕ) (w : World) (k : Str)
    → (w.sessions s).conn ≡ some c
    → Elem k (w.sessions s).sub_rooms
    → let away = detach_conn s w in
      (view away.router.rooms k (w.sessions s).session_id ≡ none)
      × ((away.sessions s).sub_rooms ≡ (w.sessions s).sub_rooms)
      × (view (attach_conn s d away).1.router.rooms k (w.sessions s).session_id
          ≡ some (target_of s w))
reattach_restores_rooms s c d w k h e =
    let q = detached-session s w in
    let back = attach_conn-rejoins s d (detach_conn s w) k (rw q e) in
    (detached-room s c w k h, ap (λ (x : Session). x.sub_rooms) q, rw q at back)
