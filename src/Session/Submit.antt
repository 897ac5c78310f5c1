-- ===== src/Session/Submit.antt =====
-- What `Submit` of session.go does with a message, on every branch.
use long_gw.Base.{
  ℕ, ◌≡◌, [], ◌∷◌, ◌++◌, Bool, true, false, not, ◌&&◌, none, some, if◌then◌else◌, ltb, length,
  arith, str_eq_refl,
}
use long_gw.Base.Dict.{lookup, lookup-insert}
use long_gw.World.{World, Session, Message, Delivery, done, panic, world_of}
use long_gw.Connection.{write_channel_size, is_active, next_seq, conn_submit}
use long_gw.Scanner.{wants_ack, track}
use long_gw.Session.{handle_undelivered, record_delivered, submit, is_at_most_once}

-- Whether the session's connection takes a message now.
abbrev pub deliverable : ℕ → World → Bool
deliverable s w = elim (w.sessions s).conn [
  | none ↦ false
  | some c ↦ is_active (w.conns c) && ltb (length (w.conns c).write_ch) write_channel_size
]

-- Whether a message that is not delivered goes to the offline store.
abbrev pub storable : Session → Message → Bool
storable sess m = elim m.delivery [
  | none ↦ false
  | some d ↦ d.offline && (sess.deps.has_offline && not (is_at_most_once d.qos))
]

-- `Submit` of a message with a delivery does not panic, and answers whether the session's
-- connection is there, active and has room.
pub submit_total :
    (s m : ℕ) (w : World) (d : Delivery)
    → (w.msgs m).delivery ≡ some d
    → submit s m w ≡ done (deliverable s w) (world_of (submit s m w))
unfolding submit handle_undelivered conn_submit
submit_total s m w d e = ground arith

-- A message with a delivery that the session cannot deliver goes to the offline store once,
-- exactly where it asks for that, the store is there and it is not QoS 0; the session and the
-- timer keep what they had.
pub submit-undeliverable :
    (s m : ℕ) (w : World) (d : Delivery)
    → (w.msgs m).delivery ≡ some d
    → deliverable s w ≡ false
    → let after = world_of (submit s m w) in
      (after.stored ≡ (
        if storable (w.sessions s) (w.msgs m) then w.stored ++ (after.msgs m ∷ []) else w.stored))
      × (after.sessions s ≡ w.sessions s)
      × (after.timer ≡ w.timer)
unfolding submit handle_undelivered conn_submit
submit-undeliverable s m w d e h = ground arith

-- With no delivery, a message that the connection does not take is a nil dereference.
pub submit_panics :
    (s m : ℕ) (w : World)
    → (w.msgs m).delivery ≡ none
    → deliverable s w ≡ false
    → submit s m w ≡ panic (world_of (submit s m w))
unfolding submit handle_undelivered conn_submit
submit_panics s m w e h = ground arith

-- A session with a connection that is active and has room: `Submit` answers true, the message
-- stands last in that connection's channel, the session remembers its number, nothing is stored,
-- and a message that wants an ACK is pending with no retry yet where there is a scanner.
pub submit-delivered :
    (s m c : ℕ) (w : World)
    → (w.sessions s).conn ≡ some c
    → deliverable s w ≡ true
    → let after = world_of (submit s m w) in
      (submit s m w ≡ done true after)
      × ((after.conns c).write_ch ≡ (w.conns c).write_ch ++ (m ∷ []))
      × ((after.sessions s).last_delivered_seq ≡ next_seq (w.conns c))
      × (after.stored ≡ w.stored)
      × (lookup (w.msgs m).msg_id (after.sessions s).pending_acks ≡ (
          if (w.sessions s).deps.has_acker && wants_ack (w.msgs m)
          then some (record { msg = m; retry_count = 0; last_retry_at = w.clock })
          else lookup (w.msgs m).msg_id (w.sessions s).pending_acks))
unfolding submit handle_undelivered conn_submit record_delivered track
submit-delivered s m c w e h = ground (
  arith,
  str_eq_refl (w.msgs m).msg_id,
  lookup-insert (w.msgs m).msg_id (w.msgs m).msg_id
      (record { msg = m; retry_count = 0; last_retry_at = w.clock }) (w.sessions s).pending_acks,
)
