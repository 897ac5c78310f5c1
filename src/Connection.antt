-- ===== src/Connection.antt =====
-- A connection's sending side, gateway/internal/access/connruntime/writer.go and outbound.go, the
-- receiving loop's checks, reader.go, and the connection registry, registry.go.
pub mod Sending
pub mod Loops
use long_gw.Base.{
  ℕ, ◌+◌, ◌*◌, ◌/◌, ◌%◌, ◌-◌, ◌^◌, List, [], ◌∷◌, ◌++◌, Bool, true, false, ◌&&◌, Option, none, some,
  Str, Bytes, str_eq, ltb, ◌==◌, if◌then◌else◌, length,
}
use long_gw.Base.Dict.{Dict, lookup, insert, delete}
use long_gw.World.{
  World, Conn, Message, ConnState, handshaking, conn_active, closing, conn_closed, put_msg,
  put_conn,
}

-- `WriteChannelSize`
abbrev pub write_channel_size : ℕ
write_channel_size = 4096

abbrev pub is_active : Conn → Bool
is_active c = elim c.conn_state [ conn_active ↦ true | _ ↦ false ]

-- `CompareAndSwap(StateHandshaking, StateActive)`
abbrev pub activated : ConnState → ConnState
activated handshaking = conn_active
activated s = s

unfoldable pub activate : ℕ → World → World
activate c w = put_conn c (record (w.conns c) { conn_state = activated (w.conns c).conn_state }) w

-- `Close` of outbound.go has an empty body.
unfoldable pub close_conn : ℕ → World → World
close_conn c w = w

-- The next sequence number, an atomic uint64.
abbrev pub next_seq : Conn → ℕ
next_seq c = (c.next_send_seq + 1) % 2 ^ 64

-- `select { case c.writeCh <- msg: true; default: false }`
abbrev pub enqueue : ℕ → ℕ → World → Bool × World
enqueue c m w =
    if ltb (length (w.conns c).write_ch) write_channel_size
    then (true, put_conn c (record (w.conns c) { write_ch = (w.conns c).write_ch ++ (m ∷ []) }) w)
    else (false, w)

-- The counter moves, and the sequence number goes into the shared message.
abbrev pub stamp : ℕ → ℕ → World → World
stamp c m w =
    put_msg m (record (w.msgs m) { seq_id = next_seq (w.conns c) })
      (put_conn c (record (w.conns c) { next_send_seq = next_seq (w.conns c) }) w)

-- `Submit` of the message at `m` to the connection at `c`.
unfoldable pub conn_submit : ℕ → ℕ → World → Bool × World
conn_submit c m w = if is_active (w.conns c) then enqueue c m (stamp c m w) else (false, w)

pub data SendError : Type 0 where
  not_active write_buffer_full : SendError

-- `Send`, which stamps nothing.
unfoldable pub conn_send : ℕ → ℕ → World → World × Option SendError
conn_send c m w =
    if is_active (w.conns c)
    then (let (sent, w') = enqueue c m w in (w', if sent then none else some write_buffer_full))
    else (w, some not_active)

-- One turn of `writeLoop`: the message that is encoded, as it is when it leaves the channel.
unfoldable pub write_next : ℕ → World → World × Option Message
write_next c w = elim (w.conns c).write_ch [
  | [] ↦ (w, none)
  | m ∷ rest ↦ (put_conn c (record (w.conns c) { write_ch = rest }) w, some (w.msgs m))
]

-- `isExpired`, at the time `now` in milliseconds.
unfoldable pub is_expired : ℕ → ℕ → Bool
is_expired now expire_at = ltb 0 expire_at && ltb expire_at now

-- One turn of HeartbeatWatchdog: with the last frame longer ago than the timeout it calls `Close` and
-- ends, which the Boolean says.
unfoldable pub watchdog_turn : ℕ → ℕ → ℕ → ℕ → World → World × Bool
watchdog_turn timeout now last_ping c w =
    if ltb timeout (now - last_ping) then (close_conn c w, true) else (w, false)

-- connruntime.Registry: connections by id.
pub data RegisterError : Type 0 where
  empty_conn_id : RegisterError

unfoldable pub register_conn : Str → ℕ → Dict ℕ → Dict ℕ × Option RegisterError
register_conn id c conns =
    if str_eq id [] then (conns, some empty_conn_id) else (insert id c conns, none)

unfoldable pub unregister_conn : Str → Dict ℕ → Dict ℕ
unregister_conn id conns = delete id conns

unfoldable pub get_conn : Str → Dict ℕ → Option ℕ
get_conn id conns = lookup id conns
