-- ===== src/Connection/Loops.antt =====
-- The two loops of a running connection: `Run` of gateway/internal/access/connruntime/connection.go,
-- readLoop of reader.go and writeLoop of writer.go, a turn at a time.
use long_gw.Base.{
  ℕ, ◌≡◌, List, [], ◌∷◌, Bool, true, false, not, ◌&&◌, Option, none, some, if◌then◌else◌, ltb,
  arith, map,
}
use long_gw.World.{World, Message, put_conn}
use long_gw.Connection.{is_expired, write_next}

-- Which loops still run, whether the context was cancelled, and what the reading loop keeps: the
-- time of the last frame and the last sequence number.
pub record Loops : Type 0 where
  pub reading : Bool
  pub writing : Bool
  pub cancelled : Bool
  pub last_ping_at : ℕ
  pub last_recv_seq : ℕ

-- What one round of reading meets: the deadline cannot be set or the read fails, the frame cannot
-- be decoded, or a message.
pub data FrameRead : Type 0 where
  fails malformed : FrameRead
  frame : Message → FrameRead

-- The message's number is remembered, and it is handed on unless it has expired.
abbrev pub take_frame : ℕ → Message → Loops → Loops × Option Message
take_frame now msg l = (
  record l { last_recv_seq = if ltb 0 msg.seq_id then msg.seq_id else l.last_recv_seq },
  if is_expired now msg.expire_at then none else some msg,
)

-- A round of `readLoop` at the time `now`: the message that is handed to `onMessage`, if any.
unfoldable pub read_turn : ℕ → FrameRead → Loops → Loops × Option Message
read_turn now r l =
    if not l.reading
    then (l, none)
    else if l.cancelled
    then (record l { reading = false }, none)
    else elim r [
      | fails ↦ (record l { reading = false }, none)
      | malformed ↦ (record l { last_ping_at = now }, none)
      | frame msg ↦ take_frame now msg (record l { last_ping_at = now })
    ]

-- What comes behind the channel's first message: the loop ends where the write fails.
abbrev pub wrote : Bool → Loops → World × Option Message → Loops × World × List Message
wrote ok l (w, none) = (l, w, [])
wrote ok l (w, some m) = (record l { writing = ok }, w, m ∷ [])

-- A round of `writeLoop` of the connection at `c`: the messages that it tries to write. With a
-- cancelled context the `select` may pick its end, which drains the channel; else it takes the first
-- message, and waits where there is none. `ok` says whether that message can be encoded and written.
unfoldable pub write_turn : Bool → Bool → ℕ → Loops → World → Loops × World × List Message
write_turn picks_end ok c l w =
    if not l.writing
    then (l, w, [])
    else if l.cancelled && picks_end
    then (
      record l { writing = false },
      put_conn c (record (w.conns c) { write_ch = [] }) w,
      map w.msgs (w.conns c).write_ch,
    )
    else wrote ok l (write_next c w)

-- While the reading loop runs and its context is not cancelled, a round hands on exactly a frame
-- that can be decoded and has not expired; it ends the loop exactly where reading fails, and else
-- notes the time.
pub read_turn-total :
    (now : ℕ) (r : FrameRead) (l : Loops)
    → l.reading ≡ true
    → l.cancelled ≡ false
    → let (l', handed) = read_turn now r l in
      (handed ≡ elim r [ frame m ↦ if is_expired now m.expire_at then none else some m | _ ↦ none ])
      × (l'.reading ≡ elim r [ fails ↦ false | _ ↦ true ])
      × (l'.last_ping_at ≡ elim r [ fails ↦ l.last_ping_at | _ ↦ now ])
unfolding read_turn
read_turn-total now r l e k = ground (arith, e, k)
