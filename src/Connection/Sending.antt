-- ===== src/Connection/Sending.antt =====
-- The bounded write channel and the numbering of what is sent.
use long_gw.Base.{
  ℕ, ◌≤◌, ◌<◌, ◌≡◌, ◌≢◌, [], ◌∷◌, ◌++◌, true, false, some, length, length-append, arith,
}
use long_gw.World.{World, Message}
use long_gw.Connection.{write_channel_size, is_active, next_seq, conn_submit, conn_send, write_next}

-- Every write channel holds at most 4096 messages.
abbrev pub IsBounded : World → Type 0
IsBounded w = (c : ℕ) → length (w.conns c).write_ch ≤ write_channel_size

-- Where no channel holds more than its capacity, none does after either way to send and after a
-- turn of the writer.
pub sending-IsBounded :
    (c m : ℕ) (w : World)
    → IsBounded w
    → IsBounded (conn_submit c m w).1 × IsBounded (conn_send c m w).0 × IsBounded (write_next c w).0
unfolding conn_submit conn_send write_next
sending-IsBounded c m w h = (
  λ d. ground (arith, h d, h c, length-append (w.conns c).write_ch (m ∷ [])),
  λ d. ground (arith, h d, h c, length-append (w.conns c).write_ch (m ∷ [])),
  λ d. ground (arith, h d, h c),
)

-- There is room for one more message on an active connection.
abbrev pub Accepts : ℕ → World → Type 0
Accepts c w = (is_active (w.conns c) ≡ true) × (length (w.conns c).write_ch < write_channel_size)

-- An active connection with room takes the message: it stands last in the channel, and carries
-- the connection's next number.
pub conn_submit-accepted :
    (c m : ℕ) (w : World)
    → Accepts c w
    → ((conn_submit c m w).0 ≡ true)
      × (((conn_submit c m w).1.conns c).write_ch ≡ (w.conns c).write_ch ++ (m ∷ []))
      × (((conn_submit c m w).1.msgs m).seq_id ≡ next_seq (w.conns c))
unfolding conn_submit
conn_submit-accepted c m w h = ground arith

-- A full channel refuses the message and stays as it is; the number is used up all the same.
pub conn_submit-full :
    (c m : ℕ) (w : World)
    → is_active (w.conns c) ≡ true
    → write_channel_size ≤ length (w.conns c).write_ch
    → ((conn_submit c m w).0 ≡ false)
      × (((conn_submit c m w).1.conns c).write_ch ≡ (w.conns c).write_ch)
      × (((conn_submit c m w).1.conns c).next_send_seq ≡ next_seq (w.conns c))
unfolding conn_submit
conn_submit-full c m w a h = ground arith

-- A message that is submitted to two active connections with room, the first with an empty
-- channel: what the first one's writer then sends carries the number that the second one gave it.
pub conn_submit-overwrites_seq :
    (c d m : ℕ) (w : World)
    → c ≢ d
    → (w.conns c).write_ch ≡ []
    → Accepts c w
    → Accepts d w
    → (sent : Message) × ((write_next c (conn_submit d m (conn_submit c m w).1).1).1 ≡ some sent)
      × (sent.seq_id ≡ next_seq (w.conns d))
unfolding conn_submit write_next
conn_submit-overwrites_seq c d m w ne e a b =
    ((conn_submit d m (conn_submit c m w).1).1.msgs m, ground arith, ground arith)
