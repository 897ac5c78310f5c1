-- ===== src/Transport/SdkSocket.antt =====
-- The SDK's WebSocket transport, `Transport` of sdk/ws/client.go. The WebSocket and protobuf are outside.
use long_gw.Base.{
  ℕ, ◌+◌, ◌≤◌, ◌≡◌, List, [], ◌∷◌, ◌++◌, Bool, true, false, Option, none, some, Bytes, All, flat,
  length, arith, if◌then◌else◌,
}

-- A message of the socket: the chunks that its reader gives, and whether it ends as it should. `Read`
-- does not look at how it ends.
pub record WsMessage : Type 0 where
  pub chunks : List Bytes
  pub is_whole : Bool

-- What `Read` returns: the context is cancelled, there is no next reader, the bytes are no signal, or a
-- signal.
pub data SocketRead {ℓ} (S : Type ℓ) : Type ℓ where
  socket_cancelled no_reader bad_signal : SocketRead S
  read_signal : S → SocketRead S

-- The signal of the bytes of a message.
abbrev pub read_of {ℓ} : {S : Type ℓ} → Option S → SocketRead S
read_of none = bad_signal
read_of (some s) = read_signal s

module _ {ℓ} {S : Type ℓ} (marshal : S → Option Bytes) (unmarshal : Bytes → Option S)
    (is_done : ℕ → Bool) where
  -- `Read`, whose i-th look at the context says whether it is done: what it returns, and the messages
  -- that are left.
  unfoldable pub socket_read : ℕ → List WsMessage → SocketRead S × List WsMessage
  socket_read i [] = (if is_done i then socket_cancelled else no_reader, [])
  socket_read i (m ∷ ms) =
      let next = socket_read (i + 1) ms in
      if is_done i
      then (socket_cancelled, m ∷ ms)
      else elim (flat m.chunks) [ [] ↦ next | b ∷ bs ↦ (read_of (unmarshal (b ∷ bs)), ms) ]

  -- `Write`, in a context that may be cancelled, on a socket that may refuse: the message, if one is
  -- written.
  unfoldable pub socket_write : Bool → Bool → S → Option Bytes
  socket_write cancelled accepts s =
      if cancelled
      then none
      else elim (marshal s) [ none ↦ none | some b ↦ if accepts then some b else none ]

  -- A message without bytes.
  abbrev pub IsBlank : WsMessage → Type 0
  IsBlank m = flat m.chunks ≡ []

  -- Where what is marshalled is unmarshalled again: a signal that is written, and is not empty, is the
  -- next that `Read` returns, however the socket cuts it and however many empty messages come before it,
  -- while the context is live. What is left are the messages after it. That goes also where the message
  -- breaks off behind the signal's bytes.
  pub socket_read-write :
      (i : ℕ) (s : S) (x : ℕ) (b : Bytes) (blanks : List WsMessage) (m : WsMessage)
      (rest : List WsMessage)
      → socket_write false true s ≡ some (x ∷ b)
      → ((t : S) (bytes : Bytes) → marshal t ≡ some bytes → unmarshal bytes ≡ some t)
      → flat m.chunks ≡ x ∷ b
      → All IsBlank blanks
      → ((k : ℕ) → k ≤ i + length blanks → is_done k ≡ false)
      → socket_read i (blanks ++ (m ∷ rest)) ≡ (read_signal s, rest)
  unfolding socket_read socket_write
  socket_read-write i s x b [] m rest w back f a live = ground (arith, w, back s (x ∷ b), f, live i)
  socket_read-write i s x b (n ∷ blanks) m rest w back f (a, all) live =
      let next =
        socket_read-write (i + 1) s x b blanks m rest w back f all
          (λ k l. live k (omega (arith, l))) in
      ground (arith, a, live i, next)
