-- ===== src/Transport.antt =====
-- Framing on a TCP stream: the gateway's transport, gateway/internal/access/tcp/transport.go, the
-- WebSocket one, gateway/internal/access/websocket/transport.go, and the SDK's, sdk/tcp/client.go.
-- A socket is the list of the chunks that its next reads return; at its end a read fails.
pub mod Gateway
pub mod Sdk
pub mod SdkSocket
use long_gw.Base.{
  ℕ, zero, suc, ◌+◌, ◌*◌, ◌/◌, ◌%◌, ◌^◌, ◌++◌, List, [], ◌∷◌, Bool, true, false, Bytes, ltb, ◌==◌,
  if◌then◌else◌, length, take, drop, Option, none, some,
}

-- `Magic`
abbrev pub magic : ℕ
magic = 0x1234

-- `MaxFrame`, 4 << 20
abbrev pub max_frame : ℕ
max_frame = 4194304

-- `HeaderLen` of the gateway
abbrev pub header_len : ℕ
header_len = 6

-- binary.BigEndian.PutUint16 and PutUint32 of a uint32.
unfoldable pub put_uint16 : ℕ → Bytes
put_uint16 n = n / 256 % 256 ∷ n % 256 ∷ []

unfoldable pub put_uint32 : ℕ → Bytes
put_uint32 n = n / 16777216 % 256 ∷ n / 65536 % 256 ∷ n / 256 % 256 ∷ n % 256 ∷ []

abbrev pub be_uint16 : ℕ → ℕ → ℕ
be_uint16 a b = a * 256 + b

abbrev pub be_uint32 : ℕ → ℕ → ℕ → ℕ → ℕ
be_uint32 a b c d = a * 16777216 + b * 65536 + c * 256 + d

pub data ReadError : Type 0 where
  cancelled read_failed invalid_magic : ReadError
  body_too_large : ℕ → ReadError

-- What the top of the read loop finds in the buffer.
pub data Parse : Type 0 where
  short partial : Parse
  refused : ReadError → Parse
  whole : Bytes → Bytes → Parse

-- `spinning` is no Go value: the loop ran out of fuel.
pub data ReadResult : Type 0 where
  frame : Bytes → ReadResult
  failed : ReadError → ReadResult
  spinning : ReadResult

-- The result of `Read`, the buffer that is kept, and what the socket still holds.
pub record Reading : Type 0 where
  pub result : ReadResult
  pub buf : Bytes
  pub socket : List Bytes

-- The body of length `n` behind the header, if the buffer holds it all.
abbrev pub body_of : ℕ → Bytes → Parse
body_of n body = if ltb (length body) n then partial else whole (take n body) (drop n body)

-- The header of the gateway: two bytes of magic, four of length.
unfoldable pub parse : Bytes → Parse
parse (m0 ∷ m1 ∷ l0 ∷ l1 ∷ l2 ∷ l3 ∷ body) =
    if be_uint16 m0 m1 == magic
    then (if ltb max_frame (be_uint32 l0 l1 l2 l3)
        then refused (body_too_large (be_uint32 l0 l1 l2 l3))
        else body_of (be_uint32 l0 l1 l2 l3) body)
    else refused invalid_magic
parse buf = short

-- One round per turn of the `for` loop. A short buffer reads the socket; a partial body does not.
unfoldable pub read_loop : ℕ → Bytes → List Bytes → Reading
read_loop zero buf socket = record { result = spinning; buf = buf; socket = socket }
read_loop (suc fuel) buf socket = elim (parse buf) [
  | short ↦ elim socket [
    | [] ↦ record { result = failed read_failed; buf = buf; socket = [] }
    | chunk ∷ rest ↦ read_loop fuel (buf ++ chunk) rest
  ]
  | refused e ↦ record { result = failed e; buf = buf; socket = socket }
  | partial ↦ read_loop fuel buf socket
  | whole body rest ↦ record { result = frame body; buf = rest; socket = socket }
]

-- `Read`; the context is tested once, before the loop.
unfoldable pub read : ℕ → Bool → Bytes → List Bytes → Reading
read fuel true buf socket = record { result = failed cancelled; buf = buf; socket = socket }
read fuel false buf socket = read_loop fuel buf socket

-- The packet that `Write` sends for `body`.
unfoldable pub packet : Bytes → Bytes
packet body = put_uint16 magic ++ put_uint32 (length body % 2 ^ 32) ++ body

pub data WsError : Type 0 where
  ws_read_failed not_binary : WsError
  ws_too_large : ℕ → WsError

pub data WsResult : Type 0 where
  ws_frame : Bytes → WsResult
  ws_failed : WsError → WsResult

-- `websocket.BinaryMessage`
abbrev pub binary_message : ℕ
binary_message = 2

-- WSTransport.Read on what ReadMessage returns: a kind and a message, or `none` for its error.
unfoldable pub ws_read : Option (ℕ × Bytes) → WsResult
ws_read none = ws_failed ws_read_failed
ws_read (some (kind, d)) =
    if kind == binary_message
    then (if ltb max_frame (length d) then ws_failed (ws_too_large (length d)) else ws_frame d)
    else ws_failed not_binary
