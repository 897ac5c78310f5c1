-- ===== src/Transport/Gateway.antt =====
-- The gateway's TCP framing, gateway/internal/access/tcp/transport.go.
use long_gw.Base.{
  ℕ, zero, suc, ◌+◌, ◌*◌, ◌/◌, ◌%◌, ◌≤◌, ◌<◌, ◌≡◌, refl, ◌++◌, List, [], ◌∷◌, Bytes, length, arith,
  length-append, take-append, drop-append,
}
use long_gw.Transport.{
  short, partial, whole, frame, spinning, max_frame, header_len, put_uint16, put_uint32, parse,
  read_loop, packet,
}

uint32_digits :
    (n : ℕ)
    → n ≤ max_frame
    → n / 16777216 % 256 * 16777216 + n / 65536 % 256 * 65536 + n / 256 % 256 * 256 + n % 256 ≡ n
uint32_digits n h = omega arith

pub parse-packet :
    (body rest : Bytes) → length body ≤ max_frame → parse (packet body ++ rest) ≡ whole body rest
unfolding parse packet put_uint16 put_uint32
parse-packet body rest h = ground (
  arith,
  uint32_digits (length body) h,
  take-append body rest,
  drop-append body rest,
  length-append body rest,
)

-- A packet that `Write` sent and that lies in the buffer whole is read back, and the bytes behind
-- it stay in the buffer; the socket is not read.
pub read-packet :
    (fuel : ℕ) (body rest : Bytes) (socket : List Bytes)
    → length body ≤ max_frame
    → read_loop (suc fuel) (packet body ++ rest) socket
      ≡ record { result = frame body; buf = rest; socket = socket }
unfolding read_loop
read-packet fuel body rest socket h = rw (parse-packet body rest h, read_loop)

short-parse : (buf : Bytes) → length buf < header_len → parse buf ≡ short
unfolding parse
short-parse (m0 ∷ m1 ∷ l0 ∷ l1 ∷ l2 ∷ l3 ∷ body) h = absurd (omega arith)
short-parse buf h = refl

-- Where the buffer holds less than a header, and with the next chunk a whole packet of at most
-- the largest body, two rounds read its body; what follows it stays in the buffer, and the rest
-- of the socket is not read.
pub read-packet_chunk :
    (fuel : ℕ) (buf chunk body rest : Bytes) (socket : List Bytes)
    → length buf < header_len
    → buf ++ chunk ≡ packet body ++ rest
    → length body ≤ max_frame
    → read_loop (suc (suc fuel)) buf (chunk ∷ socket)
      ≡ record { result = frame body; buf = rest; socket = socket }
unfolding read_loop
read-packet_chunk fuel buf chunk body rest socket e join h =
    rw (short-parse buf e, read_loop) (rw join (rw (parse-packet body rest h, read_loop)))

read-partial :
    (fuel : ℕ) (buf : Bytes) (socket : List Bytes)
    → parse buf ≡ partial
    → read_loop fuel buf socket ≡ record { result = spinning; buf = buf; socket = socket }
unfolding read_loop
read-partial zero buf socket e = refl
read-partial (suc fuel) buf socket e = rw (e, read_loop) (read-partial fuel buf socket e)

prefix-partial :
    (buf : Bytes) (b : ℕ) (tail body : Bytes)
    → buf ++ (b ∷ tail) ≡ packet body
    → header_len ≤ length buf
    → length body ≤ max_frame
    → parse buf ≡ partial
unfolding parse packet put_uint16 put_uint32
prefix-partial (m0 ∷ m1 ∷ l0 ∷ l1 ∷ l2 ∷ l3 ∷ front) b tail body e h k =
    ground (arith, uint32_digits (length body) k, length-append front (b ∷ tail))
prefix-partial buf b tail body e h k = absurd (ground arith)

-- Where the buffer holds the whole header of a packet whose body is at most the largest that is allowed,
-- but not all of that body, no number of rounds ends the gateway's `Read`: buffer and socket stay as
-- they are, and the rest of the body is never read.
pub read_spins :
    (fuel : ℕ) (buf : Bytes) (b : ℕ) (tail body : Bytes) (socket : List Bytes)
    → buf ++ (b ∷ tail) ≡ packet body
    → header_len ≤ length buf
    → length body ≤ max_frame
    → read_loop fuel buf socket ≡ record { result = spinning; buf = buf; socket = socket }
read_spins fuel buf b tail body socket e h k =
    read-partial fuel buf socket (prefix-partial buf b tail body e h k)

-- One round of fuel more than the socket has chunks is enough: with it the loop ends, but for the
-- case that it holds a header and a partial body.
pub read_ends :
    (fuel : ℕ) (buf : Bytes) (socket : List Bytes)
    → length socket < fuel
    → (read_loop fuel buf socket).result ≡ spinning
    → parse (read_loop fuel buf socket).buf ≡ partial
unfolding read_loop
read_ends zero buf socket h e = absurd (omega arith)
read_ends (suc fuel) buf [] h e = ground (arith, read-partial fuel buf [])
read_ends (suc fuel) buf (chunk ∷ rest) h e =
    ground (
      arith,
      read-partial fuel buf (chunk ∷ rest),
      read_ends fuel (buf ++ chunk) rest (omega arith),
    )
