-- ===== src/Transport/Sdk.antt =====
-- The SDK's TCP framing, `Transport` of sdk/tcp/client.go. The context is taken to stay live, and
-- `Read` ends at the protobuf body.
use long_gw.Base.{
  ℕ, zero, suc, ◌+◌, ◌*◌, ◌/◌, ◌%◌, ◌^◌, ◌≤◌, ◌<◌, ◌≡◌, refl, sym, ◌∙◌, ◌++◌, List, [], ◌∷◌, Bytes,
  ltb, ◌==◌, if◌then◌else◌, length, arith, length-append, take-append, drop-append, take-append_le,
  drop-append_le, flat, inl, inr, ◌⊎◌,
}
use mathlib.Core.List.{append_assoc, append-nil}
use long_gw.Transport.{
  Parse, short, partial, refused, whole, Reading, frame, failed, spinning, ReadError, read_failed,
  invalid_magic, body_too_large, magic, put_uint16, put_uint32, be_uint16, be_uint32, body_of,
  parse,
}

-- `HeaderLen` and `MaxBodyLen`
abbrev pub sdk_header_len : ℕ
sdk_header_len = 8

abbrev pub max_body_len : ℕ
max_body_len = 1048576

-- `Version`
abbrev pub version : ℕ
version = 1

-- The SDK's header: two bytes of magic, version, type, four bytes of length.
unfoldable pub sdk_parse : Bytes → Parse
sdk_parse (m0 ∷ m1 ∷ v ∷ t ∷ l0 ∷ l1 ∷ l2 ∷ l3 ∷ body) =
    if be_uint16 m0 m1 == magic
    then (if ltb max_body_len (be_uint32 l0 l1 l2 l3)
        then refused (body_too_large (be_uint32 l0 l1 l2 l3))
        else body_of (be_uint32 l0 l1 l2 l3) body)
    else refused invalid_magic
sdk_parse buf = short

-- The next chunk of the socket, or the error of a read at its end.
unfoldable pub sdk_read_loop : ℕ → Bytes → List Bytes → Reading
sdk_read_loop zero buf socket = record { result = spinning; buf = buf; socket = socket }
sdk_read_loop (suc fuel) buf socket = elim (sdk_parse buf) [
  | short ↦ elim socket [
    | [] ↦ record { result = failed read_failed; buf = buf; socket = [] }
    | chunk ∷ rest ↦ sdk_read_loop fuel (buf ++ chunk) rest
  ]
  | refused e ↦ record { result = failed e; buf = buf; socket = socket }
  | partial ↦ elim socket [
    | [] ↦ record { result = failed read_failed; buf = buf; socket = [] }
    | chunk ∷ rest ↦ sdk_read_loop fuel (buf ++ chunk) rest
  ]
  | whole body rest ↦ record { result = frame body; buf = rest; socket = socket }
]

-- The packet of `Write`; the type byte stays 0.
unfoldable pub sdk_packet : Bytes → Bytes
sdk_packet body =
    put_uint16 magic ++ ((version ∷ 0 ∷ []) ++ (put_uint32 (length body % 2 ^ 32) ++ body))

digits :
    (n : ℕ)
    → n ≤ max_body_len
    → n / 16777216 % 256 * 16777216 + n / 65536 % 256 * 65536 + n / 256 % 256 * 256 + n % 256 ≡ n
digits n h = omega arith

parse-packet :
    (body rest : Bytes)
    → length body ≤ max_body_len
    → sdk_parse (sdk_packet body ++ rest) ≡ whole body rest
unfolding sdk_parse sdk_packet put_uint16 put_uint32
parse-packet body rest h = ground (
  arith,
  digits (length body) h,
  take-append body rest,
  drop-append body rest,
  length-append body rest,
)

-- A packet that is there whole is found whatever bytes follow.
parse-append :
    (buf more body rest : Bytes)
    → sdk_parse buf ≡ whole body rest
    → sdk_parse (buf ++ more) ≡ whole body (rest ++ more)
unfolding sdk_parse
parse-append (m0 ∷ m1 ∷ v ∷ t ∷ l0 ∷ l1 ∷ l2 ∷ l3 ∷ tail) more body rest h = ground (
  arith,
  length-append tail more,
  take-append_le (be_uint32 l0 l1 l2 l3) tail more,
  drop-append_le (be_uint32 l0 l1 l2 l3) tail more,
)
parse-append buf more body rest h = absurd (ground arith)

parse-append_refused :
    (buf more : Bytes) (e : ReadError)
    → sdk_parse buf ≡ refused e
    → sdk_parse (buf ++ more) ≡ refused e
unfolding sdk_parse
parse-append_refused (m0 ∷ m1 ∷ v ∷ t ∷ l0 ∷ l1 ∷ l2 ∷ l3 ∷ tail) more e h = ground arith
parse-append_refused buf more e h = absurd (ground arith)

Parse-cases :
    (p : Parse)
    → ((p ≡ short) ⊎ (p ≡ partial))
      ⊎ (((e : ReadError) × (p ≡ refused e)) ⊎ ((b : Bytes) × (r : Bytes) × (p ≡ whole b r)))
Parse-cases short = inl (inl refl)
Parse-cases partial = inl (inr refl)
Parse-cases (refused e) = inr (inl (e, refl))
Parse-cases (whole b r) = inr (inr (b, r, refl))

-- However the network cuts a stream that starts with a packet of at most the largest body, the
-- client's `Read` gives that body, and the buffer and the socket together hold what follows the
-- packet; more rounds than there are chunks are enough.
pub sdk_read_reassembles :
    (fuel : ℕ) (buf : Bytes) (socket : List Bytes) (body rest : Bytes)
    → length socket < fuel
    → length body ≤ max_body_len
    → buf ++ flat socket ≡ sdk_packet body ++ rest
    → ((sdk_read_loop fuel buf socket).result ≡ frame body)
      × ((sdk_read_loop fuel buf socket).buf ++ flat (sdk_read_loop fuel buf socket).socket ≡ rest)
unfolding sdk_read_loop
sdk_read_reassembles zero buf socket body rest h k e = absurd (omega arith)
sdk_read_reassembles (suc fuel) buf [] body rest h k e =
    let e' : buf ≡ sdk_packet body ++ rest = sym (append-nil buf) ∙ e in
    ground (arith, rw (← e') at (parse-packet body rest k), append-nil rest)
sdk_read_reassembles (suc fuel) buf (chunk ∷ more) body rest h k e =
    let all : sdk_parse (buf ++ flat (chunk ∷ more)) ≡ whole body rest =
      rw e (parse-packet body rest k) in
    let join : (buf ++ chunk) ++ flat more ≡ sdk_packet body ++ rest =
      append_assoc buf chunk (flat more) ∙ e in
    let next = sdk_read_reassembles fuel (buf ++ chunk) more body rest (omega arith) k join in
    elim (Parse-cases (sdk_parse buf)) [
      | inl (inl q) ↦ rw (q, sdk_read_loop) next
      | inl (inr q) ↦ rw (q, sdk_read_loop) next
      | inr (inl (x, q)) ↦ absurd (cc (parse-append_refused buf (flat (chunk ∷ more)) x q))
      | inr (inr (b, r, q)) ↦ ground (arith, parse-append buf (flat (chunk ∷ more)) b r q)
    ]

-- Every packet of the SDK, whatever follows it, is refused by the gateway, which reads a length
-- of 16 MiB or more in it.
pub gateway_refuses_sdk_packet :
    (body rest : Bytes)
    → parse (sdk_packet body ++ rest)
      ≡ refused (body_too_large (16777216 + length body % 2 ^ 32 / 65536))
unfolding parse sdk_packet put_uint16 put_uint32
gateway_refuses_sdk_packet body rest = ground arith
