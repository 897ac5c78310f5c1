-- ===== src/Protocol.antt =====
-- The gateway's frame codec, gateway/internal/protocol/codec/codec.go.
-- The serialisers (encoding/json, protobuf) and gzip are taken by the record `Wire`.
pub mod RoundTrip
use Prim.Native.Nat.{bit_and, bit_or}
use long_gw.Base.{
  ℕ, ◌*◌, ◌/◌, ◌%◌, ◌≡◌, List, [], ◌∷◌, Option, none, some, Bytes, ◌==◌, if◌then◌else◌,
}

-- encoding/json, google.golang.org/protobuf and compress/gzip: `none` is an error of theirs.
pub record Wire (Msg : Type 0) : Type 0 where
  pub json_marshal : Msg → Option Bytes
  pub json_unmarshal : Bytes → Option Msg
  pub proto_marshal : Msg → Option Bytes
  pub proto_unmarshal : Bytes → Option Msg
  pub gzip_write : Bytes → Option Bytes
  pub gzip_read : Bytes → Option Bytes

-- What their documentation promises: reading gives back what was written.
pub record WireLaws {Msg : Type 0} (w : Wire Msg) : Type 0 where
  pub json_back : (m : Msg) (p : Bytes) → w.json_marshal m ≡ some p → w.json_unmarshal p ≡ some m
  pub proto_back : (m : Msg) (p : Bytes) → w.proto_marshal m ≡ some p → w.proto_unmarshal p ≡ some m
  pub gzip_back : (p c : Bytes) → w.gzip_write p ≡ some c → w.gzip_read c ≡ some p

-- `CodecType` and `CompressAlgo` are bytes.
abbrev pub codec_json : ℕ
codec_json = 1

abbrev pub codec_protobuf : ℕ
codec_protobuf = 2

abbrev pub codec_msgpack : ℕ
codec_msgpack = 3

abbrev pub compress_none : ℕ
compress_none = 0

abbrev pub compress_gzip : ℕ
compress_gzip = 1

abbrev pub compress_zstd : ℕ
compress_zstd = 2

abbrev pub compress_snappy : ℕ
compress_snappy = 3

-- `(byte(ca) << 4) | byte(ct)`
unfoldable pub make_frame_codec_byte : ℕ → ℕ → ℕ
make_frame_codec_byte ct ca = bit_or (ca * 16 % 256) ct

-- `f & 0x0F`
unfoldable pub codec_type_of : ℕ → ℕ
codec_type_of f = bit_and f 0x0f

-- `(f >> 4) & 0x0F`
unfoldable pub compress_algo_of : ℕ → ℕ
compress_algo_of f = bit_and (f / 16) 0x0f

pub record Config : Type 0 where
  pub codec_type : ℕ
  pub compress_algo : ℕ

unfoldable pub default_config : Config
default_config = record { codec_type = codec_protobuf; compress_algo = compress_zstd }

unfoldable pub json_config : Config
json_config = record { codec_type = codec_json; compress_algo = compress_none }

-- Why a step failed: the library's error, or a codec or algorithm that is not supported.
pub data Cause : Type 0 where
  external : Cause
  unsupported : ℕ → Cause

-- The error that `Encode` or `Decode` wraps, with the codec or algorithm that it names.
pub data Error : Type 0 where
  frame_too_short : ℕ → Error
  marshal_failed compress_failed decompress_failed unmarshal_failed : ℕ → Cause → Error

pub data Result {ℓ} (E : Type 0) (A : Type ℓ) : Type ℓ where
  ok : A → Result E A
  err : E → Result E A

infixl 5 ◌>>=◌
abbrev pub ◌>>=◌ {ℓ κ} :
    {E : Type 0} {A : Type ℓ} {B : Type κ} → Result E A → (A → Result E B) → Result E B
ok a >>= f = f a
err e >>= f = err e

abbrev pub of_library {ℓ} : {A : Type ℓ} → Option A → Result Cause A
of_library none = err external
of_library (some a) = ok a

-- `fmt.Errorf("...: %w", err)`
abbrev pub wrap {ℓ} : {A : Type ℓ} → (Cause → Error) → Result Cause A → Result Error A
wrap f (ok a) = ok a
wrap f (err c) = err (f c)

module _ {Msg : Type 0} (w : Wire Msg) where
  unfoldable pub marshal : ℕ → Msg → Result Cause Bytes
  marshal ct m =
      if ct == codec_json
      then of_library (w.json_marshal m)
      else if ct == codec_protobuf
      then of_library (w.proto_marshal m)
      else err (unsupported ct)

  unfoldable pub unmarshal : ℕ → Bytes → Result Cause Msg
  unmarshal ct d =
      if ct == codec_json
      then of_library (w.json_unmarshal d)
      else if ct == codec_protobuf
      then of_library (w.proto_unmarshal d)
      else err (unsupported ct)

  -- zstd and snappy are stubs that return their input.
  unfoldable pub compress : ℕ → Bytes → Result Cause Bytes
  compress ca d =
      if ca == compress_none
      then ok d
      else if ca == compress_gzip
      then of_library (w.gzip_write d)
      else if ca == compress_zstd
      then ok d
      else if ca == compress_snappy
      then ok d
      else err (unsupported ca)

  unfoldable pub decompress : ℕ → Bytes → Result Cause Bytes
  decompress ca d =
      if ca == compress_none
      then ok d
      else if ca == compress_gzip
      then of_library (w.gzip_read d)
      else if ca == compress_zstd
      then ok d
      else if ca == compress_snappy
      then ok d
      else err (unsupported ca)

  unfoldable pub encode : Config → Msg → Result Error Bytes
  encode fc m = do
    payload ← wrap (marshal_failed fc.codec_type) (marshal fc.codec_type m)
    compressed ← wrap (compress_failed fc.compress_algo) (compress fc.compress_algo payload)
    ok (make_frame_codec_byte fc.codec_type fc.compress_algo ∷ compressed)

  -- `fc` is the receiver's own configuration, which `Decode` does not read.
  unfoldable pub decode : Config → Bytes → Result Error Msg
  decode fc [] = err (frame_too_short 0)
  decode fc (cb ∷ payload) = do
    decompressed ←
        wrap (decompress_failed (compress_algo_of cb)) (decompress (compress_algo_of cb) payload)
    wrap (unmarshal_failed (codec_type_of cb)) (unmarshal (codec_type_of cb) decompressed)
