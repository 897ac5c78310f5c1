-- ===== src/Protocol/RoundTrip.antt =====
-- Encoding and decoding of frames by codec.go.
use long_gw.Base.{
  ℕ, zero, suc, ◌*◌, ◌/◌, ◌%◌, ◌+◌, ◌≤◌, ◌<◌, ◌≡◌, refl, ap, Bool, true, ◌&&◌, [], ◌∷◌, some, inl,
  inr, ◌⊎◌, Bytes, ◌==◌, arith,
}
use long_gw.Protocol.{
  Wire, WireLaws, Config, Result, ok, err, wrap, unmarshal_failed, make_frame_codec_byte,
  codec_type_of, compress_algo_of, marshal, unmarshal, compress, decompress, encode, decode,
  default_config,
}

-- A test on every number below a bound, and what its success says of one of them.
every : (ℕ → Bool) → ℕ → Bool
every test zero = true
every test (suc top) = every test top && test top

every-at : (test : ℕ → Bool) (top k : ℕ) → every test top ≡ true → k < top → test k ≡ true
unfolding every
every-at test zero k e below = ground arith
every-at test (suc top) k e below = ground (arith, every-at test top k)

codec_table :
    every
      (λ x.
        codec_type_of (make_frame_codec_byte (x % 16) (x / 16)) == x % 16
        && compress_algo_of (make_frame_codec_byte (x % 16) (x / 16)) == x / 16)
      256
    ≡ true
unfolding every codec_type_of compress_algo_of make_frame_codec_byte
codec_table = refl

packed : (ct ca : ℕ) → ct < 16 → ca < 16 → ((ca * 16 + ct) % 16 ≡ ct) × ((ca * 16 + ct) / 16 ≡ ca)
packed ct ca h k = omega arith

-- The header byte packs two nibbles and gives both back.
pub frame_codec_byte_fields :
    (ct ca : ℕ)
    → ct < 16
    → ca < 16
    → (codec_type_of (make_frame_codec_byte ct ca) ≡ ct)
      × (compress_algo_of (make_frame_codec_byte ct ca) ≡ ca)
frame_codec_byte_fields ct ca h k =
    let (lo, hi) = packed ct ca h k in
    let row = every-at _ 256 (ca * 16 + ct) codec_table (omega arith) in
    ground (arith, rw (lo, hi) at row)

Result-cases {ℓ} :
    {E : Type 0} {A : Type ℓ} (r : Result E A) → ((a : A) × (r ≡ ok a)) ⊎ ((e : E) × (r ≡ err e))
Result-cases (ok a) = inl (a, refl)
Result-cases (err e) = inr (e, refl)

module _ {Msg : Type 0} (w : Wire Msg) where
  -- A codec that serialises is JSON or protobuf.
  marshal-ok : (ct : ℕ) (m : Msg) (p : Bytes) → marshal w ct m ≡ ok p → (ct ≡ 1) ⊎ (ct ≡ 2)
  unfolding marshal
  marshal-ok ct m p h = ground arith

  compress-ok : (ca : ℕ) (d c : Bytes) → compress w ca d ≡ ok c → ca ≤ 3
  unfolding compress
  compress-ok ca d c h = ground arith

  unmarshal-marshal :
      (l : WireLaws w) (ct : ℕ) (m : Msg) (p : Bytes)
      → marshal w ct m ≡ ok p
      → unmarshal w ct p ≡ ok m
  unfolding marshal unmarshal
  unmarshal-marshal l ct m p h = ground (arith, l.json_back m p, l.proto_back m p)

  decompress-compress :
      (l : WireLaws w) (ca : ℕ) (d c : Bytes) → compress w ca d ≡ ok c → decompress w ca c ≡ ok d
  unfolding compress decompress
  decompress-compress l ca d c h = ground (arith, l.gzip_back d c)

  encode-cases :
      (fc : Config) (m : Msg) (d : Bytes)
      → encode w fc m ≡ ok d
      → (p : Bytes) × (c : Bytes) × (marshal w fc.codec_type m ≡ ok p)
        × (compress w fc.compress_algo p ≡ ok c)
        × (d ≡ make_frame_codec_byte fc.codec_type fc.compress_algo ∷ c)
  unfolding encode
  encode-cases fc m d h = elim (Result-cases (marshal w fc.codec_type m)) [
    | inr (e, q) ↦ absurd (ground arith)
    | inl (p, q) ↦ elim (Result-cases (compress w fc.compress_algo p)) [
      | inr (e, q') ↦ absurd (ground arith)
      | inl (c, q') ↦ (p, c, q, q', ground arith)
    ]
  ]

  -- Under the laws of the serialisers and of gzip, a frame that `Encode` writes under any
  -- configuration is read back by `Decode`, whatever the reader's own configuration is.
  pub decode-encode :
      (l : WireLaws w) (fc reader : Config) (m : Msg) (d : Bytes)
      → encode w fc m ≡ ok d
      → decode w reader d ≡ ok m
  unfolding decode
  decode-encode l fc reader m d h =
      let (p, c, q, q', e) = encode-cases fc m d h in
      let (lo, hi) =
        frame_codec_byte_fields fc.codec_type fc.compress_algo
          (ground (arith, marshal-ok fc.codec_type m p q))
          (omega (arith, compress-ok fc.compress_algo p c q')) in
      rw (e, decode, lo, hi, decompress-compress l fc.compress_algo p c q')
        (ap (wrap (unmarshal_failed fc.codec_type)) (unmarshal-marshal l fc.codec_type m p q))

  -- If `Encode` gives a frame, its codec is JSON or protobuf and its algorithm one of the four.
  pub encode_supported :
      (fc : Config) (m : Msg) (d : Bytes)
      → encode w fc m ≡ ok d
      → ((fc.codec_type ≡ 1) ⊎ (fc.codec_type ≡ 2)) × (fc.compress_algo ≤ 3)
  encode_supported fc m d h =
      let (p, c, q, q', e) = encode-cases fc m d h in
      (marshal-ok fc.codec_type m p q, compress-ok fc.compress_algo p c q')

  -- A frame that `Decode` accepts is not empty, and its first byte names a serialiser and an
  -- algorithm that are supported: all other first bytes are refused, whatever follows.
  pub decode_supported :
      (fc : Config) (d : Bytes) (m : Msg)
      → decode w fc d ≡ ok m
      → (cb : ℕ) × (c : Bytes) × (d ≡ cb ∷ c)
        × ((codec_type_of cb ≡ 1) ⊎ (codec_type_of cb ≡ 2))
        × (compress_algo_of cb ≤ 3)
  unfolding decode decompress unmarshal
  decode_supported fc [] m h = absurd (ground arith)
  decode_supported fc (cb ∷ c) m h = (cb, c, refl, ground arith, ground arith)

  -- The default configuration is documented as zstd: the payload goes out as protobuf wrote it,
  -- behind a header byte that says zstd.
  pub encode_default_uncompressed :
      (m : Msg) (p : Bytes) → w.proto_marshal m ≡ some p → encode w default_config m ≡ ok (0x22 ∷ p)
  unfolding encode default_config marshal compress make_frame_codec_byte
  encode_default_uncompressed m p h = ground arith
