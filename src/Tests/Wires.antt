-- ===== src/Tests/Wires.antt =====
-- Frames and packets.
use long_gw.Tests.Data.{pair, plain}
use long_gw.Base.{◌≡◌, refl, true, [], ◌∷◌, some, Bytes, arith, ◌++◌, false, flat, sym, take, drop}
use long_gw.Protocol.{WireLaws, ok, decode, default_config}
use long_gw.Protocol.RoundTrip.{decode-encode, encode_default_uncompressed}
use long_gw.Transport.SdkSocket.{
  WsMessage, socket_read, socket_write, socket_read-write, read_signal,
}
use long_gw.Transport.{frame, spinning, put_uint16, put_uint32, read_loop, packet}
use long_gw.Transport.Sdk.{sdk_read_loop, sdk_packet, sdk_read_reassembles}
use long_gw.Transport.Gateway.{read_spins}

abbrev empty : WsMessage
empty = record { chunks = []; is_whole = true }

-- It breaks off after the bytes of the signal.
abbrev cut : WsMessage
cut = record { chunks = (7 ∷ []) ∷ [] ∷ (8 ∷ []) ∷ []; is_whole = false }

plain_laws : WireLaws plain
plain_laws = record {
  json_back = λ m p e. ground (arith, e);
  proto_back = λ m p e. ground (arith, e);
  gzip_back = λ p c e. ground (arith, e);
}

decode-encode_example : decode plain default_config (0x22 ∷ (7 ∷ [])) ≡ ok (7 ∷ [])
decode-encode_example =
    decode-encode plain plain_laws default_config default_config (7 ∷ []) (0x22 ∷ (7 ∷ []))
      (encode_default_uncompressed plain (7 ∷ []) (7 ∷ []) refl)

socket_read-write_example :
    (socket_read {S = Bytes} (λ s. some s) (λ b. some b) (λ k. false)) 0
      ((empty ∷ []) ++ (cut ∷ []))
    ≡ (read_signal pair, [])
unfolding socket_write
socket_read-write_example =
    socket_read-write (λ s. some s) (λ b. some b) (λ k. false) 0 pair 7 (8 ∷ []) (empty ∷ []) cut []
      refl (λ t bytes e. sym e) refl ((refl, tt)) (λ k l. refl)

sdk_read_reassembles_example :
    ((sdk_read_loop 3 []
        (take 5 (sdk_packet (7 ∷ [])) ∷ (drop 5 (sdk_packet (7 ∷ [])) ∷ []))).result
      ≡ frame (7 ∷ []))
    × ((sdk_read_loop 3 [] (take 5 (sdk_packet (7 ∷ [])) ∷ (drop 5 (sdk_packet (7 ∷ [])) ∷ []))).buf
          ++ flat
              (sdk_read_loop 3 []
                (take 5 (sdk_packet (7 ∷ [])) ∷ (drop 5 (sdk_packet (7 ∷ [])) ∷ []))).socket
        ≡ [])
unfolding sdk_packet put_uint16 put_uint32
sdk_read_reassembles_example =
    sdk_read_reassembles 3 [] (take 5 (sdk_packet (7 ∷ [])) ∷ (drop 5 (sdk_packet (7 ∷ [])) ∷ []))
      (7 ∷ []) [] (omega arith) (omega arith) refl

read_spins_example :
    read_loop 9 (take 7 (packet pair)) []
    ≡ record { result = spinning; buf = (take 7 (packet pair)); socket = [] }
unfolding packet put_uint16 put_uint32
read_spins_example =
    read_spins 9 (take 7 (packet pair)) 8 [] pair [] refl (omega arith) (omega arith)
