-- ===== src/Relay/Proto/Tests.antt =====
-- The codec's theorems at concrete frames.
use fluxpeer.Prelude.{ℕ, ◌≡◌, refl, List, [], ◌∷◌, ◌++◌, All, length, replicate, ok, arith}
use fluxpeer.Prelude.Bytes.{IsByte, to_be_bytes32, from_be_bytes32}
use fluxpeer.Relay.Proto.{Frame, ping, send_packet, encode, decode, decode_body, decode_ping}
use fluxpeer.Relay.Proto.Valid.{IsFrame}
use fluxpeer.Relay.Proto.RoundTrip.{decode-encode}

abbrev packet : Frame
packet = send_packet (replicate 32 7) (1 ∷ 2 ∷ 3 ∷ [])

abbrev probe : Frame
probe = ping (1 ∷ 2 ∷ 3 ∷ 4 ∷ 5 ∷ 6 ∷ 7 ∷ 8 ∷ [])

abbrev probe_front : List ℕ
probe_front = 5 ∷ 0 ∷ 0 ∷ 0 ∷ 8 ∷ 1 ∷ 2 ∷ []

abbrev probe_back : List ℕ
probe_back = 4 ∷ 5 ∷ 6 ∷ 7 ∷ 8 ∷ []

abbrev probe_bytes : List ℕ
probe_bytes = probe_front ++ 3 ∷ probe_back

probe_read : decode probe_bytes ≡ ok (probe, 13)
unfolding decode from_be_bytes32 decode_body decode_ping
probe_read = refl

probe_written : encode probe ≡ probe_front ++ (3 ∷ probe_back)
unfolding encode to_be_bytes32
probe_written = refl

probe_bytes-IsByte : All IsByte probe_bytes
probe_bytes-IsByte = ground arith

packet-IsFrame : IsFrame packet
packet-IsFrame = (refl, omega arith)

decode-encode_example : decode (encode packet ++ (9 ∷ 9 ∷ [])) ≡ ok (packet, length (encode packet))
decode-encode_example = decode-encode packet (9 ∷ 9 ∷ []) packet-IsFrame
