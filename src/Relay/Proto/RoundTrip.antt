-- ===== src/Relay/Proto/RoundTrip.antt =====
-- What `encode` writes, `decode` reads back, whatever follows it.
use fluxpeer.Prelude.{
  ℕ, ◌+◌, ◌%◌, ◌^◌, ◌≤◌, ◌≡◌, refl, sym, ap, ◌∙◌, List, [], ◌∷◌, ◌++◌, arith, length, ok,
  length-append, take-append_of, drop-append_of, ◌>>=◌,
}
use mathlib.Core.List.{append-nil}
use fluxpeer.Prelude.Bytes.{to_be_bytes32, length-to_be_bytes32, from_be_bytes32-to_be}
use fluxpeer.Relay.Proto.Valid.{IsFrame, length-body-le}
use fluxpeer.Relay.Proto.{
  Frame, client_info, server_info, send_packet, recv_packet, ping, pong, peer_gone, health,
  restarting, max_packet_size, key_len, header_len, body, type_byte, encode, decode, decode_body,
  key, be_u32, decode_client_info, decode_server_info, decode_packet, decode_ping, decode_peer_gone,
}

key-append : (k rest : List ℕ) → length k ≡ key_len → key (k ++ rest) ≡ ok k
unfolding key
key-append k rest h = ground (arith, length-append k rest, take-append_of 32 k rest)

key_whole : (k : List ℕ) → length k ≡ key_len → key k ≡ ok k
key_whole k h = rw append-nil at (key-append k [] h)

be_u32-to_be : (v : ℕ) → be_u32 (to_be_bytes32 v) ≡ ok v
unfolding be_u32 to_be_bytes32
be_u32-to_be v = ap ok (from_be_bytes32-to_be v)

-- The body of each frame is decoded under its own type byte.
decode_body-body : (f : Frame) → IsFrame f → decode_body (type_byte f) (body f) ≡ ok f
unfolding decode_body type_byte body decode_client_info decode_server_info decode_packet decode_ping
    decode_peer_gone
decode_body-body (client_info k v) h = ground (
  arith,
  length-append k (to_be_bytes32 v),
  length-to_be_bytes32 v,
  key-append k (to_be_bytes32 v),
  drop-append_of 32 k (to_be_bytes32 v),
  be_u32-to_be v,
)
decode_body-body (server_info v) h = ground (arith, length-to_be_bytes32 v, be_u32-to_be v)
decode_body-body (send_packet k p) h =
    ground (arith, length-append k p, key-append k p, drop-append_of 32 k p)
decode_body-body (recv_packet k p) h =
    ground (arith, length-append k p, key-append k p, drop-append_of 32 k p)
decode_body-body (ping d) h = ground arith
decode_body-body (pong d) h = ground arith
decode_body-body (peer_gone k) h = ground (arith, key_whole k)
decode_body-body health h = refl
decode_body-body restarting h = refl

-- A header over a body that is there in full.
decode_header :
    (t : ℕ) (b rest : List ℕ)
    → length b ≤ max_packet_size + key_len
    → decode (t ∷ to_be_bytes32 (length b % 2 ^ 32) ++ (b ++ rest))
      ≡ (decode_body t b >>= λ f. ok (f, header_len + length b))
unfolding decode to_be_bytes32
decode_header t b rest h = ground (
  arith,
  length-append b rest,
  take-append_of (length b) b rest,
  from_be_bytes32-to_be (length b),
)

pub length-encode : (f : Frame) → length (encode f) ≡ header_len + length (body f)
unfolding encode to_be_bytes32
length-encode f = omega arith

-- Every valid frame comes back from its encoding, with the number of bytes that the encoding has,
-- also when more bytes follow.
pub decode-encode :
    (f : Frame) (rest : List ℕ) → IsFrame f → decode (encode f ++ rest) ≡ ok (f, length (encode f))
unfolding encode to_be_bytes32
decode-encode f rest h =
    decode_header (type_byte f) (body f) rest (length-body-le f h)
    ∙ rw (decode_body-body f h) (ap (λ (n : ℕ). ok (f, n)) (sym (length-encode f)))
