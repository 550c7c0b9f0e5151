-- ===== src/Relay/Proto/Decode.antt =====
-- `decode` on any input, well formed or not.
use fluxpeer.Prelude.{
  ℕ, ◌+◌, ◌≤◌, ◌<◌, ◌≡◌, List, arith, length, take, drop, get_or, ok, err, length-take, length-drop,
}
use fluxpeer.Relay.Proto.{
  Frame, short_buffer, too_large, max_packet_size, key_len, header_len, decode, decode_body,
  decode_client_info, decode_server_info, decode_packet, decode_ping, decode_peer_gone, word_at,
}

-- What a successful `decode` found: the header, and the body that it announces.
pub decode_inv :
    (buf : List ℕ) {f : Frame} {n : ℕ}
    → decode buf ≡ ok (f, n)
    → (n ≡ header_len + word_at buf 1)
      × (n ≤ length buf)
      × (word_at buf 1 ≤ max_packet_size + key_len)
      × (decode_body (get_or buf 0 0) (take (word_at buf 1) (drop header_len buf)) ≡ ok f)
unfolding decode
decode_inv buf h = ground arith

-- A `decode` that succeeds takes a header and a body that are there in full.
pub decode_takes :
    (buf : List ℕ) {f : Frame} {n : ℕ}
    → decode buf ≡ ok (f, n)
    → (header_len ≤ n) × (n ≤ length buf) × (n ≤ header_len + max_packet_size + key_len)
decode_takes buf h = omega (arith, decode_inv buf h)

-- A body of any length fails to decode with a size error or an unknown type alone.
pub decode_body-ne-short :
    (t : ℕ) (b : List ℕ) (need have : ℕ) → decode_body t b ≡ err (short_buffer need have) → ⊥
unfolding decode_body decode_client_info decode_server_info decode_packet decode_ping
    decode_peer_gone
decode_body-ne-short t b need have h = ground arith

-- Within the size that the header allows, the inner test of the payload never fires.
decode_body-ne-too_large :
    (t : ℕ) (b : List ℕ) (n : ℕ)
    → length b ≤ max_packet_size + key_len
    → decode_body t b ≡ err (too_large n)
    → ⊥
unfolding decode_body decode_client_info decode_server_info decode_packet decode_ping
    decode_peer_gone
decode_body-ne-too_large t b n hb h = ground (arith, length-drop key_len b)

-- A buffer is called short only when it is, and then the answer names its length and a larger need.
pub decode_short :
    (buf : List ℕ) {need have : ℕ}
    → decode buf ≡ err (short_buffer need have)
    → (have ≡ length buf) × (length buf < need)
unfolding decode
decode_short buf {need} {have} h = ground (
  arith,
  decode_body-ne-short (get_or buf 0 0) (take (word_at buf 1) (drop header_len buf)) need have,
)

-- A size is refused exactly by its header: the announced length is above the limit.
pub decode-too_large :
    (buf : List ℕ) {n : ℕ}
    → decode buf ≡ err (too_large n)
    → (n ≡ word_at buf 1) × (max_packet_size + key_len < n)
unfolding decode
decode-too_large buf {n} h = ground (
  arith,
  decode_body-ne-too_large (get_or buf 0 0) (take (word_at buf 1) (drop header_len buf)) n,
  length-take (word_at buf 1) (drop header_len buf),
)
