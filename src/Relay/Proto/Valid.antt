-- ===== src/Relay/Proto/Valid.antt =====
-- The frames that the Rust types allow, and whose payload the decoder accepts.
use fluxpeer.Prelude.{◌+◌, ◌≤◌, ◌≡◌, arith, length, length-append}
use fluxpeer.Prelude.Bytes.{IsU32, to_be_bytes32}
use fluxpeer.Relay.Proto.{
  Frame, client_info, server_info, send_packet, recv_packet, ping, pong, peer_gone, health,
  restarting, max_packet_size, key_len, body,
}

-- The array lengths and the word sizes of the Rust types, with `MAX_PACKET_SIZE` for payloads.
abbrev pub IsFrame : Frame → Type 0
IsFrame (client_info k v) = (length k ≡ key_len) × IsU32 v
IsFrame (server_info v) = IsU32 v
IsFrame (send_packet k p) = (length k ≡ key_len) × (length p ≤ max_packet_size)
IsFrame (recv_packet k p) = (length k ≡ key_len) × (length p ≤ max_packet_size)
IsFrame (ping d) = length d ≡ 8
IsFrame (pong d) = length d ≡ 8
IsFrame (peer_gone k) = length k ≡ key_len
IsFrame health = Unit {0}
IsFrame restarting = Unit {0}

pub length-body-le : (f : Frame) → IsFrame f → length (body f) ≤ max_packet_size + key_len
unfolding body to_be_bytes32
length-body-le (client_info k v) h = omega (arith, length-append k (to_be_bytes32 v))
length-body-le (server_info v) h = omega arith
length-body-le (send_packet k p) h = omega (arith, length-append k p)
length-body-le (recv_packet k p) h = omega (arith, length-append k p)
length-body-le (ping d) h = omega arith
length-body-le (pong d) h = omega arith
length-body-le (peer_gone k) h = omega arith
length-body-le health h = omega arith
length-body-le restarting h = omega arith
