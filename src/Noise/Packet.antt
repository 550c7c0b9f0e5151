-- ===== src/Noise/Packet.antt =====
-- engine/crypto/fp-crypto-noise: the packets on the wire (noise.rs, lib.rs), parsed, and the IP
-- packet that a data packet carries, checked.
pub mod Bounds
mod Tests
use fluxpeer.Prelude.{
  ℕ, ◌+◌, ◌/◌, ◌^◌, ◌&&◌, List, ltb, leb, ◌==◌, if◌then◌else◌, length, take, drop, get_or, Result,
  ok, err,
}
use fluxpeer.Prelude.Bytes.{from_le_bytes32, from_le_bytes64, from_be_bytes16}
use fluxpeer.Noise.{Error, invalid_packet}

abbrev pub handshake_init : ℕ
handshake_init = 1

abbrev pub handshake_resp : ℕ
handshake_resp = 2

abbrev pub data_type : ℕ
data_type = 4

abbrev pub handshake_init_sz : ℕ
handshake_init_sz = 148

abbrev pub handshake_resp_sz : ℕ
handshake_resp_sz = 92

abbrev pub data_overhead_sz : ℕ
data_overhead_sz = 48

abbrev pub data_min_sz : ℕ
data_min_sz = 33

pub record HandshakeInit : Type 0 where
  pub sender_idx : ℕ
  pub unencrypted_ephemeral : List ℕ
  pub encrypted_static : List ℕ
  pub encrypted_timestamp : List ℕ

pub record HandshakeResponse : Type 0 where
  pub sender_idx : ℕ
  pub receiver_idx : ℕ
  pub unencrypted_ephemeral : List ℕ
  pub encrypted_nothing : List ℕ

pub record PacketData : Type 0 where
  pub receiver_idx : ℕ
  pub counter : ℕ
  pub encrypted_encapsulated_packet : List ℕ

pub data Packet : Type 0 where
  init : HandshakeInit → Packet
  response : HandshakeResponse → Packet
  data_packet : PacketData → Packet

-- `&src[a..b]`, on a slice that is long enough.
abbrev pub slice : ℕ → ℕ → List ℕ → List ℕ
slice from len src = take len (drop from src)

unfoldable pub parse_incoming_packet : List ℕ → Result Packet Error
parse_incoming_packet src =
    let packet_type = from_le_bytes32 (slice 0 4 src) in
    if ltb (length src) 4
    then err invalid_packet
    else if packet_type == handshake_init && length src == handshake_init_sz
    then ok (
        init (record {
          sender_idx = from_le_bytes32 (slice 4 4 src);
          unencrypted_ephemeral = slice 8 32 src;
          encrypted_static = slice 40 48 src;
          encrypted_timestamp = slice 88 28 src;
        }))
    else if packet_type == handshake_resp && length src == handshake_resp_sz
    then ok (
        response (record {
          sender_idx = from_le_bytes32 (slice 4 4 src);
          receiver_idx = from_le_bytes32 (slice 8 4 src);
          unencrypted_ephemeral = slice 12 32 src;
          encrypted_nothing = slice 44 16 src;
        }))
    else if packet_type == data_type && leb data_min_sz (length src)
    then ok (
        data_packet (record {
          receiver_idx = from_le_bytes32 (slice 4 4 src);
          counter = from_le_bytes64 (slice 8 8 src);
          encrypted_encapsulated_packet = drop 16 src;
        }))
    else err invalid_packet

abbrev pub ipv4_min_header_size : ℕ
ipv4_min_header_size = 20

abbrev pub ipv6_min_header_size : ℕ
ipv6_min_header_size = 40

-- What the caller is told to do with a packet; an address is its bytes.
pub data NoiseResult : Type 0 where
  done : NoiseResult
  write_to_network : List ℕ → NoiseResult
  write_to_tunnel : List ℕ → List ℕ → NoiseResult

-- `packet[0] >> 4`.
abbrev pub ip_version : List ℕ → ℕ
ip_version packet = get_or packet 0 0 / 2 ^ 4

-- The packet as far as its length field says, and its source.
unfoldable pub truncate : List ℕ → ℕ → List ℕ → Result NoiseResult Error
truncate packet computed_len src_ip_address =
    if ltb (length packet) computed_len
    then err invalid_packet
    else ok (write_to_tunnel (take computed_len packet) src_ip_address)

unfoldable pub validate_decapsulated_packet : List ℕ → Result NoiseResult Error
unfolding truncate
validate_decapsulated_packet packet =
    if length packet == 0
    then ok done
    else if ip_version packet == 4 && leb ipv4_min_header_size (length packet)
    then truncate packet (from_be_bytes16 (get_or packet 2 0) (get_or packet 3 0))
        (slice 12 4 packet)
    else if ip_version packet == 6 && leb ipv6_min_header_size (length packet)
    then truncate packet
        (from_be_bytes16 (get_or packet 4 0) (get_or packet 5 0) + ipv6_min_header_size)
        (slice 8 16 packet)
    else err invalid_packet
