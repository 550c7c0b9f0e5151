-- ===== src/Noise/Packet/Bounds.antt =====
-- The sizes of what is parsed and of what is handed to the tunnel interface.
use fluxpeer.Prelude.{
  ℕ, ◌+◌, ◌≤◌, ◌≡◌, ◌⊎◌, inl, inr, arith, List, length, take, drop, Result, ok, err, length-take,
  length-drop, get_or, Bool-cases, ltb, leb, ◌==◌, ◌&&◌,
}
use mathlib.Core.Path.{subst}
use fluxpeer.Noise.{Error}
use fluxpeer.Prelude.Bytes.{from_be_bytes16, from_le_bytes32}
use fluxpeer.Noise.Packet.{
  Packet, init, response, data_packet, slice, parse_incoming_packet, write_to_tunnel,
  validate_decapsulated_packet, truncate, ip_version, ipv6_min_header_size, handshake_init,
  handshake_init_sz, handshake_resp, handshake_resp_sz, data_type, data_min_sz,
}

-- The sizes that the packet's type has in the source, and a ciphertext with room for a tag and one
-- byte.
abbrev pub IsPacket : Packet → Type 0
IsPacket (init p) =
    (length p.unencrypted_ephemeral ≡ 32)
    × (length p.encrypted_static ≡ 48)
    × (length p.encrypted_timestamp ≡ 28)
IsPacket (response p) = (length p.unencrypted_ephemeral ≡ 32) × (length p.encrypted_nothing ≡ 16)
IsPacket (data_packet p) = 17 ≤ length p.encrypted_encapsulated_packet

length-slice :
    (from len : ℕ) (src : List ℕ) → from + len ≤ length src → length (slice from len src) ≡ len
length-slice from len src h = omega (arith, length-take len (drop from src), length-drop from src)

-- Of a result: an error says nothing.
abbrev Parses : Result Packet Error → Type 0
Parses (ok p) = IsPacket p
Parses (err e) = Unit {0}

parse-Parses : (src : List ℕ) → Parses (parse_incoming_packet src)
unfolding parse_incoming_packet
parse-Parses src =
    let packet_type : ℕ = from_le_bytes32 (slice 0 4 src) in
    elim (Bool-cases (ltb (length src) 4)) [
      | inl short ↦ rw short tt
      | inr long ↦
          elim (Bool-cases (packet_type == handshake_init && length src == handshake_init_sz)) [
            | inl is_init ↦
                let size : length src ≡ 148 = ground arith in
                rw (long, is_init)
                  (
                    length-slice 8 32 src (omega arith),
                    length-slice 40 48 src (omega arith),
                    length-slice 88 28 src (omega arith),
                  )
            | inr not_init ↦
                elim (Bool-cases
                  (packet_type == handshake_resp && length src == handshake_resp_sz)) [
                    | inl is_resp ↦
                        let size : length src ≡ 92 = ground arith in
                        rw (long, not_init, is_resp)
                          (
                            length-slice 12 32 src (omega arith),
                            length-slice 44 16 src (omega arith),
                          )
                    | inr not_resp ↦
                        elim (Bool-cases
                          (packet_type == data_type && leb data_min_sz (length src))) [
                            | inl is_data ↦
                                let size : 33 ≤ length src = ground arith in
                                rw (long, not_init, not_resp, is_data)
                                  (omega (arith, length-drop 16 src))
                            | inr other ↦ rw (long, not_init, not_resp, other) tt
                          ]
                  ]
          ]
    ]

-- A datagram that is parsed gives a packet whose fields have the sizes that their types ask for,
-- and a data packet with at least 17 bytes of ciphertext.
pub parse_incoming_packet-IsPacket :
    (src : List ℕ) {p : Packet} → parse_incoming_packet src ≡ ok p → IsPacket p
parse_incoming_packet-IsPacket src h = subst Parses h (parse-Parses src)

-- What goes to the tunnel interface is a first part of the decapsulated packet, as long as the
-- packet's length field says, of version 4 or 6, with a source address of 4 or 16 bytes.
pub validate_decapsulated_packet_lem :
    (packet : List ℕ) {p src : List ℕ}
    → validate_decapsulated_packet packet ≡ ok (write_to_tunnel p src)
    → ((ip_version packet ≡ 4)
        × (length src ≡ 4)
        × (from_be_bytes16 (get_or packet 2 0) (get_or packet 3 0) ≤ length packet)
        × (p ≡ take (from_be_bytes16 (get_or packet 2 0) (get_or packet 3 0)) packet))
      ⊎ ((ip_version packet ≡ 6)
          × (length src ≡ 16)
          × (from_be_bytes16 (get_or packet 4 0) (get_or packet 5 0) + ipv6_min_header_size
              ≤ length packet)
          × (p
              ≡ take
                  (from_be_bytes16 (get_or packet 4 0) (get_or packet 5 0) + ipv6_min_header_size)
                  packet))
unfolding validate_decapsulated_packet truncate
validate_decapsulated_packet_lem packet h =
    ground (arith, length-slice 12 4 packet, length-slice 8 16 packet)
