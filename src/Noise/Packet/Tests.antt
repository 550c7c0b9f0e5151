-- ===== src/Noise/Packet/Tests.antt =====
-- Parsing and checking concrete packets.
use fluxpeer.Prelude.{ℕ, ◌≡◌, refl, List, [], ◌∷◌, ◌++◌, take, replicate, ok}
use fluxpeer.Prelude.Bytes.{from_be_bytes16, from_le_bytes32, from_le_bytes64}
use fluxpeer.Noise.Packet.{
  Packet, data_packet, parse_incoming_packet, validate_decapsulated_packet, write_to_tunnel,
}

abbrev datagram : List ℕ
datagram = 4 ∷ 0 ∷ 0 ∷ 0 ∷ 2 ∷ 0 ∷ 0 ∷ 0 ∷ replicate 8 0 ++ replicate 17 9

abbrev parsed : Packet
parsed =
    data_packet
      (record { receiver_idx = 2; counter = 0; encrypted_encapsulated_packet = replicate 17 9 })

datagram-parsed : parse_incoming_packet datagram ≡ ok parsed
unfolding parse_incoming_packet from_le_bytes32 from_le_bytes64
datagram-parsed = refl

-- An IPv4 packet of 20 bytes, with two bytes behind it.
abbrev decapsulated : List ℕ
decapsulated = 69 ∷ 0 ∷ 0 ∷ 20 ∷ replicate 8 0 ++ (10 ∷ 0 ∷ 0 ∷ 1 ∷ 10 ∷ 0 ∷ 0 ∷ 2 ∷ 7 ∷ 7 ∷ [])

decapsulated_good :
    validate_decapsulated_packet decapsulated
    ≡ ok (write_to_tunnel (take 20 decapsulated) (10 ∷ 0 ∷ 0 ∷ 1 ∷ []))
unfolding validate_decapsulated_packet from_be_bytes16
decapsulated_good = refl
