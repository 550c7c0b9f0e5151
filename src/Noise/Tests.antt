-- ===== src/Noise/Tests.antt =====
-- The theorems of the transport session at concrete sessions and packets.
use fluxpeer.Prelude.{
  ℕ, ◌+◌, ◌-◌, ◌≡◌, refl, List, [], ◌∷◌, ◌++◌, Option, none, some, All, ok, arith, length, take,
  replicate, ltb, if◌then◌else◌, length-append, take-append_of, length-replicate,
}
use mathlib.Core.List.{Nodup}
use fluxpeer.Prelude.Bytes.{to_le_bytes32, to_le_bytes64}
use fluxpeer.Noise.Packet.{PacketData, data_packet, parse_incoming_packet}
use fluxpeer.Noise.Replay.{Validator, n_bits, will_accept, mark_did_receive}
use fluxpeer.Noise.Replay
use fluxpeer.Noise.Replay.Refinement.{
  Tracks, InRange, accepted, marks, new-Tracks, marks-Tracks, mark_did_receive-Tracks,
}
use fluxpeer.Noise.Session.{
  Aead, Random, Session, new, padding_bytes, format_packet_data, receive_packet_data, aead_size,
}
use fluxpeer.Noise.Session.Delivery.{receive_all, receive_all-Nodup}
use fluxpeer.Noise.Session.RoundTrip.{receive-format}

abbrev counters : List ℕ
counters = 3 ∷ 5 ∷ 70 ∷ 5 ∷ 4 ∷ 2000 ∷ []

counters-InRange : All InRange counters
counters-InRange = ground arith

abbrev window : Validator
window = (marks Replay.new [] counters).0

abbrev seen : List ℕ
seen = (marks Replay.new [] counters).1

window-Tracks : Tracks window seen
window-Tracks = marks-Tracks Replay.new [] counters counters-InRange new-Tracks

mark_did_receive-Tracks_example :
    Tracks (mark_did_receive window 1500).0 (accepted seen 1500 (mark_did_receive window 1500).1)
mark_did_receive-Tracks_example = mark_did_receive-Tracks window-Tracks 1500 (omega arith)

-- An AEAD that hides nothing, with a tag of zeros, on which the theorems are tried.
abbrev tag : List ℕ
tag = replicate aead_size 0

unfoldable pub open_plain : ℕ → List ℕ → List ℕ → Option (List ℕ)
open_plain k n c = if ltb (length c) aead_size then none else some (take (length c - aead_size) c)

abbrev pub plain : Aead
plain = record { Key = ℕ; seal = λ k n p. some (p ++ tag); open_in_place = open_plain }

plain_opens :
    (j k : ℕ) (n p c : List ℕ)
    → plain.seal j n p ≡ some c
    → (plain.open_in_place k n c ≡ some p) × (length c ≡ length p + aead_size)
unfolding open_plain
plain_opens j k n p c e = ground (arith, length-append p tag, take-append_of (length p) p tag)

-- A source of random bytes that gives zeros.
abbrev pub zeros : Random
zeros = record { word = some 7; padding = λ n. some (replicate n 0) }

zeros_fill : (k : ℕ) (b : List ℕ) → zeros.padding k ≡ some b → length b ≡ k
zeros_fill k b e = ground (arith, length-replicate {A = ℕ} k 0)

abbrev pub alice : Session plain
alice = new plain 1 2 11 12

abbrev pub bob : Session plain
bob = new plain 2 1 12 11

abbrev payload : List ℕ
payload = 69 ∷ 1 ∷ 2 ∷ 3 ∷ []

abbrev forged : PacketData
forged = record { receiver_idx = 2; counter = 9; encrypted_encapsulated_packet = 1 ∷ 2 ∷ [] }

abbrev genuine : PacketData
genuine = record {
  receiver_idx = 2;
  counter = 0;
  encrypted_encapsulated_packet = 0 ∷ 69 ∷ 1 ∷ [] ++ tag;
}

bob-Tracks : Tracks bob.receiving_key_counter []
unfolding new
bob-Tracks = new-Tracks

small : InRange genuine.counter
small = omega arith

abbrev arrivals : List (PacketData × ℕ)
arrivals = (genuine, 100) ∷ (forged, 100) ∷ (genuine, 100) ∷ []

receive_all-Nodup_example : Nodup (receive_all plain (new plain 2 1 12 11) [] arrivals).1
receive_all-Nodup_example = receive_all-Nodup plain 2 1 12 11 arrivals (ground arith)

abbrev calls : List (Random × List ℕ × ℕ)
calls = (zeros, payload, 100) ∷ (zeros, payload, 1) ∷ (zeros, payload, 100) ∷ []

-- Seven bytes of padding.
abbrev wire : List ℕ
wire = 4 ∷ 0 ∷ 0 ∷ 0 ∷ 2 ∷ 0 ∷ 0 ∷ 0 ∷ replicate 8 0 ++ (7 ∷ replicate 7 0 ++ payload) ++ tag

wire_sent : (format_packet_data plain alice zeros payload 100).1 ≡ ok wire
unfolding format_packet_data new padding_bytes to_le_bytes32 to_le_bytes64
wire_sent = refl

receive-format_example :
    (packet : PacketData) × (parse_incoming_packet wire ≡ ok (data_packet packet))
    × ((receive_packet_data plain bob packet 100).1 ≡ ok payload)
unfolding new Replay.new
receive-format_example =
    receive-format plain alice bob zeros [] (plain_opens 12 12) zeros_fill refl bob-Tracks
      (omega arith) refl payload 100 100 (omega arith) wire_sent
