-- ===== src/Noise/Cryptor/Tests.antt =====
-- Two peers whose functions hide nothing connect, and the first of them sends.
use fluxpeer.Prelude.{
  ℕ, ◌+◌, ◌≡◌, ◌≢◌, refl, List, [], ◌∷◌, ◌++◌, none, ok, arith, replicate, ◌>>=◌,
}
use fluxpeer.Prelude.Bytes.{to_be_bytes32}
use fluxpeer.Noise.Packet.{Packet, response, validate_decapsulated_packet, handshake_resp}
use fluxpeer.Noise.Tests.{plain, zeros}
use fluxpeer.Noise.Plain.{plain_suite, plain_suite-IsSound, zeros-IsReady, stamper, outside}
use fluxpeer.Noise.Tai64.{stamp, add_durations, checked_add64, to_be_bytes64, tai64_base}
use fluxpeer.Noise.Handshake.{Handshake, format_handshake_initiation}
use fluxpeer.Noise.Handshake.Replays.{here, next, initiates}
use fluxpeer.Noise.Verifier.{Verifier}
use fluxpeer.Noise.Verifier
use fluxpeer.Noise.Cryptor.{handle_handshake_response, on_send, on_recv, tunnel_only}
use fluxpeer.Noise.Cryptor.Steps.{first_index}
use fluxpeer.Noise.Cryptor.Connection.{Connected, handshake_connects}
use fluxpeer.Noise.Cryptor.Delivery.{first_delivery}
use fluxpeer.Noise.Cryptor.Indices.{peer_at, peers_apart}

abbrev public : ℕ → List ℕ
public secret = plain_suite.public_key (secret ∷ [])

abbrev time : List ℕ
time = to_be_bytes64 (1 + tai64_base) ++ to_be_bytes32 0

handshake_connects_example :
    Connected plain_suite
      (1 ∷ [])
      (2 ∷ [])
      256
      512
      stamper
      stamper
      (outside 7)
      (outside 9)
      (outside 0)
unfolding stamp add_durations checked_add64
handshake_connects_example =
    handshake_connects plain_suite plain_suite-IsSound (1 ∷ []) (2 ∷ []) 256 512 stamper stamper
      (outside 7) (outside 9) (outside 0) (7 ∷ []) (9 ∷ []) time refl refl refl

abbrev pair :
    Connected plain_suite
      (1 ∷ [])
      (2 ∷ [])
      256
      512
      stamper
      stamper
      (outside 7)
      (outside 9)
      (outside 0)
unfolding stamp add_durations checked_add64
pair =
    handshake_connects plain_suite plain_suite-IsSound (1 ∷ []) (2 ∷ []) 256 512 stamper stamper
      (outside 7) (outside 9) (outside 0) (7 ∷ []) (9 ∷ []) time refl refl refl

abbrev payload : List ℕ
payload = 69 ∷ 0 ∷ 0 ∷ 20 ∷ replicate 16 0

first_delivery_example :
    let sender =
      (handle_handshake_response plain plain_suite pair.initiator (outside 0) pair.reply).0 in
    (pkt : List ℕ) × ((on_send plain plain_suite sender (outside 3) zeros payload 100).1 ≡ ok pkt)
    × ((on_recv plain plain_suite pair.responder (outside 4) pkt 100).1
        ≡ (validate_decapsulated_packet payload >>= tunnel_only))
    × ((on_recv plain plain_suite pair.responder (outside 4) pkt 100).0.noise.current
        ≡ first_index 512)
first_delivery_example =
    first_delivery plain_suite zeros-IsReady (1 ∷ []) (2 ∷ []) 256 512 stamper stamper (outside 7)
      (outside 9) (outside 0) (outside 3) (outside 4) pair payload 100 100 (omega arith)
      (omega arith)

abbrev own : Verifier plain plain_suite
own = Verifier.new plain plain_suite (public 2)

-- A response with a wrong MAC.
abbrev forged : List ℕ
forged = handshake_resp ∷ replicate 91 0

abbrev forged_packet : Packet
forged_packet = response (record {
  sender_idx = 0;
  receiver_idx = 0;
  unencrypted_ephemeral = replicate 32 0;
  encrypted_nothing = replicate 16 0;
})

abbrev tenth : Handshake
tenth = peer_at plain_suite 10 (2 ∷ []) (public 1) none stamper (outside 9)

abbrev other : Handshake
other = peer_at plain_suite 11 (2 ∷ []) (public 3) none stamper (outside 9)

abbrev tenth_later : Handshake
tenth_later = (format_handshake_initiation plain plain_suite tenth (outside 9) 148).0

peers_apart_example :
    (tenth_later.next_index ≢ other.next_index)
    × ((peer_at plain_suite 65546 (2 ∷ []) (public 3) none stamper (outside 9)).next_index
        ≡ tenth.next_index)
peers_apart_example =
    peers_apart plain_suite 10 11 (2 ∷ []) (public 1) (public 3) none none stamper stamper
      (outside 9) (outside 9) tenth_later other (omega arith) (omega arith)
      (next here (initiates _ _)) here
