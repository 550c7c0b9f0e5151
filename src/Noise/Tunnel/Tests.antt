-- ===== src/Noise/Tunnel/Tests.antt =====
-- A tunnel whose handshakes hand out sessions under the next index, over the AEAD that hides
-- nothing.
use fluxpeer.Prelude.{ℕ, ◌+◌, ◌≡◌, ◌≢◌, refl, List, [], ◌∷◌, ◌++◌, none, some, ok, arith, replicate}
use fluxpeer.Noise.Packet.{HandshakeInit, PacketData, init}
use fluxpeer.Noise.Replay
use fluxpeer.Noise.Session.{Aead, Session, receive_packet_data, aead_size}
use fluxpeer.Noise.Session
use fluxpeer.Noise.Tests.{plain, open_plain}
use fluxpeer.Noise.Tunnel.{
  Handshaker, Noise, confirm, confirm_pending, new, session_at, handle_data, handle_handshake_init,
  handle_verified_packet,
}
use fluxpeer.Noise.Tunnel.Rollover.{handle_data_switch}
use fluxpeer.Noise.Tunnel.Ring.{IsRing, new-IsRing, handle_verified_packet-IsRing}

abbrev session : ℕ → Session plain
session i = Session.new plain i 1 11 12

abbrev shaker : Handshaker plain
shaker = record {
  State = ℕ;
  receive_handshake_initialization = λ n p dst_len. (n + 1, ok ([], session n));
  receive_handshake_response = λ n p. (n + 1, ok (session n));
  format_handshake_initiation = λ n dst_len. (n, ok []);
}

abbrev hello : HandshakeInit
hello = record {
  sender_idx = 1;
  unencrypted_ephemeral = [];
  encrypted_static = [];
  encrypted_timestamp = [];
}

abbrev fresh : Noise plain shaker
fresh = new plain shaker 2

-- A responder whose new session waits for its first packet.
abbrev waiting : Noise plain shaker
waiting = (handle_handshake_init plain shaker fresh hello 200).0

abbrev first_packet : PacketData
first_packet = record {
  receiver_idx = 2;
  counter = 0;
  encrypted_encapsulated_packet = 0 ∷ [] ++ replicate aead_size 0;
}

moved : (handle_data plain shaker waiting first_packet 100).0.current ≢ waiting.current
unfolding handle_data handle_handshake_init new Session.new receive_packet_data Replay.will_accept
    Replay.new open_plain Session.receiving_counter_mark Replay.mark_did_receive Session.strip
    confirm confirm_pending
moved e =
    let now : (handle_data plain shaker waiting first_packet 100).0.current ≡ 2 = refl in
    omega arith

handle_data_switch_example :
    let r = handle_data plain shaker waiting first_packet 100 in
    (waiting.next ≡ some 2)
    × (r.0.current ≡ 2)
    × (r.0.next ≡ none)
    × ((s : Session plain) × (payload : List ℕ) × (session_at plain shaker waiting 2 ≡ some s)
        × ((receive_packet_data plain s first_packet 100).1 ≡ ok payload))
handle_data_switch_example = handle_data_switch plain shaker waiting first_packet 100 moved

abbrev sending : ℕ → Noise plain shaker
sending i = record fresh { current = i; sessions = some (session i) ∷ replicate 7 none }

fresh-IsRing : IsRing plain shaker fresh
fresh-IsRing = new-IsRing plain shaker 2

handle_verified_packet-IsRing_example :
    IsRing plain shaker (handle_verified_packet plain shaker fresh (init hello) 200).0
handle_verified_packet-IsRing_example =
    handle_verified_packet-IsRing plain shaker fresh (init hello) 200 fresh-IsRing
