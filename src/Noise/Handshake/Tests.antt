-- ===== src/Noise/Handshake/Tests.antt =====
-- The theorems of the handshake at two peers whose functions hide nothing.
use fluxpeer.Prelude.{
  ℕ, ◌+◌, ◌≡◌, refl, List, [], ◌∷◌, ◌++◌, none, ok, err, arith, replicate, list_dec, ℕ_discrete,
}
use fluxpeer.Prelude.Bytes.{to_le_bytes32, to_be_bytes32, from_be_bytes32}
use fluxpeer.Noise.{wrong_tai64n_timestamp}
use fluxpeer.Noise.Packet.{HandshakeInit, handshake_init_sz, handshake_resp_sz}
use fluxpeer.Noise.Tests.{plain, open_plain}
use fluxpeer.Noise.Plain.{plain_suite, plain_suite-IsSound, stamper, outside, first_byte, key_of}
use fluxpeer.Noise.Tai64.{
  Tai64N, stamp, parse, after, zero_stamp, to_be_bytes64, add_durations, checked_add64, tai64_base,
}
use fluxpeer.Noise.Crypto.{
  verify_slices_are_equal, aead_chacha20_open, aead_chacha20_seal, b2s_hash, b2s_hmac, b2s_hmac2,
  b2s_keyed_mac_16,
}
use fluxpeer.Noise.Schedule.{mix, mix_key, init_keys, response_keys, session_keys}
use fluxpeer.Noise.Session
use fluxpeer.Noise.Replay
use fluxpeer.Noise.Handshake.{
  Handshake, new, new_params, parse_handshake_anon, read_initiation, check_initiation,
  receive_handshake_initialization, format_handshake_initiation, format_handshake_response,
  received, respond, next_of, append_mac1, new_session,
}
use fluxpeer.Noise.Handshake.Agreement.{Agreed, handshake_agrees}
use fluxpeer.Noise.Handshake.Identity.{answered_peer}
use fluxpeer.Noise.Handshake.Replays.{here, next, initiates, replay_refused}

abbrev public : ℕ → List ℕ
public secret = plain_suite.public_key (secret ∷ [])

abbrev alice : Handshake
alice = new plain plain_suite (1 ∷ []) (public 1) (public 2) 256 none stamper

abbrev bob : Handshake
bob = new plain plain_suite (2 ∷ []) (public 2) (public 1) 512 none stamper

-- One second after the year 1970 began.
abbrev first_time : Tai64N
first_time = record { secs = 1 + tai64_base; nano = 0 }

handshake_agrees_example :
    Agreed plain_suite alice bob (outside 7) (outside 9) handshake_init_sz handshake_resp_sz
unfolding new zero_stamp stamp add_durations checked_add64 parse after to_be_bytes64 to_be_bytes32
    from_be_bytes32
handshake_agrees_example =
    handshake_agrees plain_suite plain_suite-IsSound (1 ∷ []) (2 ∷ []) none alice bob (outside 7)
      (outside 9) handshake_init_sz handshake_resp_sz (7 ∷ []) (9 ∷ [])
      (to_be_bytes64 (1 + tai64_base) ++ to_be_bytes32 0) first_time refl refl refl refl refl refl
      (omega arith) (omega arith) refl refl refl

abbrev hello : HandshakeInit
hello = record {
  sender_idx = 257;
  unencrypted_ephemeral = public 7;
  encrypted_static = public 1 ++ replicate 16 0;
  encrypted_timestamp = replicate 8 0 ++ (replicate 3 0 ++ (1 ∷ [])) ++ replicate 16 0;
}

answered_peer_example :
    parse_handshake_anon plain plain_suite (2 ∷ []) (public 2) hello ≡ ok (public 1)
unfolding new new_params check_initiation read_initiation aead_chacha20_open key_of init_keys
    mix_key b2s_hmac2 open_plain verify_slices_are_equal list_dec ℕ_discrete first_byte parse after
    zero_stamp from_be_bytes32 receive_handshake_initialization format_handshake_response received
    respond next_of aead_chacha20_seal b2s_hash b2s_hmac b2s_keyed_mac_16 append_mac1 new_session
    mix response_keys session_keys Session.new Replay.new to_le_bytes32
answered_peer_example = answered_peer plain_suite bob (outside 9) hello handshake_resp_sz _ refl

abbrev again : Handshake
again =
    (receive_handshake_initialization plain plain_suite bob (outside 9) hello handshake_resp_sz).0

abbrev rekeyed : Handshake
rekeyed = (format_handshake_initiation plain plain_suite again (outside 5) handshake_init_sz).0

replay_refused_example :
    receive_handshake_initialization plain plain_suite rekeyed (outside 6) hello handshake_resp_sz
    ≡ (rekeyed, err wrong_tai64n_timestamp)
unfolding new new_params check_initiation read_initiation aead_chacha20_open key_of init_keys
    mix_key b2s_hmac2 open_plain verify_slices_are_equal list_dec ℕ_discrete first_byte parse after
    zero_stamp from_be_bytes32
replay_refused_example =
    replay_refused plain_suite bob rekeyed (outside 9) (outside 6) hello handshake_resp_sz
      handshake_resp_sz (record { secs = 0; nano = 1 }) _ refl (next here (initiates _ _))
