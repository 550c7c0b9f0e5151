-- ===== src/Noise.antt =====
-- The Noise protocol (engine/crypto): its errors here, and below the handshake, the sessions and
-- the tunnel.
pub mod Replay
pub mod Packet
pub mod Session
pub mod Crypto
pub mod Schedule
pub mod Tai64
pub mod Handshake
pub mod Verifier
pub mod Tunnel
pub mod Cryptor
pub mod Plain
mod Tests

-- engine/crypto/fp-crypto/src/error.rs
pub data Error : Type 0 where
  randomness_unavailable must_handshake_first already_handshake destination_buffer_too_small : Error
  incorrect_packet_length unexpected_packet wrong_packet_type wrong_index wrong_key : Error
  invalid_tai64n_timestamp wrong_tai64n_timestamp invalid_mac invalid_aead_tag : Error
  invalid_counter duplicate_counter invalid_packet no_current_session iface_send_failed : Error
  nonce_exhausted : Error
