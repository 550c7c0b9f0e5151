-- ===== src/Noise/Verifier.antt =====
-- engine/crypto/fp-crypto-noise/src/verifier.rs: the check of the first MAC of a handshake packet.
pub mod Checks
use fluxpeer.Prelude.{
  ℕ, ◌-◌, Bool, true, false, List, length, take, drop, if◌then◌else◌, Result, ok, err, ◌>>=◌,
}
use fluxpeer.Noise.{Error, invalid_mac}
use fluxpeer.Noise.Packet.{Packet, init, response, data_packet, parse_incoming_packet}
use fluxpeer.Noise.Session.{Aead}
use fluxpeer.Noise.Crypto.{Suite, label_mac1, b2s_hash, b2s_keyed_mac_16, verify_slices_are_equal}

unfoldable pub is_handshake : Packet → Bool
is_handshake (init _) = true
is_handshake (response _) = true
is_handshake (data_packet _) = false

module _ (aead : Aead) (suite : Suite aead) where
  pub record Verifier : Type 0 where
    pub mac1_key : List ℕ

  unfoldable pub new : List ℕ → Verifier
  new public_key = record { mac1_key = b2s_hash aead suite label_mac1 public_key }

  unfoldable pub verify_packet : Verifier → List ℕ → Result Packet Error
  verify_packet v src = do
    packet ← parse_incoming_packet src
    let msg = take (length src - 32) src
    let mac1 = take 16 (drop (length src - 32) src)
    let computed_mac1 = take 16 (b2s_keyed_mac_16 aead suite v.mac1_key msg)
    if is_handshake packet
        then verify_slices_are_equal computed_mac1 mac1 invalid_mac >>= (λ _. ok packet)
        else ok packet
