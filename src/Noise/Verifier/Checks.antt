-- ===== src/Noise/Verifier/Checks.antt =====
-- A handshake packet is let through exactly where its first MAC is right.
use fluxpeer.Prelude.{
  ℕ, ◌-◌, ◌≡◌, ◌≢◌, Bool-cases, inl, inr, refl, ap, sym, ◌∙◌, true, false, List, ◌++◌, ok, err,
  arith, length, take, drop, length-append, take-append_of, drop-append_of, take_of_length-le,
}
use fluxpeer.Noise.{invalid_mac}
use fluxpeer.Noise.Packet.{Packet, parse_incoming_packet}
use fluxpeer.Noise.Session.{Aead}
use fluxpeer.Noise.Crypto.{Suite, b2s_keyed_mac_16}
use fluxpeer.Noise.Crypto.Sound.{IsSound, verify_eq, verify_ne}
use fluxpeer.Noise.Handshake.{Env, Handshake, append_mac1}
use fluxpeer.Noise.Verifier.{Verifier, verify_packet, is_handshake}

module _ {aead : Aead} (suite : Suite aead) where
  pub verify_packet_lem :
      (v : Verifier aead suite) (src : List ℕ) (packet : Packet)
      → parse_incoming_packet src ≡ ok packet
      → is_handshake packet ≡ true
      → let msg = take (length src - 32) src in
        let mac1 = take 16 (drop (length src - 32) src) in
        ((take 16 (b2s_keyed_mac_16 aead suite v.mac1_key msg) ≡ mac1)
          → verify_packet aead suite v src ≡ ok packet)
        × ((take 16 (b2s_keyed_mac_16 aead suite v.mac1_key msg) ≢ mac1)
            → verify_packet aead suite v src ≡ err invalid_mac)
  unfolding verify_packet
  verify_packet_lem v src packet parsed shake =
      let computed =
        take 16 (b2s_keyed_mac_16 aead suite v.mac1_key (take (length src - 32) src)) in
      let mac1 = take 16 (drop (length src - 32) src) in
      (
        λ e. rw (parsed, shake, verify_eq computed mac1 invalid_mac e) refl,
        λ ne. rw (parsed, shake, verify_ne computed mac1 invalid_mac ne) refl,
      )

  pub verify_packet-data :
      (v : Verifier aead suite) (src : List ℕ) (packet : Packet)
      → parse_incoming_packet src ≡ ok packet
      → is_handshake packet ≡ false
      → verify_packet aead suite v src ≡ ok packet
  unfolding verify_packet
  verify_packet-data v src packet parsed plain = rw (parsed, plain) refl

  -- A message with its MAC behind it passes at the one that the MAC's key belongs to, as what it is
  -- parsed as.
  pub verify_packet-append_mac1 :
      (sound : IsSound suite) (h : Handshake) (env : Env) (v : Verifier aead suite)
      (message : List ℕ) (packet : Packet)
      → v.mac1_key ≡ h.params.sending_mac1_key
      → length env.mac2 ≡ 16
      → parse_incoming_packet (append_mac1 aead suite h env message) ≡ ok packet
      → verify_packet aead suite v (append_mac1 aead suite h env message) ≡ ok packet
  unfolding append_mac1 b2s_keyed_mac_16
  verify_packet-append_mac1 sound h env v message packet own hm parsed =
      let mac = suite.blake2s_mac h.params.sending_mac1_key message in
      let src = message ++ (mac ++ env.mac2) in
      let size : length mac ≡ 16 = sound.mac_length _ _ in
      let front : length message ≡ length src - 32 =
        omega (arith, length-append message (mac ++ env.mac2), length-append mac env.mac2) in
      let msg = take-append_of (length src - 32) message (mac ++ env.mac2) front in
      let rest = drop-append_of (length src - 32) message (mac ++ env.mac2) front in
      let here : take 16 (drop (length src - 32) src) ≡ mac =
        ap (take 16) rest ∙ take-append_of 16 mac env.mac2 size in
      let right : take 16 (suite.blake2s_mac v.mac1_key (take (length src - 32) src))
          ≡ take 16 (drop (length src - 32) src) =
        ap (λ k. take 16 (suite.blake2s_mac k (take (length src - 32) src))) own
        ∙ ap (λ m. take 16 (suite.blake2s_mac h.params.sending_mac1_key m)) msg
        ∙ take_of_length-le 16 mac (omega arith)
        ∙ sym here in
      elim (Bool-cases (is_handshake packet)) [
        | inl shake ↦ (verify_packet_lem v src packet parsed shake).0 right
        | inr plain ↦ verify_packet-data v src packet parsed plain
      ]
