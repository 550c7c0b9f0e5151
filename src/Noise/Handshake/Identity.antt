-- ===== src/Noise/Handshake/Identity.antt =====
-- Who an initiation comes from.
use fluxpeer.Prelude.{
  ℕ, ◌≡◌, inl, inr, ap, sym, ◌∙◌, List, ok, Result-cases, >>=-eq-ok, list_dec, ℕ_discrete,
}
use fluxpeer.Noise.{Error, wrong_key}
use fluxpeer.Noise.Packet.{HandshakeInit}
use fluxpeer.Noise.Session.{Aead, Session}
use fluxpeer.Noise.Tai64.{Tai64N}
use fluxpeer.Noise.Crypto.{Suite, key_len, aead_chacha20_open, verify_slices_are_equal}
use fluxpeer.Noise.Crypto.Sound.{verify_ne}
use fluxpeer.Noise.Schedule.{init_keys}
use fluxpeer.Noise.Handshake.{
  Env, NoiseParams, Handshake, HandshakeInitReceivedState, parse_handshake_anon, read_initiation,
  check_initiation, receive_handshake_initialization,
}

verify-eq : (a b : List ℕ) (e : Error) {u : Unit {0}} → verify_slices_are_equal a b e ≡ ok u → a ≡ b
verify-eq a b e h = elim (list_dec ℕ_discrete a b) [ yes p ↦ p | no p ↦ cc (verify_ne a b e p, h) ]

module _ {aead : Aead} (suite : Suite aead) where
  read_initiation-anon :
      (p : NoiseParams) (packet : HandshakeInit) (r : Tai64N × HandshakeInitReceivedState)
      → read_initiation aead suite p packet ≡ ok r
      → parse_handshake_anon aead suite p.static_private p.static_public packet
        ≡ ok p.peer_static_public
  unfolding read_initiation parse_handshake_anon
  read_initiation-anon p packet r h =
      let start =
        init_keys aead suite p.static_public packet.unencrypted_ephemeral
          (suite.diffie_hellman p.static_private packet.unencrypted_ephemeral) in
      let (peer, opened, rest) =
        >>=-eq-ok (aead_chacha20_open aead suite key_len start.2 0 packet.encrypted_static start.0)
          _ h in
      let (u, same, _) =
        >>=-eq-ok (verify_slices_are_equal p.peer_static_public peer wrong_key) _ rest in
      opened ∙ ap ok (sym (verify-eq p.peer_static_public peer wrong_key same))

  -- An initiation that is answered carries the static key of the peer: its first part opens to this
  -- key, under the keys of the receiver.
  pub answered_peer :
      (h : Handshake) (env : Env) (packet : HandshakeInit) (len : ℕ) (z : List ℕ × Session aead)
      → (receive_handshake_initialization aead suite h env packet len).1 ≡ ok z
      → parse_handshake_anon aead suite h.params.static_private h.params.static_public packet
        ≡ ok h.params.peer_static_public
  unfolding receive_handshake_initialization check_initiation
  answered_peer h env packet len z e =
      elim (Result-cases (read_initiation aead suite h.params packet)) [
        | inl (r, opened) ↦ read_initiation-anon h.params packet r opened
        | inr (x, failed) ↦ cc (rw (failed, receive_handshake_initialization) at e)
      ]
