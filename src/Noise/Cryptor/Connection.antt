-- ===== src/Noise/Cryptor/Connection.antt =====
-- Two peers that know each other connect: the three calls of a handshake.
use fluxpeer.Prelude.{
  ℕ, ◌≡◌, refl, ap, ◌∙◌, List, Option, none, some, ok, replicate, length-replicate,
}
use mathlib.Core.Path.{subst}
use fluxpeer.Noise.Packet.{init, handshake_init_sz, parse_incoming_packet}
use fluxpeer.Noise.Session.{Aead, Session}
use fluxpeer.Noise.Session
use fluxpeer.Noise.Tai64.{TimeStamper, stamp}
use fluxpeer.Noise.Crypto.{Suite}
use fluxpeer.Noise.Crypto.Sound.{IsSound}
use fluxpeer.Noise.Handshake.{
  inc_index, initiation, format_handshake_initiation, receive_handshake_initialization,
  receive_handshake_response, Env, Handshake, next_of, parse_handshake_anon, new_params,
  append_mac1,
}
use fluxpeer.Noise.Handshake
use fluxpeer.Noise.Handshake.Identity.{answered_peer}
use fluxpeer.Noise.Verifier.{Verifier, verify_packet}
use fluxpeer.Noise.Verifier
use fluxpeer.Noise.Verifier.Checks.{verify_packet-append_mac1}
use fluxpeer.Noise.Tunnel.{
  Noise, session_at, store, advance, current_live, n_sessions, distance, handle_verified_packet,
  handle_handshake_init,
}
use fluxpeer.Noise.Tunnel
use fluxpeer.Noise.Cryptor.{
  shaker, Cryptor, fresh_buffer, new_noise, init_handshake, handle_handshake,
  handle_handshake_response,
}
use fluxpeer.Noise.Cryptor.Steps.{
  first_shake, agrees_first, format-append_mac1, init_handshake_ok, handle_handshake_ok,
  handle_response_ok, advance_first, first_index, first_index_lem, stored,
}

module _ {aead : Aead} (suite : Suite aead) where
  -- The calls of a handshake, and the session of each side after them.
  pub record Connected (a b : List ℕ) (base base' : ℕ) (s s' : TimeStamper) (env env' later : Env)
      : Type 0 where
    pub initiator : Cryptor aead suite
    pub packet : List ℕ
    pub initiated :
        init_handshake aead suite a (suite.public_key b) base s env ≡ ok (initiator, packet)
    pub responder : Cryptor aead suite
    pub reply : List ℕ
    pub answered :
        handle_handshake aead suite b (suite.public_key b) packet base' s' env'
        ≡ ok (responder, some reply)
    pub completed : (handle_handshake_response aead suite initiator later reply).1 ≡ ok tt
    pub key : aead.Key
    pub key' : aead.Key
    pub sends :
        let t = (handle_handshake_response aead suite initiator later reply).0.noise in
        (t.current ≡ first_index base)
        × (session_at aead (shaker aead suite) t (first_index base)
            ≡ some (Session.new aead (first_index base) (first_index base') key' key))
    pub receives :
        (session_at aead (shaker aead suite) responder.noise (first_index base')
          ≡ some (Session.new aead (first_index base') (first_index base) key key'))
        × (responder.noise.next ≡ some (first_index base'))

module _ {aead : Aead} (suite : Suite aead) (sound : IsSound suite) where
  -- Two peers that call each other by their public keys connect, where random bytes are there for
  -- both and the clock of the first is read: its initiation is let through and answered, the answer
  -- is let through, it sends under the new session at once, and the other side holds the session
  -- that this one sends to, as the pending one.
  pub handshake_connects :
      (a b : List ℕ) (base base' : ℕ) (s s' : TimeStamper) (env env' later : Env)
      (x y time : List ℕ)
      → env.secret ≡ some x
      → env'.secret ≡ some y
      → stamp s env.now ≡ ok time
      → Connected suite a b base base' s s' env env' later
  unfolding Handshake.new new_params Verifier.new first_index Session.new new_noise Tunnel.new
  handshake_connects a b base base' s s' env env' later x y time random random' stamped =
      let g =
        agrees_first suite sound a b base base' s s' env env' x y time random random' stamped in
      let i = first_shake suite a (suite.public_key b) base s in
      let r = first_shake suite b (suite.public_key a) base' s' in
      let mine = Session.new aead (first_index base) (first_index base') g.key' g.key in
      let theirs = Session.new aead (first_index base') (first_index base) g.key g.key' in
      let started = init_handshake_ok suite a (suite.public_key b) base s env g.formatted in
      let (message, carries) =
        format-append_mac1 suite i (fresh_buffer env) handshake_init_sz g.formatted in
      let seen : verify_packet aead suite (Verifier.new aead suite (suite.public_key b)) g.packet
          ≡ ok (init g.first) =
        subst
          (λ p.
            verify_packet aead suite (Verifier.new aead suite (suite.public_key b)) p
            ≡ ok (init g.first))
          carries
          (verify_packet-append_mac1 suite sound (inc_index i) (fresh_buffer env)
            (Verifier.new aead suite (suite.public_key b)) message (init g.first) refl
            (length-replicate {A = ℕ} 16 0) (ap parse_incoming_packet carries ∙ g.parsed)) in
      let anon = answered_peer suite r (fresh_buffer env') g.first handshake_init_sz _ g.answered in
      let replied =
        subst
          (λ z.
            (receive_handshake_initialization aead suite r (fresh_buffer env') g.first
              handshake_init_sz).1
            ≡ ok (g.answer, z))
          g.theirs_new g.answered in
      let done =
        handle_response_ok suite _ later g.answer g.second g.answer_parsed
          (g.completed later ∙ ap ok g.mine_new) in
      let t =
        ap (λ z. z.0.noise) done
        ∙ advance_first suite _ (first_index base) refl (first_index_lem base) in
      record {
        initiator = _;
        packet = g.packet;
        initiated = started;
        responder = _;
        reply = g.answer;
        answered =
            handle_handshake_ok suite b (suite.public_key a) g.packet base' s' env' g.first seen
              anon replied;
        completed = ap (λ z. z.1) done;
        key = g.key;
        key' = g.key';
        sends = (
          ap (λ z. z.current) t,
          ap (λ z. session_at aead (shaker aead suite) z (first_index base)) t
              ∙ stored suite (replicate n_sessions none) (first_index base) mine
                  (length-replicate {A = Option (Session aead)} n_sessions none),
        );
        receives = (
          stored suite (replicate n_sessions none) (first_index base') theirs
              (length-replicate {A = Option (Session aead)} n_sessions none),
          refl,
        );
      }
