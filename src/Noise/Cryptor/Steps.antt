-- ===== src/Noise/Cryptor/Steps.antt =====
-- What the calls of a `Cryptor` do where the handshake goes well.
use fluxpeer.Prelude.{
  ℕ, ◌+◌, ◌-◌, ◌*◌, ◌%◌, ◌^◌, ◌≡◌, refl, List, Option, none, some, ok, arith, length, get_or, set,
  get_or-set_self, ltb, Bool-cases, Result-cases, inl, inr,
}
use fluxpeer.Noise.Packet.{
  HandshakeInit, HandshakeResponse, init, response, handshake_init_sz, write_to_network,
  parse_incoming_packet,
}
use fluxpeer.Noise.Session.{Aead, Session}
use fluxpeer.Noise.Tai64.{TimeStamper, stamp, parse-stamp}
use fluxpeer.Noise.Crypto.{Suite}
use fluxpeer.Noise.Crypto.Sound.{IsSound}
use fluxpeer.Noise.Handshake.{
  inc_index, initiation, format_handshake_initiation, receive_handshake_initialization,
  receive_handshake_response, Env, Handshake, next_of, parse_handshake_anon, new_params,
  append_mac1,
}
use fluxpeer.Noise.Handshake
use fluxpeer.Noise.Handshake.Agreement.{Agreed, handshake_agrees}
use fluxpeer.Noise.Verifier.{Verifier, verify_packet}
use fluxpeer.Noise.Verifier
use fluxpeer.Noise.Tunnel.{
  Noise, session_at, store, advance, current_live, n_sessions, distance, handle_verified_packet,
  handle_handshake_init,
}
use fluxpeer.Noise.Tunnel
use fluxpeer.Noise.Cryptor.{
  shaker, shaking_initialization, shaking_response, shaking_initiation, Cryptor, fresh_buffer,
  new_noise, init_handshake, answer, handle_first, handle_handshake, handle_handshake_response,
}

-- The index of the first handshake.
unfoldable pub first_index : ℕ → ℕ
first_index base = next_of (base * 2 ^ 8 % 2 ^ 32)

pub first_index_lem : (base : ℕ) → first_index base % 256 ≡ 1
unfolding first_index next_of
first_index_lem base = omega arith

module _ {aead : Aead} (suite : Suite aead) where
  -- The handshake that a new tunnel holds.
  abbrev pub first_shake : List ℕ → List ℕ → ℕ → TimeStamper → Handshake
  first_shake own peer base stamper =
      Handshake.new aead suite own (suite.public_key own) peer (base * 2 ^ 8 % 2 ^ 32) none stamper

  -- A packet that is written carries the MAC for the peer.
  pub format-append_mac1 :
      (h : Handshake) (env : Env) (len : ℕ) {packet : List ℕ}
      → (format_handshake_initiation aead suite h env len).1 ≡ ok packet
      → (message : List ℕ) × (append_mac1 aead suite (inc_index h) env message ≡ packet)
  unfolding format_handshake_initiation
  format-append_mac1 h env len e = elim (Bool-cases (ltb len handshake_init_sz)) [
    | inl short ↦ cc (rw short at e)
    | inr fits ↦
        elim (Result-cases (initiation aead suite (inc_index h) env (next_of h.next_index))) [
          | inr (_, failed) ↦ cc (rw (fits, failed) at e)
          | inl ((message, _), made) ↦ (message, cc (rw (fits, made) at e))
        ]
  ]

  pub init_handshake_ok :
      (a peer : List ℕ) (base : ℕ) (s : TimeStamper) (env : Env) {packet : List ℕ}
      → (format_handshake_initiation aead suite
          (first_shake a peer base s)
          (fresh_buffer env)
          handshake_init_sz).1
        ≡ ok packet
      → init_handshake aead suite a peer base s env
        ≡ ok (
          record {
            noise = record (new_noise aead suite a peer none base s (fresh_buffer env)) {
              handshake = record {
                handshake =
                    (format_handshake_initiation aead suite
                      (first_shake a peer base s)
                      (fresh_buffer env)
                      handshake_init_sz).0;
                env = fresh_buffer env;
              };
            };
            verifier = Verifier.new aead suite (suite.public_key a);
          },
          packet,
        )
  unfolding init_handshake shaking_initiation new_noise Tunnel.new
  init_handshake_ok a peer base s env e = rw e refl

  -- The tunnel of the one that answers, with the session that waits.
  abbrev pub waiting :
      Noise aead (shaker aead suite) → Handshake → Session aead → Noise aead (shaker aead suite)
  waiting t h session =
      record (store aead (shaker aead suite)
        (record t { handshake = record t.handshake { handshake = h } }) session.receiving_index
        session) { next = some session.receiving_index }

  handle_init_ok :
      (t : Noise aead (shaker aead suite)) (p : HandshakeInit) (len : ℕ) {reply : List ℕ}
      {session : Session aead}
      → (receive_handshake_initialization aead suite t.handshake.handshake t.handshake.env p len).1
        ≡ ok (reply, session)
      → handle_verified_packet aead (shaker aead suite) t (init p) len ≡ (
        waiting t
            (receive_handshake_initialization aead suite t.handshake.handshake t.handshake.env p
              len).0
            session,
        ok (write_to_network reply),
      )
  unfolding handle_verified_packet handle_handshake_init shaking_initialization
  handle_init_ok t p len e = rw (e, handle_verified_packet, handle_handshake_init) refl

  pub handle_handshake_ok :
      (b peer packet : List ℕ) (base : ℕ) (s : TimeStamper) (env : Env) (first : HandshakeInit)
      {reply : List ℕ} {session : Session aead}
      → verify_packet aead suite (Verifier.new aead suite (suite.public_key b)) packet
        ≡ ok (init first)
      → parse_handshake_anon aead suite b (suite.public_key b) first ≡ ok peer
      → (receive_handshake_initialization aead suite
          (first_shake b peer base s)
          (fresh_buffer env)
          first
          handshake_init_sz).1
        ≡ ok (reply, session)
      → handle_handshake aead suite b (suite.public_key b) packet base s env
        ≡ ok (
          record {
            noise =
                waiting
                  (new_noise aead suite b peer none base s (fresh_buffer env))
                  (receive_handshake_initialization aead suite
                    (first_shake b peer base s)
                    (fresh_buffer env)
                    first
                    handshake_init_sz).0
                  session;
            verifier = Verifier.new aead suite (suite.public_key b);
          },
          some reply,
        )
  unfolding handle_handshake handle_first new_noise Tunnel.new answer
  handle_handshake_ok b peer packet base s env first {reply} {session} verified anon received =
      let t = new_noise aead suite b peer none base s (fresh_buffer env) in
      rw
        (
          verified,
          handle_handshake,
          handle_first,
          anon,
          handle_init_ok t first handshake_init_sz received,
        )
        refl

  pub handle_response_ok :
      (c : Cryptor aead suite) (env : Env) (packet : List ℕ) (q : HandshakeResponse)
      {session : Session aead}
      → parse_incoming_packet packet ≡ ok (response q)
      → (receive_handshake_response aead suite c.noise.handshake.handshake env q).1 ≡ ok session
      → let h = (receive_handshake_response aead suite c.noise.handshake.handshake env q).0 in
        handle_handshake_response aead suite c env packet ≡ (
          record c {
            noise =
                advance aead
                  (shaker aead suite)
                  (store aead
                    (shaker aead suite)
                    (record c.noise { handshake = record { handshake = h; env = env } })
                    session.receiving_index
                    session)
                  session.receiving_index;
          },
          ok tt,
        )
  unfolding handle_handshake_response Tunnel.handle_handshake_response shaking_response
  handle_response_ok c env packet q parsed e =
      rw (parsed, handle_handshake_response, e, Tunnel.handle_handshake_response) refl

  -- The first session of a tunnel is current at once.
  pub advance_first :
      (t : Noise aead (shaker aead suite)) (l : ℕ)
      → t.current ≡ 0
      → l % 256 ≡ 1
      → advance aead (shaker aead suite) t l ≡ record t { current = l; next = none }
  unfolding advance distance
  advance_first t l zero one =
      let d : (l % 256 + 256 - t.current % 256) % 256 ≡ 1 = omega arith in
      elim (Bool-cases (current_live aead (shaker aead suite) t)) [
        | inl live ↦ rw (live, d) refl
        | inr dead ↦ rw dead refl
      ]

  pub stored :
      (sessions : List (Option (Session aead))) (l : ℕ) (x : Session aead)
      → length sessions ≡ n_sessions
      → get_or (set sessions (l % n_sessions) (some x)) (l % n_sessions) none ≡ some x
  stored sessions l x size = get_or-set_self sessions (l % n_sessions) (some x) none (omega arith)

module _ {aead : Aead} (suite : Suite aead) (sound : IsSound suite) where
  pub agrees_first :
      (a b : List ℕ) (base base' : ℕ) (s s' : TimeStamper) (env env' : Env) (x y time : List ℕ)
      → env.secret ≡ some x
      → env'.secret ≡ some y
      → stamp s env.now ≡ ok time
      → Agreed suite
          (first_shake suite a (suite.public_key b) base s)
          (first_shake suite b (suite.public_key a) base' s')
          (fresh_buffer env)
          (fresh_buffer env')
          handshake_init_sz
          handshake_init_sz
  unfolding Handshake.new
  agrees_first a b base base' s s' env env' x y time random random' stamped =
      let (t, parsed, late) = parse-stamp s env.now stamped in
      handshake_agrees suite sound a b none (first_shake suite a (suite.public_key b) base s)
        (first_shake suite b (suite.public_key a) base' s') (fresh_buffer env) (fresh_buffer env')
        handshake_init_sz handshake_init_sz x y time t refl refl random random' refl refl
        (omega arith) (omega arith) stamped parsed late
