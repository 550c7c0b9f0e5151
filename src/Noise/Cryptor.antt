-- ===== src/Noise/Cryptor.antt =====
-- engine/crypto/fp-crypto-noise/src/crypto.rs: the `Cryptor` of one peer, which is a tunnel with
-- its handshake and its verifier. Each call is given what it finds outside, as an `Env`.
pub mod Indices
pub mod Steps
pub mod Connection
pub mod Delivery
mod Tests
use fluxpeer.Prelude.{
  ℕ, ◌+◌, ◌*◌, ◌%◌, ◌^◌, List, [], Option, none, some, replicate, Result, ok, err, ◌>>=◌,
}
use fluxpeer.Noise.{Error, invalid_mac, invalid_packet, unexpected_packet}
use fluxpeer.Noise.Packet.{
  HandshakeInit, HandshakeResponse, Packet, init, response, data_packet, NoiseResult, done,
  write_to_network, write_to_tunnel, handshake_init_sz, parse_incoming_packet,
}
use fluxpeer.Noise.Session.{Aead, Random, Session}
use fluxpeer.Noise.Tai64.{TimeStamper}
use fluxpeer.Noise.Crypto.{Suite}
use fluxpeer.Noise.Handshake.{Env, Handshake, parse_handshake_anon}
use fluxpeer.Noise.Handshake
use fluxpeer.Noise.Verifier.{Verifier, verify_packet}
use fluxpeer.Noise.Verifier
use fluxpeer.Noise.Tunnel.{Handshaker, Noise, encapsulate, handle_verified_packet}
use fluxpeer.Noise.Tunnel

-- `PEER_INDEX.fetch_add(1)`: the counter goes on, and its last 24 bits are the base.
unfoldable pub next_session_base : ℕ → ℕ × ℕ
next_session_base peer_index = ((peer_index + 1) % 2 ^ 32, peer_index % 2 ^ 24 * 2 ^ 8 % 2 ^ 32)

-- A buffer that the call makes itself holds zeros.
abbrev pub fresh_buffer : Env → Env
fresh_buffer env = record env { mac2 = replicate 16 0 }

-- The response that is sent back, if there is one.
unfoldable pub answer : NoiseResult → Option (List ℕ)
answer (write_to_network packet) = some packet
answer done = none
answer (write_to_tunnel packet src) = none

abbrev network_only : NoiseResult → Result (List ℕ) Error
network_only (write_to_network packet) = ok packet
network_only done = err unexpected_packet
network_only (write_to_tunnel packet src) = err unexpected_packet

-- A keepalive is an empty packet.
abbrev pub tunnel_only : NoiseResult → Result (List ℕ) Error
tunnel_only (write_to_tunnel packet src) = ok packet
tunnel_only done = ok []
tunnel_only (write_to_network packet) = err unexpected_packet

module _ (aead : Aead) (suite : Suite aead) where
  -- The handshake, with what the next call of it finds.
  pub record Shaking : Type 0 where
    pub handshake : Handshake
    pub env : Env

  unfoldable pub shaking_initialization :
      Shaking → HandshakeInit → ℕ → Shaking × Result (List ℕ × Session aead) Error
  shaking_initialization st p dst_len =
      let (h, r) =
        Handshake.receive_handshake_initialization aead suite st.handshake st.env p dst_len in
      (record st { handshake = h }, r)

  unfoldable pub shaking_response :
      Shaking → HandshakeResponse → Shaking × Result (Session aead) Error
  shaking_response st p =
      let (h, r) = Handshake.receive_handshake_response aead suite st.handshake st.env p in
      (record st { handshake = h }, r)

  unfoldable pub shaking_initiation : Shaking → ℕ → Shaking × Result (List ℕ) Error
  shaking_initiation st dst_len =
      let (h, r) = Handshake.format_handshake_initiation aead suite st.handshake st.env dst_len in
      (record st { handshake = h }, r)

  -- `Handshake`, as the tunnel uses it.
  abbrev pub shaker : Handshaker aead
  shaker = record {
    State = Shaking;
    receive_handshake_initialization = shaking_initialization;
    receive_handshake_response = shaking_response;
    format_handshake_initiation = shaking_initiation;
  }

  pub record Cryptor : Type 0 where
    pub noise : Noise aead shaker
    pub verifier : Verifier aead suite

  abbrev pub with_env : Env → Noise aead shaker → Noise aead shaker
  with_env env t = record t { handshake = record { handshake = t.handshake.handshake; env = env } }

  -- `Noise::new`, which shifts the index that it is given by eight bits.
  unfoldable pub new_noise :
      List ℕ → List ℕ → Option (List ℕ) → ℕ → TimeStamper → Env → Noise aead shaker
  new_noise static_private peer_static_public preshared_key index stamper env =
      Tunnel.new aead shaker (record {
        handshake =
            Handshake.new aead suite static_private (suite.public_key static_private)
              peer_static_public (index * 2 ^ 8 % 2 ^ 32) preshared_key stamper;
        env = env;
      })

  unfoldable pub init_handshake :
      List ℕ → List ℕ → ℕ → TimeStamper → Env → Result (Cryptor × List ℕ) Error
  init_handshake own_prikey node_pubkey base stamper env =
      let noise = new_noise own_prikey node_pubkey none base stamper (fresh_buffer env) in
      let (st, r) = shaking_initiation noise.handshake handshake_init_sz in
      do
        packet ← r
        ok (
          record {
            noise = record noise { handshake = st };
            verifier = Verifier.new aead suite (suite.public_key own_prikey);
          },
          packet,
        )

  -- The initiation of a peer that is known by it alone.
  unfoldable pub handle_first :
      List ℕ
      → List ℕ
      → Verifier aead suite
      → Packet
      → ℕ
      → TimeStamper
      → Env
      → Result (Cryptor × Option (List ℕ)) Error
  handle_first own_prikey own_pubkey verifier (init p) base stamper env = do
    pkey ← parse_handshake_anon aead suite own_prikey own_pubkey p
    let noise = new_noise own_prikey pkey none base stamper (fresh_buffer env)
    let handled = handle_verified_packet aead shaker noise (init p) handshake_init_sz
    r ← handled.1
    ok (record { noise = handled.0; verifier = verifier }, answer r)
  handle_first own_prikey own_pubkey verifier (response p) base stamper env = err invalid_packet
  handle_first own_prikey own_pubkey verifier (data_packet p) base stamper env = err invalid_packet

  unfoldable pub handle_handshake :
      List ℕ → List ℕ → List ℕ → ℕ → TimeStamper → Env → Result (Cryptor × Option (List ℕ)) Error
  handle_handshake own_prikey own_pubkey packet base stamper env =
      let verifier = Verifier.new aead suite own_pubkey in
      elim (verify_packet aead suite verifier packet) [
        | err _ ↦ err invalid_mac
        | ok p ↦ handle_first own_prikey own_pubkey verifier p base stamper env
      ]

  abbrev respond_to : Cryptor → Env → Packet → Cryptor × Result (Unit {0}) Error
  respond_to c env (response p) =
      let (noise, r) = Tunnel.handle_handshake_response aead shaker (with_env env c.noise) p in
      (record c { noise = noise }, (do _ ← r; ok tt))
  respond_to c env (init p) = (c, err unexpected_packet)
  respond_to c env (data_packet p) = (c, err unexpected_packet)

  unfoldable pub handle_handshake_response :
      Cryptor → Env → List ℕ → Cryptor × Result (Unit {0}) Error
  handle_handshake_response c env packet = elim (parse_incoming_packet packet) [
    | err e ↦ (c, err e)
    | ok p ↦ respond_to c env p
  ]

  unfoldable pub on_send : Cryptor → Env → Random → List ℕ → ℕ → Cryptor × Result (List ℕ) Error
  on_send c env rng packet dst_len =
      let (noise, r) = encapsulate aead shaker (with_env env c.noise) rng packet dst_len in
      (record c { noise = noise }, (do x ← r; network_only x))

  unfoldable pub on_recv : Cryptor → Env → List ℕ → ℕ → Cryptor × Result (List ℕ) Error
  on_recv c env packet dst_len = elim (verify_packet aead suite c.verifier packet) [
    | err _ ↦ (c, err unexpected_packet)
    | ok p ↦
        let (noise, r) = handle_verified_packet aead shaker (with_env env c.noise) p dst_len in
        (record c { noise = noise }, (do x ← r; tunnel_only x))
  ]

  unfoldable pub get_peer_public : Cryptor → List ℕ
  get_peer_public c = c.noise.handshake.handshake.params.peer_static_public

  unfoldable pub rekey_init : Cryptor → Env → ℕ → Cryptor × Result (List ℕ) Error
  rekey_init c env dst_len =
      let (st, r) = shaking_initiation (with_env env c.noise).handshake dst_len in
      (record c { noise = record (with_env env c.noise) { handshake = st } }, r)

  unfoldable pub rekey_respond :
      Cryptor → Env → List ℕ → ℕ → Cryptor × Result (Option (List ℕ)) Error
  rekey_respond c env packet dst_len = elim (verify_packet aead suite c.verifier packet) [
    | err _ ↦ (c, err unexpected_packet)
    | ok p ↦
        let (noise, r) = handle_verified_packet aead shaker (with_env env c.noise) p dst_len in
        (record c { noise = noise }, (do x ← r; ok (answer x)))
  ]

  abbrev peek : List ℕ → List ℕ → Packet → Option (List ℕ)
  peek own_priv own_pub (init p) = elim (parse_handshake_anon aead suite own_priv own_pub p) [
    | ok key ↦ some key
    | err _ ↦ none
  ]
  peek own_priv own_pub (response p) = none
  peek own_priv own_pub (data_packet p) = none

  unfoldable pub peek_init_pubkey : List ℕ → List ℕ → List ℕ → Option (List ℕ)
  peek_init_pubkey own_priv own_pub packet =
      elim (verify_packet aead suite (Verifier.new aead suite own_pub) packet) [
        | err _ ↦ none
        | ok p ↦ peek own_priv own_pub p
      ]
