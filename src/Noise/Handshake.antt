-- ===== src/Noise/Handshake.antt =====
-- engine/crypto/fp-crypto-noise/src/handshake.rs: the state of the handshake, the two messages that
-- it writes and reads, and the sessions that it ends in. What a call takes from the outside is an
-- `Env`. A destination buffer is its length, and the message is what the call writes to its front.
pub mod Wire
pub mod Initiate
pub mod Answer
pub mod Awaiting
pub mod Agreement
pub mod Identity
pub mod Replays
pub mod Indices
mod Tests
use fluxpeer.Prelude.{
  ℕ, ◌+◌, ◌-◌, ◌*◌, ◌/◌, ◌%◌, ◌^◌, Bool, true, false, not, List, [], ◌∷◌, ◌++◌, Option, none, some,
  ltb, ◌==◌, if◌then◌else◌, length, take, drop, replicate, Result, ok, err, ◌>>=◌, ok_or,
}
use fluxpeer.Prelude.Bytes.{to_le_bytes32}
use fluxpeer.Noise.{
  Error, randomness_unavailable, wrong_key, wrong_tai64n_timestamp, unexpected_packet,
  destination_buffer_too_small,
}
use fluxpeer.Noise.Packet.{
  HandshakeInit, HandshakeResponse, handshake_init, handshake_resp, handshake_init_sz,
  handshake_resp_sz,
}
use fluxpeer.Noise.Session.{Aead, Session}
use fluxpeer.Noise.Session
use fluxpeer.Noise.Tai64.{Tai64N, TimeStamper, zero_stamp, stamp, parse, after, timestamp_len}
use fluxpeer.Noise.Schedule.{init_keys, mix_key, response_keys, session_keys}
use fluxpeer.Noise.Crypto.{
  Suite, key_len, label_mac1, b2s_hash, b2s_hmac, b2s_hmac2, b2s_keyed_mac_16,
  verify_slices_are_equal, aead_chacha20_seal, aead_chacha20_open,
}

-- What a call finds: the 32 bytes that `OsRng` gives, the clock, and the 16 bytes that stand in the
-- buffer where the second MAC would be, which no call writes.
pub record Env : Type 0 where
  pub secret : Option (List ℕ)
  pub now : ℕ
  pub mac2 : List ℕ

pub record NoiseParams : Type 0 where
  pub static_public : List ℕ
  pub static_private : List ℕ
  pub peer_static_public : List ℕ
  pub static_shared : List ℕ
  pub sending_mac1_key : List ℕ
  pub preshared_key : Option (List ℕ)

pub record HandshakeInitSentState : Type 0 where
  pub local_index : ℕ
  pub hash : List ℕ
  pub chaining_key : List ℕ
  pub ephemeral_private : List ℕ
  pub time_sent : ℕ

pub record HandshakeInitReceivedState : Type 0 where
  pub hash : List ℕ
  pub chaining_key : List ℕ
  pub peer_ephemeral_public : List ℕ
  pub peer_index : ℕ

pub data HandshakeState : Type 0 where
  no_handshake : HandshakeState
  init_sent : HandshakeInitSentState → HandshakeState
  init_received : HandshakeInitReceivedState → HandshakeState

pub record Handshake : Type 0 where
  pub params : NoiseParams
  pub next_index : ℕ
  pub previous : HandshakeState
  pub state : HandshakeState
  pub last_handshake_timestamp : Tai64N
  pub stamper : TimeStamper
  pub last_rtt : Option ℕ

-- `(index & !0xff) | u32::from((index as u8).wrapping_add(1))`.
unfoldable pub next_of : ℕ → ℕ
next_of index = index / 256 * 256 + (index % 256 + 1) % 256

abbrev pub inc_index : Handshake → Handshake
inc_index h = record h { next_index = next_of h.next_index }

-- The initiation that awaits a response under this index, if the state is one.
unfoldable pub awaits : HandshakeState → ℕ → Option HandshakeInitSentState
awaits no_handshake index = none
awaits (init_received _) index = none
awaits (init_sent s) index = if s.local_index == index then some s else none

-- The current state or the previous one, and whether it is the previous.
unfoldable pub awaiting : Handshake → ℕ → Option (HandshakeInitSentState × Bool)
awaiting h index = elim (awaits h.state index) [
  | some s ↦ some (s, false)
  | none ↦ elim (awaits h.previous index) [ some s ↦ some (s, true) | none ↦ none ]
]

unfoldable pub received : HandshakeState → Option HandshakeInitReceivedState
received no_handshake = none
received (init_sent _) = none
received (init_received s) = some s

module _ (aead : Aead) (suite : Suite aead) where
  open suite use {public_key, diffie_hellman}

  -- `Session::new`, of the bytes of the keys.
  unfoldable pub new_session : ℕ → ℕ → List ℕ → List ℕ → Result (Session aead) Error
  new_session local_index peer_index receiving_key sending_key = do
    receiver ← ok_or (suite.unbound_key receiving_key) wrong_key
    sender ← ok_or (suite.unbound_key sending_key) wrong_key
    ok (Session.new aead local_index peer_index receiver sender)

  unfoldable pub new_params : List ℕ → List ℕ → List ℕ → Option (List ℕ) → NoiseParams
  new_params static_private static_public peer_static_public preshared_key = record {
    static_public = static_public;
    static_private = static_private;
    peer_static_public = peer_static_public;
    static_shared = diffie_hellman static_private peer_static_public;
    sending_mac1_key = b2s_hash aead suite label_mac1 peer_static_public;
    preshared_key = preshared_key;
  }

  unfoldable pub new : List ℕ → List ℕ → List ℕ → ℕ → Option (List ℕ) → TimeStamper → Handshake
  new static_private static_public peer_static_public global_idx preshared_key stamper = record {
    params = new_params static_private static_public peer_static_public preshared_key;
    next_index = global_idx;
    previous = no_handshake;
    state = no_handshake;
    last_handshake_timestamp = zero_stamp;
    stamper = stamper;
    last_rtt = none;
  }

  -- The static key that an initiation carries.
  unfoldable pub parse_handshake_anon : List ℕ → List ℕ → HandshakeInit → Result (List ℕ) Error
  parse_handshake_anon static_private static_public packet =
      let shared = diffie_hellman static_private packet.unencrypted_ephemeral in
      let (hash, _, key) = init_keys aead suite static_public packet.unencrypted_ephemeral shared in
      aead_chacha20_open aead suite key_len key 0 packet.encrypted_static hash

  -- The message with its first MAC behind it, and the bytes that were there.
  unfoldable pub append_mac1 : Handshake → Env → List ℕ → List ℕ
  append_mac1 h env message =
      message ++ (b2s_keyed_mac_16 aead suite h.params.sending_mac1_key message ++ env.mac2)

  -- The three encrypted parts of an initiation, up to the state that it leaves behind.
  unfoldable pub initiation : Handshake → Env → ℕ → Result (List ℕ × HandshakeInitSentState) Error
  initiation h env local_index = do
    secret ← ok_or env.secret randomness_unavailable
    let ephemeral_public = public_key secret
    let shared = diffie_hellman secret h.params.peer_static_public
    let start = init_keys aead suite h.params.peer_static_public ephemeral_public shared
    encrypted_static ← aead_chacha20_seal aead suite 48 start.2 0 h.params.static_public start.0
    let hash = b2s_hash aead suite start.0 encrypted_static
    let next = mix_key aead suite start.1 h.params.static_shared
    timestamp ← stamp h.stamper env.now
    encrypted_timestamp ← aead_chacha20_seal aead suite 28 next.1 0 timestamp hash
    ok (
      to_le_bytes32 handshake_init
          ++ (to_le_bytes32 local_index
              ++ (ephemeral_public ++ (encrypted_static ++ encrypted_timestamp))),
      record {
        local_index = local_index;
        hash = b2s_hash aead suite hash encrypted_timestamp;
        chaining_key = next.0;
        ephemeral_private = secret;
        time_sent = env.now;
      },
    )

  -- The index is taken before anything can fail.
  unfoldable pub format_handshake_initiation :
      Handshake → Env → ℕ → Handshake × Result (List ℕ) Error
  format_handshake_initiation h env dst_len =
      let h' = inc_index h in
      if ltb dst_len handshake_init_sz
      then (h, err destination_buffer_too_small)
      else elim (initiation h' env h'.next_index) [
        | err e ↦ (h', err e)
        | ok (message, sent) ↦ (
          record h' { previous = h'.state; state = init_sent sent },
          ok (append_mac1 h' env message),
        )
      ]

  -- A response to the initiation that was received.
  unfoldable pub respond :
      Handshake
      → Env
      → HandshakeInitReceivedState
      → List ℕ
      → ℕ
      → Result (List ℕ × Session aead) Error
  respond h env s secret local_index = do
    let ephemeral_public = public_key secret
    let shared = diffie_hellman secret s.peer_ephemeral_public
    let static_shared = diffie_hellman secret h.params.peer_static_public
    let keys =
        response_keys aead suite s.hash s.chaining_key ephemeral_public shared static_shared
          h.params.preshared_key
    encrypted_nothing ← aead_chacha20_seal aead suite 16 keys.2 0 [] keys.0
    let ends = session_keys aead suite keys.1
    let message =
        to_le_bytes32 handshake_resp
        ++ (to_le_bytes32 local_index
            ++ (to_le_bytes32 s.peer_index ++ (ephemeral_public ++ encrypted_nothing)))
    session ← new_session local_index s.peer_index ends.0 ends.1
    ok (append_mac1 h env message, session)

  unfoldable pub format_handshake_response :
      Handshake → Env → ℕ → Handshake × Result (List ℕ × Session aead) Error
  format_handshake_response h env dst_len =
      let h' = record h { state = no_handshake } in
      if ltb dst_len handshake_resp_sz
      then (h, err destination_buffer_too_small)
      else elim (received h.state) [
        | none ↦ (h', err unexpected_packet)
        | some s ↦ elim env.secret [
          | none ↦ (h', err randomness_unavailable)
          | some secret ↦ let h'' = inc_index h' in (h'', respond h'' env s secret h''.next_index)
        ]
      ]

  -- An initiation, opened: the time that it gives, and the state that it leads to.
  unfoldable pub read_initiation :
      NoiseParams → HandshakeInit → Result (Tai64N × HandshakeInitReceivedState) Error
  read_initiation p packet = do
    let shared = diffie_hellman p.static_private packet.unencrypted_ephemeral
    let start = init_keys aead suite p.static_public packet.unencrypted_ephemeral shared
    peer ← aead_chacha20_open aead suite key_len start.2 0 packet.encrypted_static start.0
    _ ← verify_slices_are_equal p.peer_static_public peer wrong_key
    let hash = b2s_hash aead suite start.0 packet.encrypted_static
    let next = mix_key aead suite start.1 p.static_shared
    opened ← aead_chacha20_open aead suite timestamp_len next.1 0 packet.encrypted_timestamp hash
    timestamp ← parse opened
    ok (
      timestamp,
      record {
        hash = b2s_hash aead suite hash packet.encrypted_timestamp;
        chaining_key = next.0;
        peer_ephemeral_public = packet.unencrypted_ephemeral;
        peer_index = packet.sender_idx;
      },
    )

  -- An initiation whose time is not after the last one may be a replay.
  unfoldable pub check_initiation :
      Handshake → HandshakeInit → Result (Tai64N × HandshakeInitReceivedState) Error
  check_initiation h packet = do
    r ← read_initiation h.params packet
    if not (after r.0 h.last_handshake_timestamp) then err wrong_tai64n_timestamp else ok r

  unfoldable pub receive_handshake_initialization :
      Handshake → Env → HandshakeInit → ℕ → Handshake × Result (List ℕ × Session aead) Error
  receive_handshake_initialization h env packet dst_len = elim (check_initiation h packet) [
    | err e ↦ (h, err e)
    | ok (timestamp, s) ↦
        format_handshake_response
          (record h {
            last_handshake_timestamp = timestamp;
            previous = h.state;
            state = init_received s;
          })
          env dst_len
  ]

  -- The keys of the session that a response leads to.
  unfoldable pub check_response :
      Handshake → HandshakeInitSentState → HandshakeResponse → Result (List ℕ × List ℕ) Error
  check_response h s packet = do
    let shared = diffie_hellman s.ephemeral_private packet.unencrypted_ephemeral
    let static_shared = diffie_hellman h.params.static_private packet.unencrypted_ephemeral
    let keys =
        response_keys aead suite s.hash s.chaining_key packet.unencrypted_ephemeral shared
          static_shared h.params.preshared_key
    _ ← aead_chacha20_open aead suite 0 keys.2 0 packet.encrypted_nothing keys.0
    ok (session_keys aead suite keys.1)

  -- `rtt_time.as_millis() as u32`.
  abbrev pub rtt_of : ℕ → ℕ → ℕ
  rtt_of now time_sent = (now - time_sent) / 1000000 % 2 ^ 32

  unfoldable pub receive_handshake_response :
      Handshake → Env → HandshakeResponse → Handshake × Result (Session aead) Error
  receive_handshake_response h env packet = elim (awaiting h packet.receiver_idx) [
    | none ↦ (h, err unexpected_packet)
    | some (s, is_previous) ↦ elim (check_response h s packet) [
      | err e ↦ (h, err e)
      | ok (sending_key, receiving_key) ↦
          let h' = record h { last_rtt = some (rtt_of env.now s.time_sent) } in
          (
            if is_previous
                then record h' { previous = no_handshake }
                else record h' { state = no_handshake },
            new_session s.local_index packet.sender_idx receiving_key sending_key,
          )
    ]
  ]
