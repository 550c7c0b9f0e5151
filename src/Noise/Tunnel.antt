-- ===== src/Noise/Tunnel.antt =====
-- engine/crypto/fp-crypto-noise/src/noise.rs: a tunnel, with its ring of sessions and the choice of
-- the one that sends. The handshake is an interface, whose state has its keys and its random
-- numbers; a destination buffer is its length.
pub mod Ring
pub mod Rollover
mod Tests
use fluxpeer.Prelude.{
  ℕ, ◌+◌, ◌-◌, ◌*◌, ◌%◌, Bool, true, false, not, ◌&&◌, ◌||◌, List, [], ◌∷◌, ◌++◌, Option, none,
  some, ltb, ◌==◌, if◌then◌else◌, length, get_or, set, replicate, Result, ok, err, ◌>>=◌,
}
use fluxpeer.Noise.{Error, no_current_session}
use fluxpeer.Noise.Packet.{
  HandshakeInit, HandshakeResponse, PacketData, Packet, init, response, data_packet, NoiseResult,
  done, write_to_network, validate_decapsulated_packet,
}
use fluxpeer.Noise.Session.{Aead, Random, Session, format_packet_data, receive_packet_data}

abbrev pub n_sessions : ℕ
n_sessions = 8

abbrev pub max_queue_depth : ℕ
max_queue_depth = 256

-- `Handshake`, by the calls that the tunnel makes of it. Each takes the length of the buffer that
-- it may write a packet into.
pub record Handshaker (aead : Aead) : Type 1 where
  pub State : Type 0
  pub receive_handshake_initialization :
      State → HandshakeInit → ℕ → State × Result (List ℕ × Session aead) Error
  pub receive_handshake_response : State → HandshakeResponse → State × Result (Session aead) Error
  pub format_handshake_initiation : State → ℕ → State × Result (List ℕ) Error

-- `(l_idx as u8).wrapping_sub(self.current as u8)`.
unfoldable pub distance : ℕ → ℕ → ℕ
distance l_idx current = (l_idx % 256 + 256 - current % 256) % 256

module _ (aead : Aead) (handshaker : Handshaker aead) where
  open handshaker use {State, receive_handshake_initialization, receive_handshake_response}

  pub record Noise : Type 0 where
    pub handshake : State
    pub sessions : List (Option (Session aead))
    pub current : ℕ
    pub next : Option ℕ
    pub packet_queue : List (List ℕ)

  unfoldable pub new : State → Noise
  new handshake = record {
    handshake = handshake;
    sessions = replicate n_sessions none;
    current = 0;
    next = none;
    packet_queue = [];
  }

  -- The slot of an index; the array has one at each index below `N_SESSIONS`.
  abbrev pub session_at : Noise → ℕ → Option (Session aead)
  session_at t index = get_or t.sessions (index % n_sessions) none

  abbrev pub store : Noise → ℕ → Session aead → Noise
  store t index s = record t { sessions = set t.sessions (index % n_sessions) (some s) }

  unfoldable pub queue_packet : Noise → List ℕ → Noise
  queue_packet t packet =
      if ltb (length t.packet_queue) max_queue_depth
      then record t { packet_queue = t.packet_queue ++ (packet ∷ []) }
      else t

  unfoldable pub format_handshake_initiation : Noise → ℕ → Noise × Result NoiseResult Error
  format_handshake_initiation t dst_len =
      let (handshake, r) = handshaker.format_handshake_initiation t.handshake dst_len in
      (record t { handshake = handshake }, (do packet ← r; ok (write_to_network packet)))

  unfoldable pub encapsulate : Noise → Random → List ℕ → ℕ → Noise × Result NoiseResult Error
  encapsulate t rng src dst_len = elim (session_at t t.current) [
    | some s ↦
        let (s', r) = format_packet_data aead s rng src dst_len in
        (store t t.current s', (do packet ← r; ok (write_to_network packet)))
    | none ↦ format_handshake_initiation (queue_packet t src) dst_len
  ]

  unfoldable pub handle_handshake_init :
      Noise → HandshakeInit → ℕ → Noise × Result NoiseResult Error
  handle_handshake_init t p dst_len =
      let (handshake, r) = receive_handshake_initialization t.handshake p dst_len in
      let t' = record t { handshake = handshake } in
      elim r [
        | err e ↦ (t', err e)
        | ok (packet, session) ↦ (
          record (store t' session.receiving_index session) { next = some session.receiving_index },
          ok (write_to_network packet),
        )
      ]

  -- The current slot holds the session of the current index.
  unfoldable pub current_live : Noise → Bool
  current_live t = elim (session_at t t.current) [
    | none ↦ false
    | some s ↦ s.receiving_index == t.current
  ]

  -- The response's session sends from now on where it is newer, or where the current one is gone.
  unfoldable pub advance : Noise → ℕ → Noise
  advance t l_idx =
      let d = distance l_idx t.current in
      if not (current_live t) || not (d == 0) && ltb d 128
      then record t { current = l_idx; next = none }
      else t

  unfoldable pub handle_handshake_response :
      Noise → HandshakeResponse → Noise × Result NoiseResult Error
  handle_handshake_response t p =
      let (handshake, r) = receive_handshake_response t.handshake p in
      let t' = record t { handshake = handshake } in
      elim r [
        | err e ↦ (t', err e)
        | ok session ↦
            let l_idx = session.receiving_index in (advance (store t' l_idx session) l_idx, ok done)
      ]

  -- The pending session that a packet confirms sends from now on.
  unfoldable pub confirm_pending : Option ℕ → Noise → ℕ → Noise
  confirm_pending none t r_idx = t
  confirm_pending (some pending) t r_idx =
      if pending == r_idx then record t { current = r_idx; next = none } else t

  unfoldable pub confirm : Noise → ℕ → Noise
  confirm t r_idx = confirm_pending t.next t r_idx

  unfoldable pub handle_data : Noise → PacketData → ℕ → Noise × Result NoiseResult Error
  handle_data t packet dst_len = elim (session_at t packet.receiver_idx) [
    | none ↦ (t, err no_current_session)
    | some s ↦
        let (s', r) = receive_packet_data aead s packet dst_len in
        let t' = store t packet.receiver_idx s' in
        elim r [
          | err e ↦ (t', err e)
          | ok decapsulated ↦
              (confirm t' packet.receiver_idx, validate_decapsulated_packet decapsulated)
        ]
  ]

  unfoldable pub handle_verified_packet : Noise → Packet → ℕ → Noise × Result NoiseResult Error
  handle_verified_packet t (init p) dst_len = handle_handshake_init t p dst_len
  handle_verified_packet t (response p) dst_len = handle_handshake_response t p
  handle_verified_packet t (data_packet p) dst_len = handle_data t p dst_len
