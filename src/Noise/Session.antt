-- ===== src/Noise/Session.antt =====
-- engine/crypto/fp-crypto-noise/src/session.rs: a transport session. The AEAD (ring) and the
-- random numbers of the system are parameters. A destination buffer is its length; the result is
-- the slice of it that the source returns.
pub mod Delivery
pub mod Sending
pub mod RoundTrip
use fluxpeer.Prelude.{
  ℕ, suc, ◌+◌, ◌-◌, ◌*◌, ◌%◌, ◌^◌, Bool, not, List, [], ◌∷◌, ◌++◌, Option, none, some, ltb, leb,
  ◌==◌, if◌then◌else◌, length, take, drop, get_or, replicate, Result, ok, err, ◌>>=◌, ok_or, ◌≡◌,
}
use fluxpeer.Prelude.Bytes.{to_le_bytes32, to_le_bytes64}
use fluxpeer.Noise.{
  Error, nonce_exhausted, destination_buffer_too_small, randomness_unavailable, invalid_aead_tag,
  wrong_index, invalid_packet,
}
use fluxpeer.Noise.Packet.{PacketData, data_type, data_overhead_sz}
use fluxpeer.Noise.Replay.{Validator, add64, will_accept, mark_did_receive}
use fluxpeer.Noise.Replay

-- `CHACHA20_POLY1305`: a key, a nonce of 12 bytes and a plaintext give the ciphertext with its tag.
pub record Aead : Type 1 where
  pub Key : Type 0
  pub seal : Key → List ℕ → List ℕ → Option (List ℕ)
  pub open_in_place : Key → List ℕ → List ℕ → Option (List ℕ)

abbrev pub max_nonce : ℕ
max_nonce = 2 ^ 48

abbrev pub max_padding : ℕ
max_padding = 15

abbrev pub data_offset : ℕ
data_offset = 16

abbrev pub aead_size : ℕ
aead_size = 16

-- What `OsRng` gives to one call: the four bytes as a number, and the padding bytes.
pub record Random : Type 0 where
  pub word : Option ℕ
  pub padding : ℕ → Option (List ℕ)

-- `nonce[4..12]` is the counter, and the first four bytes are 0.
abbrev pub nonce_of : ℕ → List ℕ
nonce_of counter = replicate 4 0 ++ to_le_bytes64 counter

module _ (aead : Aead) where
  open aead use {Key, seal, open_in_place}

  pub record Session : Type 0 where
    pub receiving_index : ℕ
    pub sending_index : ℕ
    pub receiver : Key
    pub sender : Key
    pub sending_key_counter : ℕ
    pub receiving_key_counter : Validator

  unfoldable pub new : ℕ → ℕ → Key → Key → Session
  new local_index peer_index receiving_key sending_key = record {
    receiving_index = local_index;
    sending_index = peer_index;
    receiver = receiving_key;
    sender = sending_key;
    sending_key_counter = 0;
    receiving_key_counter = Replay.new;
  }

  -- No random bytes are asked for where the length is 0.
  unfoldable pub padding_bytes : Random → ℕ → Result (List ℕ) Error
  padding_bytes rng padding_len =
      if ltb 0 padding_len then ok_or (rng.padding padding_len) randomness_unavailable else ok []

  -- The bytes that are sealed: the padding's length, the padding, the payload.
  unfoldable pub padded : Random → List ℕ → Result (List ℕ) Error
  padded rng src = do
    word ← ok_or rng.word randomness_unavailable
    let padding_len = word % (max_padding + 1)
    padding ← padding_bytes rng padding_len
    ok (padding_len ∷ padding ++ src)

  -- The packet of a counter.
  unfoldable pub sealed : Session → ℕ → List ℕ → Result (List ℕ) Error
  sealed s counter data_bytes = do
    c ← ok_or (seal s.sender (nonce_of counter) data_bytes) invalid_aead_tag
    ok (to_le_bytes32 data_type ++ (to_le_bytes32 s.sending_index ++ (to_le_bytes64 counter ++ c)))

  -- The counter is taken before it is tested, also by a call that then fails.
  unfoldable pub format_packet_data :
      Session → Random → List ℕ → ℕ → Session × Result (List ℕ) Error
  unfolding padded sealed
  format_packet_data s rng src dst_len =
      let counter = s.sending_key_counter in
      let s' = record s { sending_key_counter = add64 counter 1 } in
      if ltb dst_len (length src + data_overhead_sz)
      then (s, err destination_buffer_too_small)
      else if leb max_nonce counter
      then (s', err nonce_exhausted)
      else (s', (do p ← padded rng src; sealed s counter p))

  -- `receive_cnt` counts the marks that succeed.
  unfoldable pub receiving_counter_mark : Session → ℕ → Session × Result (Unit {0}) Error
  receiving_counter_mark s counter =
      let (v, r) = mark_did_receive s.receiving_key_counter counter in
      elim r [
        | ok _ ↦ (
          record s { receiving_key_counter = record v { receive_cnt = add64 v.receive_cnt 1 } },
          ok tt,
        )
        | err e ↦ (record s { receiving_key_counter = v }, err e)
      ]

  -- The payload behind the padding.
  unfoldable pub strip : List ℕ → Result (List ℕ) Error
  strip decrypted =
      let header_len = 1 + get_or decrypted 0 0 in
      if length decrypted == 0
      then err invalid_packet
      else if ltb (length decrypted) header_len
      then err invalid_packet
      else ok (drop header_len decrypted)

  unfoldable pub receive_packet_data : Session → PacketData → ℕ → Session × Result (List ℕ) Error
  receive_packet_data s packet dst_len =
      if ltb dst_len (length packet.encrypted_encapsulated_packet)
      then (s, err destination_buffer_too_small)
      else if not (packet.receiver_idx == s.receiving_index)
      then (s, err wrong_index)
      else elim (will_accept s.receiving_key_counter packet.counter) [
        | err e ↦ (s, err e)
        | ok _ ↦
            elim (open_in_place s.receiver (nonce_of packet.counter)
              packet.encrypted_encapsulated_packet) [
                | none ↦ (s, err invalid_aead_tag)
                | some decrypted ↦
                    let (s', marked) = receiving_counter_mark s packet.counter in
                    (s', (do _ ← marked; strip decrypted))
              ]
      ]
