-- ===== src/Noise/Handshake/Agreement.antt =====
-- A handshake between two peers ends in two sessions that share their keys.
use fluxpeer.Prelude.{
  ℕ, ◌≤◌, ◌≡◌, refl, ap, sym, ◌∙◌, List, ◌++◌, Option, some, ok, length, true, false, ltb, Bool,
  Bool-cases, Result-cases, inl, inr,
}
use mathlib.Core.Path.{subst₂}
use fluxpeer.Prelude.Bytes.{to_le_bytes32}
use fluxpeer.Noise.Packet.{
  HandshakeInit, HandshakeResponse, init, response, handshake_resp, handshake_init_sz,
  handshake_resp_sz, parse_incoming_packet,
}
use fluxpeer.Noise.Session.{Aead, Session, aead_size}
use fluxpeer.Noise.Session
use fluxpeer.Noise.Tai64.{Tai64N, stamp, parse, after}
use fluxpeer.Noise.Crypto.{Suite}
use fluxpeer.Noise.Crypto.Sound.{IsSound}
use fluxpeer.Noise.Handshake.{
  Env, HandshakeInitSentState, init_sent, Handshake, inc_index, next_of, new_params, append_mac1,
  initiation, format_handshake_initiation, receive_handshake_initialization, check_response,
  awaiting, receive_handshake_response, no_handshake,
}
use fluxpeer.Noise.Handshake.Initiate.{
  sent_of, message_of, initiation-Initiated, initiator, responder, received_of, packet_of,
  check_initiation_ok, parse_initiation, format_lem,
}
use fluxpeer.Noise.Handshake.Answer.{
  respond-Responded, parse_answer, receive_initialization_lem, receive_response_lem,
}
use fluxpeer.Noise.Handshake.Awaiting.{awaiting_current, awaiting-format}

module _ {aead : Aead} (suite : Suite aead) where
  -- An initiation that `i` makes is read and answered by `r`, and the answer is read by `i`, also
  -- after another initiation: the sessions of the two sides are new, and each sends under what the
  -- other receives under, and to its index.
  pub record Agreed (i r : Handshake) (env env' : Env) (dst_len dst_len' : ℕ) : Type 0 where
    pub packet : List ℕ
    pub formatted : (format_handshake_initiation aead suite i env dst_len).1 ≡ ok packet
    pub first : HandshakeInit
    pub parsed : parse_incoming_packet packet ≡ ok (init first)
    pub answer : List ℕ
    pub theirs : Session aead
    pub answered :
        (receive_handshake_initialization aead suite r env' first dst_len').1 ≡ ok (answer, theirs)
    pub second : HandshakeResponse
    pub answer_parsed : parse_incoming_packet answer ≡ ok (response second)
    pub mine : Session aead
    pub completed :
        (later : Env)
        → (receive_handshake_response aead suite
            (format_handshake_initiation aead suite i env dst_len).0
            later
            second).1
          ≡ ok mine
    pub delayed :
        (between later : Env) (len : ℕ)
        → (receive_handshake_response aead suite
            (format_handshake_initiation aead suite
              (format_handshake_initiation aead suite i env dst_len).0
              between
              len).0
            later
            second).1
          ≡ ok mine
    pub key : aead.Key
    pub key' : aead.Key
    pub mine_new : mine ≡ Session.new aead (next_of i.next_index) (next_of r.next_index) key' key
    pub theirs_new :
        theirs ≡ Session.new aead (next_of r.next_index) (next_of i.next_index) key key'

module _ {aead : Aead} (suite : Suite aead) (sound : IsSound suite) where
  format-params :
      (h : Handshake) (env : Env) (len : ℕ)
      → (format_handshake_initiation aead suite h env len).0.params ≡ h.params
  unfolding format_handshake_initiation
  format-params h env len = elim (Bool-cases (ltb len handshake_init_sz)) [
    | inl short ↦ rw short refl
    | inr fits ↦
        elim (Result-cases (initiation aead suite (inc_index h) env (next_of h.next_index))) [
          | inr (e, failed) ↦ rw (fits, failed) refl
          | inl (_, made) ↦ rw (fits, made) refl
        ]
  ]

  check_response-params :
      (h k : Handshake) (sent : HandshakeInitSentState) (q : HandshakeResponse)
      → h.params ≡ k.params
      → check_response aead suite h sent q ≡ check_response aead suite k sent q
  unfolding check_response
  check_response-params h k sent q e =
      ap (λ p. check_response aead suite (record h { params = p }) sent q) e

  agrees_at :
      (a b : List ℕ) (psk : Option (List ℕ)) (h k : Handshake) (env env' : Env)
      (dst_len dst_len' : ℕ) (x y time : List ℕ) (t : Tai64N)
      → env.secret ≡ some x
      → env'.secret ≡ some y
      → length env.mac2 ≡ 16
      → length env'.mac2 ≡ 16
      → handshake_init_sz ≤ dst_len
      → handshake_resp_sz ≤ dst_len'
      → stamp h.stamper env.now ≡ ok time
      → parse time ≡ ok t
      → after t k.last_handshake_timestamp ≡ true
      → Agreed suite
          (initiator suite sound a b psk h)
          (responder suite sound a b psk k)
          env
          env'
          dst_len
          dst_len'
  unfolding new_params Session.new
  agrees_at a b psk h k env env' dst_len dst_len' x y time t random random' hm hm' room room'
        stamped parsed later =
      let i = initiator suite sound a b psk h in
      let index = next_of h.next_index in
      let made =
        initiation-Initiated suite sound (inc_index i) env index x time random stamped
          (sound.public_length a) in
      let sent = sent_of suite sound i.params x index env.now made.es made.et in
      let at = format_lem suite i env dst_len _ sent room made.made in
      let r = responder suite sound a b psk (record k {
        last_handshake_timestamp = t;
        previous = k.state;
        state = no_handshake;
        next_index = next_of k.next_index;
      }) in
      let reply = respond-Responded suite sound a b psk sent r env' y (next_of k.next_index) in
      let first = packet_of suite sound a b psk index x made.es made.et in
      let second : HandshakeResponse = record {
        sender_idx = next_of k.next_index;
        receiver_idx = index;
        unencrypted_ephemeral = suite.public_key y;
        encrypted_nothing = reply.en;
      } in
      let mine = Session.new aead index (next_of k.next_index) reply.sender reply.receiver in
      let h' = (format_handshake_initiation aead suite i env dst_len).0 in
      let under : h'.state ≡ init_sent sent = ap (λ z. z.0.state) at in
      let held : sent.local_index ≡ h'.next_index = sym (ap (λ z. z.0.next_index) at) in
      let own : h'.params ≡ i.params = format-params i env dst_len in
      let (keys, checked, opened) = reply.taken h in
      let takes : (g : Handshake) (flag : Bool) (e : Env)
          → awaiting g index ≡ some (sent, flag)
          → g.params ≡ i.params
          → (receive_handshake_response aead suite g e second).1 ≡ ok mine =
        λ g flag e waits same.
          receive_response_lem suite g e second sent flag keys mine waits
            (check_response-params g i sent second same ∙ checked) opened in
      record {
        packet =
            append_mac1 aead suite (inc_index i) env
              (message_of suite sound x index made.es made.et);
        formatted = ap (λ z. z.1) at;
        first = first;
        parsed =
            parse_initiation suite sound a b psk (inc_index i) env index x made.es made.et
              made.es_length made.et_length hm;
        answer = append_mac1 aead suite r env' (
            to_le_bytes32 handshake_resp
            ++ (to_le_bytes32 (next_of k.next_index)
                ++ (to_le_bytes32 index ++ (suite.public_key y ++ reply.en))));
        theirs = Session.new aead (next_of k.next_index) index reply.receiver reply.sender;
        answered =
            receive_initialization_lem suite (responder suite sound a b psk k) env' first dst_len' t
              (received_of suite sound a b psk sent) y room'
              (check_initiation_ok suite sound a b psk (inc_index h) k env index x time t made
                parsed later)
              random'
            ∙ reply.made;
        second = second;
        answer_parsed =
            parse_answer suite sound a b psk r env' (next_of k.next_index) index y reply.en
              reply.en_length hm';
        mine = mine;
        completed = λ e. takes h' false e (awaiting_current h' sent under) own;
        delayed = λ between e len.
            let (flag, waits) = awaiting-format suite h' between len sent under held in
            takes _ flag e waits (format-params h' between len ∙ own);
        key = reply.receiver;
        key' = reply.sender;
        mine_new = refl;
        theirs_new = refl;
      }

  -- Two peers that have each other's public keys and the same preshared key, or none, agree: an
  -- initiation of the one, read by the other, is answered, and the answer is read by the first, at
  -- once or after it has tried another initiation. The sessions of the two sides then share their
  -- keys and their indices. Random bytes are there for both, the buffers have room, and the time of
  -- the initiation is read as one that is after the last that the other side saw.
  pub handshake_agrees :
      (a b : List ℕ) (psk : Option (List ℕ)) (i r : Handshake) (env env' : Env)
      (dst_len dst_len' : ℕ) (x y time : List ℕ) (t : Tai64N)
      → i.params ≡ new_params aead suite a (suite.public_key a) (suite.public_key b) psk
      → r.params ≡ new_params aead suite b (suite.public_key b) (suite.public_key a) psk
      → env.secret ≡ some x
      → env'.secret ≡ some y
      → length env.mac2 ≡ 16
      → length env'.mac2 ≡ 16
      → handshake_init_sz ≤ dst_len
      → handshake_resp_sz ≤ dst_len'
      → stamp i.stamper env.now ≡ ok time
      → parse time ≡ ok t
      → after t r.last_handshake_timestamp ≡ true
      → Agreed suite i r env env' dst_len dst_len'
  handshake_agrees a b psk i r env env' dst_len dst_len' x y time t pi pr random random' hm hm' room
        room' stamped parsed later =
      subst₂
        (λ p q.
          Agreed suite (record i { params = p }) (record r { params = q }) env env' dst_len
            dst_len')
        (sym pi) (sym pr)
        (agrees_at a b psk i r env env' dst_len dst_len' x y time t random random' hm hm' room room'
          stamped parsed later)
