-- ===== src/Noise/Handshake/Initiate.antt =====
-- What an initiation is made of, and that its receiver reads what its sender keeps.
use fluxpeer.Prelude.{
  ℕ, ◌≤◌, ◌≡◌, refl, ap, sym, ◌∙◌, List, ◌++◌, Option, some, ok, arith, length, true, false, ltb,
  length-append,
}
use mathlib.Core.List.{append_assoc}
use fluxpeer.Prelude.Bytes.{to_le_bytes32, from_le-to_le_bytes32, length-to_le_bytes32}
use fluxpeer.Noise.{wrong_key}
use fluxpeer.Noise.Packet.{
  HandshakeInit, init, handshake_init, handshake_init_sz, parse_incoming_packet,
}
use fluxpeer.Noise.Session.{Aead}
use fluxpeer.Noise.Tai64.{Tai64N, stamp, parse, after, length-stamp}
use fluxpeer.Noise.Crypto.{Suite, b2s_hash, b2s_keyed_mac_16, aead_chacha20_open}
use fluxpeer.Noise.Crypto.Sound.{IsSound, verify_same, length-b2s_hmac2, open-seal}
use fluxpeer.Noise.Schedule.{mix_key, init_keys}
use fluxpeer.Noise.Handshake.Wire.{parse_init}
use fluxpeer.Noise.Handshake.{
  Env, NoiseParams, HandshakeInitSentState, HandshakeInitReceivedState, init_sent, Handshake,
  inc_index, next_of, new_params, append_mac1, initiation, format_handshake_initiation,
  check_initiation, read_initiation,
}

module _ {aead : Aead} (suite : Suite aead) (sound : IsSound suite) where
  pub length-mix_key : (ck x : List ℕ) → length (mix_key aead suite ck x).1 ≡ 32
  unfolding mix_key
  length-mix_key ck x = length-b2s_hmac2 suite sound _ _ _

  pub length-init_keys : (p e s : List ℕ) → length (init_keys aead suite p e s).2 ≡ 32
  unfolding init_keys
  length-init_keys p e s = length-mix_key _ s

  -- The keys of an initiation that is made with a secret.
  abbrev pub start : NoiseParams → List ℕ → List ℕ × List ℕ × List ℕ
  start p secret =
      init_keys aead suite p.peer_static_public (suite.public_key secret)
        (suite.diffie_hellman secret p.peer_static_public)

  abbrev pub next_keys : NoiseParams → List ℕ → List ℕ × List ℕ
  next_keys p secret = mix_key aead suite (start p secret).1 p.static_shared

  abbrev pub static_hash : NoiseParams → List ℕ → List ℕ → List ℕ
  static_hash p secret es = b2s_hash aead suite (start p secret).0 es

  abbrev pub sent_of : NoiseParams → List ℕ → ℕ → ℕ → List ℕ → List ℕ → HandshakeInitSentState
  sent_of p secret index now es et = record {
    local_index = index;
    hash = b2s_hash aead suite (static_hash p secret es) et;
    chaining_key = (next_keys p secret).0;
    ephemeral_private = secret;
    time_sent = now;
  }

  abbrev pub message_of : List ℕ → ℕ → List ℕ → List ℕ → List ℕ
  message_of secret index es et =
      to_le_bytes32 handshake_init
      ++ (to_le_bytes32 index ++ (suite.public_key secret ++ (es ++ et)))

  -- The encrypted parts of an initiation, each of its size, and what they open to.
  pub record Initiated (h : Handshake) (env : Env) (index : ℕ) (secret time : List ℕ) : Type 0 where
    pub es : List ℕ
    pub et : List ℕ
    pub es_length : length es ≡ 48
    pub et_length : length et ≡ 28
    pub es_opens :
        aead_chacha20_open aead suite 32 (start h.params secret).2 0 es (start h.params secret).0
        ≡ ok h.params.static_public
    pub et_opens :
        aead_chacha20_open aead suite 12
          (next_keys h.params secret).1
          0
          et
          (static_hash h.params secret es)
        ≡ ok time
    pub made :
        initiation aead suite h env index
        ≡ ok (message_of secret index es et, sent_of h.params secret index env.now es et)

  pub initiation-Initiated :
      (h : Handshake) (env : Env) (index : ℕ) (secret time : List ℕ)
      → env.secret ≡ some secret
      → stamp h.stamper env.now ≡ ok time
      → length h.params.static_public ≡ 32
      → Initiated h env index secret time
  unfolding initiation
  initiation-Initiated h env index secret time random stamped size =
      let (es, s, hs, os) =
        open-seal suite sound 48 0 (start h.params secret).2 h.params.static_public
          (start h.params secret).0 (length-init_keys _ _ _) (omega arith) (omega arith) in
      let ht : length time ≡ 12 = length-stamp h.stamper env.now stamped in
      let (et, t, he, ot) =
        open-seal suite sound 28 0 (next_keys h.params secret).1 time
          (static_hash h.params secret es) (length-mix_key _ _) (omega arith) (omega arith) in
      record {
        es = es;
        et = et;
        es_length = hs;
        et_length = he;
        es_opens =
            ap
              (λ n.
                aead_chacha20_open aead suite n (start h.params secret).2 0 es
                  (start h.params secret).0)
              (sym size)
            ∙ os;
        et_opens =
            ap
              (λ n.
                aead_chacha20_open aead suite n (next_keys h.params secret).1 0 et
                  (static_hash h.params secret es))
              (sym ht)
            ∙ ot;
        made = rw (random, s, stamped, t) refl;
      }

  -- The two peers: `a` initiates and `b` responds.
  module _ (a b : List ℕ) (psk : Option (List ℕ)) where
    abbrev pub of_initiator : NoiseParams
    of_initiator = new_params aead suite a (suite.public_key a) (suite.public_key b) psk

    abbrev pub of_responder : NoiseParams
    of_responder = new_params aead suite b (suite.public_key b) (suite.public_key a) psk

    abbrev pub initiator : Handshake → Handshake
    initiator h = record h { params = of_initiator }

    abbrev pub responder : Handshake → Handshake
    responder h = record h { params = of_responder }

    -- What the responder keeps of an initiation.
    abbrev pub received_of : HandshakeInitSentState → HandshakeInitReceivedState
    received_of sent = record {
      hash = sent.hash;
      chaining_key = sent.chaining_key;
      peer_ephemeral_public = suite.public_key sent.ephemeral_private;
      peer_index = sent.local_index;
    }

    abbrev pub packet_of : ℕ → List ℕ → List ℕ → List ℕ → HandshakeInit
    packet_of index secret es et = record {
      sender_idx = index;
      unencrypted_ephemeral = suite.public_key secret;
      encrypted_static = es;
      encrypted_timestamp = et;
    }

    pub same_start :
        (secret : List ℕ)
        → init_keys aead suite
            (suite.public_key b)
            (suite.public_key secret)
            (suite.diffie_hellman b (suite.public_key secret))
          ≡ start of_initiator secret
    unfolding new_params
    same_start secret =
        ap (init_keys aead suite (suite.public_key b) (suite.public_key secret))
          (sound.dh_comm b secret)

    pub check_initiation_ok :
        (h r : Handshake) (env : Env) (index : ℕ) (secret time : List ℕ) (t : Tai64N)
        (made : Initiated (initiator h) env index secret time)
        → parse time ≡ ok t
        → after t r.last_handshake_timestamp ≡ true
        → check_initiation aead suite (responder r) (packet_of index secret made.es made.et)
          ≡ ok (t, received_of (sent_of of_initiator secret index env.now made.es made.et))
    unfolding check_initiation read_initiation new_params
    check_initiation_ok h r env index secret time t made parsed later =
        rw
          (
            same_start secret,
            made.es_opens,
            verify_same (suite.public_key a) wrong_key,
            sound.dh_comm b a,
            made.et_opens,
            parsed,
            later,
          )
          refl

    -- An initiation is parsed as it was made.
    pub parse_initiation :
        (h : Handshake) (env : Env) (index : ℕ) (secret es et : List ℕ)
        → length es ≡ 48
        → length et ≡ 28
        → length env.mac2 ≡ 16
        → parse_incoming_packet (append_mac1 aead suite h env (message_of secret index es et))
          ≡ ok (init (packet_of index secret es et))
    unfolding append_mac1 b2s_keyed_mac_16
    parse_initiation h env index secret es et hs ht hm =
        let mac =
          b2s_keyed_mac_16 aead suite h.params.sending_mac1_key (message_of secret index es et) in
        let size : length mac ≡ 16 = sound.mac_length _ _ in
        ap parse_incoming_packet (simp (append_assoc) refl)
        ∙ parse_init (to_le_bytes32 handshake_init) (to_le_bytes32 index) (suite.public_key secret)
            es et (mac ++ env.mac2) (length-to_le_bytes32 _) (length-to_le_bytes32 _)
            (sound.public_length secret) hs ht (omega (arith, length-append mac env.mac2))
            (from_le-to_le_bytes32 handshake_init)
        ∙ rw (from_le-to_le_bytes32 index) refl

module _ {aead : Aead} (suite : Suite aead) where
  pub format_lem :
      (h : Handshake) (env : Env) (dst_len : ℕ) (message : List ℕ) (sent : HandshakeInitSentState)
      → handshake_init_sz ≤ dst_len
      → initiation aead suite (inc_index h) env (next_of h.next_index) ≡ ok (message, sent)
      → format_handshake_initiation aead suite h env dst_len ≡ (
        record (inc_index h) { previous = h.state; state = init_sent sent },
        ok (append_mac1 aead suite (inc_index h) env message),
      )
  unfolding format_handshake_initiation
  format_lem h env dst_len message sent room made =
      let fits : ltb dst_len handshake_init_sz ≡ false = ground arith in rw (fits, made) refl

  pub initiation-local_index :
      (h : Handshake) (env : Env) (index : ℕ) (message : List ℕ) (sent : HandshakeInitSentState)
      → initiation aead suite h env index ≡ ok (message, sent)
      → sent.local_index ≡ index
  unfolding initiation
  initiation-local_index h env index message sent e = ground arith
