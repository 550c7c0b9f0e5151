-- ===== src/Noise/Handshake/Answer.antt =====
-- What a response is made of, and that its receiver ends with the keys of its sender.
use fluxpeer.Prelude.{
  ℕ, ◌≤◌, ◌≡◌, refl, ap, ◌∙◌, List, [], ◌++◌, Option, some, ok, arith, length, false, ltb, Bool,
  length-append,
}
use mathlib.Core.List.{append_assoc}
use fluxpeer.Prelude.Bytes.{to_le_bytes32, from_le-to_le_bytes32, length-to_le_bytes32}
use fluxpeer.Noise.Packet.{
  HandshakeInit, HandshakeResponse, response, handshake_resp, handshake_resp_sz,
  parse_incoming_packet,
}
use fluxpeer.Noise.Session.{Aead, Session, aead_size}
use fluxpeer.Noise.Session
use fluxpeer.Noise.Tai64.{Tai64N}
use fluxpeer.Noise.Crypto.{Suite, b2s_keyed_mac_16}
use fluxpeer.Noise.Crypto.Sound.{IsSound, length-b2s_hmac, length-b2s_hmac2, open-seal}
use fluxpeer.Noise.Schedule.{response_keys, session_keys}
use fluxpeer.Noise.Handshake.Wire.{parse_response}
use fluxpeer.Noise.Handshake.{
  Env, HandshakeInitSentState, HandshakeInitReceivedState, Handshake, next_of, new_session,
  new_params, append_mac1, respond, received, format_handshake_response, check_initiation,
  receive_handshake_initialization, check_response, awaiting, receive_handshake_response,
  no_handshake,
}
use fluxpeer.Noise.Handshake.Initiate.{initiator, responder, received_of}

module _ {aead : Aead} (suite : Suite aead) (sound : IsSound suite) where
  pub length-response_keys :
      (h ck e es ss : List ℕ) (psk : Option (List ℕ))
      → length (response_keys aead suite h ck e es ss psk).2 ≡ 32
  unfolding response_keys
  length-response_keys h ck e es ss psk = length-b2s_hmac2 suite sound _ _ _

  pub length-session_keys :
      (ck : List ℕ)
      → (length (session_keys aead suite ck).0 ≡ 32) × (length (session_keys aead suite ck).1 ≡ 32)
  unfolding session_keys
  length-session_keys ck = (length-b2s_hmac suite sound _ _, length-b2s_hmac2 suite sound _ _ _)

  module _ (a b : List ℕ) (psk : Option (List ℕ)) where
    -- The response, and what the initiator makes of it.
    pub record Responded (sent : HandshakeInitSentState) (r : Handshake) (env : Env)
        (secret : List ℕ) (index : ℕ) : Type 0 where
      pub en : List ℕ
      pub en_length : length en ≡ 16
      pub receiver : aead.Key
      pub sender : aead.Key
      pub made :
          respond aead suite
            (responder suite sound a b psk r)
            env
            (received_of suite sound a b psk sent)
            secret
            index
          ≡ ok (
            append_mac1 aead suite (responder suite sound a b psk r) env (
                to_le_bytes32 handshake_resp
                ++ (to_le_bytes32 index
                    ++ (to_le_bytes32 sent.local_index ++ (suite.public_key secret ++ en)))),
            Session.new aead index sent.local_index receiver sender,
          )
      pub taken :
          (h : Handshake)
          → (q : List ℕ × List ℕ) × (check_response aead suite
                (initiator suite sound a b psk h)
                sent
                (record {
                  sender_idx = index;
                  receiver_idx = sent.local_index;
                  unencrypted_ephemeral = suite.public_key secret;
                  encrypted_nothing = en;
                })
              ≡ ok q)
            × (new_session aead suite sent.local_index index q.1 q.0
                ≡ ok (Session.new aead sent.local_index index sender receiver))

    pub respond-Responded :
        (sent : HandshakeInitSentState) (r : Handshake) (env : Env) (secret : List ℕ) (index : ℕ)
        → Responded sent r env secret index
    unfolding respond check_response new_session new_params
    respond-Responded sent r env secret index =
        let x : List ℕ = sent.ephemeral_private in
        let keys =
          response_keys aead suite sent.hash sent.chaining_key (suite.public_key secret)
            (suite.diffie_hellman secret (suite.public_key x))
            (suite.diffie_hellman secret (suite.public_key a)) psk in
        let (en, s, hn, o) =
          open-seal suite sound 16 0 keys.2 [] keys.0 (length-response_keys _ _ _ _ _ _)
            (omega arith) (omega arith) in
        let sizes = length-session_keys keys.1 in
        let (receiver, kr) = sound.keys (session_keys aead suite keys.1).0 sizes.0 in
        let (sender, ks) = sound.keys (session_keys aead suite keys.1).1 sizes.1 in
        record {
          en = en;
          en_length = hn;
          receiver = receiver;
          sender = sender;
          made = rw (s, kr, ks) refl;
          taken = λ h. (
            session_keys aead suite keys.1,
            rw (sound.dh_comm x secret, sound.dh_comm a secret, o) refl,
            rw (kr, ks) refl,
          );
        }

    pub parse_answer :
        (h : Handshake) (env : Env) (index peer_index : ℕ) (secret en : List ℕ)
        → length en ≡ 16
        → length env.mac2 ≡ 16
        → parse_incoming_packet (
            append_mac1 aead suite h env (
              to_le_bytes32 handshake_resp
              ++ (to_le_bytes32 index
                  ++ (to_le_bytes32 peer_index ++ (suite.public_key secret ++ en)))))
          ≡ ok (
              response (record {
                sender_idx = index;
                receiver_idx = peer_index;
                unencrypted_ephemeral = suite.public_key secret;
                encrypted_nothing = en;
              }))
    unfolding append_mac1 b2s_keyed_mac_16
    parse_answer h env index peer_index secret en hn hm =
        let mac = b2s_keyed_mac_16 aead suite h.params.sending_mac1_key (
          to_le_bytes32 handshake_resp
          ++ (to_le_bytes32 index
              ++ (to_le_bytes32 peer_index ++ (suite.public_key secret ++ en)))) in
        let size : length mac ≡ 16 = sound.mac_length _ _ in
        ap parse_incoming_packet (simp (append_assoc) refl)
        ∙ parse_response (to_le_bytes32 handshake_resp) (to_le_bytes32 index)
            (to_le_bytes32 peer_index) (suite.public_key secret) en (mac ++ env.mac2)
            (length-to_le_bytes32 _) (length-to_le_bytes32 _) (length-to_le_bytes32 _)
            (sound.public_length secret) hn (omega (arith, length-append mac env.mac2))
            (from_le-to_le_bytes32 handshake_resp)
        ∙ rw (from_le-to_le_bytes32 index, from_le-to_le_bytes32 peer_index) refl

module _ {aead : Aead} (suite : Suite aead) where
  pub receive_initialization_lem :
      (h : Handshake) (env : Env) (packet : HandshakeInit) (dst_len : ℕ) (t : Tai64N)
      (s : HandshakeInitReceivedState) (secret : List ℕ)
      → handshake_resp_sz ≤ dst_len
      → check_initiation aead suite h packet ≡ ok (t, s)
      → env.secret ≡ some secret
      → (receive_handshake_initialization aead suite h env packet dst_len).1
        ≡ respond aead suite
            (record h {
              last_handshake_timestamp = t;
              previous = h.state;
              state = no_handshake;
              next_index = next_of h.next_index;
            })
            env
            s
            secret
            (next_of h.next_index)
  unfolding receive_handshake_initialization format_handshake_response received respond append_mac1
  receive_initialization_lem h env packet dst_len t s secret room checked random =
      let fits : ltb dst_len handshake_resp_sz ≡ false = ground arith in
      rw (checked, receive_handshake_initialization, fits, format_handshake_response, random) refl

  pub receive_response_lem :
      (h : Handshake) (env : Env) (q : HandshakeResponse) (sent : HandshakeInitSentState)
      (flag : Bool) (keys : List ℕ × List ℕ) (mine : Session aead)
      → awaiting h q.receiver_idx ≡ some (sent, flag)
      → check_response aead suite h sent q ≡ ok keys
      → new_session aead suite sent.local_index q.sender_idx keys.1 keys.0 ≡ ok mine
      → (receive_handshake_response aead suite h env q).1 ≡ ok mine
  unfolding receive_handshake_response
  receive_response_lem h env q sent flag keys mine waits checked made =
      rw (waits, receive_handshake_response, checked, made) refl
