-- ===== src/Noise/Cryptor/Delivery.antt =====
-- The first packet of a connection.
use fluxpeer.Prelude.{
  ℕ, ◌+◌, ◌%◌, ◌<◌, ◌≤◌, ◌≡◌, refl, ap, sym, ◌∙◌, List, [], ◌∷◌, ◌++◌, some, ok, ◌>>=◌, arith,
  length, ltb, leb, true, false, Bool-cases, inl, inr, length-append, ◌==◌,
}
use fluxpeer.Prelude.Bytes.{
  to_le_bytes32, to_le_bytes64, length-to_le_bytes32, length-to_le_bytes64,
}
use fluxpeer.Noise.Packet.{
  PacketData, data_packet, parse_incoming_packet, validate_decapsulated_packet, data_overhead_sz,
  data_type,
}
use fluxpeer.Noise.Session.{
  Aead, Random, Session, nonce_of, padding_bytes, max_padding, padded, sealed, receive_packet_data,
  format_packet_data, aead_size, max_nonce,
}
use fluxpeer.Noise.Session
use fluxpeer.Noise.Replay
use fluxpeer.Noise.Tai64.{TimeStamper}
use fluxpeer.Noise.Crypto.{Suite}
use fluxpeer.Noise.Handshake.{Env}
use fluxpeer.Noise.Verifier.{is_handshake}
use fluxpeer.Noise.Verifier.Checks.{verify_packet-data}
use fluxpeer.Noise.Tunnel.{
  Noise, session_at, store, handle_data, confirm, confirm_pending, encapsulate,
  handle_verified_packet,
}
use fluxpeer.Noise.Session.RoundTrip.{receive-format_to}
use fluxpeer.Noise.Replay.Refinement.{new-Tracks}
use mathlib.Core.Path.{subst}
use fluxpeer.Noise.Cryptor.{
  shaker, Cryptor, with_env, on_send, on_recv, tunnel_only, handle_handshake_response,
}
use fluxpeer.Noise.Cryptor.Steps.{first_index}
use fluxpeer.Noise.Cryptor.Connection.{Connected}

-- What a packet needs of the outside: random bytes, and that what is sealed opens again.
pub record IsReady (aead : Aead) (rng : Random) : Type 0 where
  pub word : (w : ℕ) × (rng.word ≡ some w)
  pub padding : (k : ℕ) → (b : List ℕ) × (rng.padding k ≡ some b) × (length b ≡ k)
  pub seals :
      (key : aead.Key) (n p : List ℕ)
      → (c : List ℕ) × (aead.seal key n p ≡ some c)
        × (aead.open_in_place key n c ≡ some p)
        × (length c ≡ length p + aead_size)

module _ {aead : Aead} {rng : Random} (ready : IsReady aead rng) where
  padding_bytes_total : (n : ℕ) → (b : List ℕ) × (padding_bytes aead rng n ≡ ok b) × (length b ≡ n)
  unfolding padding_bytes
  padding_bytes_total n =
      let (b, got, size) = ready.padding n in
      elim (Bool-cases (ltb 0 n)) [
        | inl pos ↦ (b, rw (pos, got) refl, size)
        | inr zero ↦ ([], rw zero refl, ground arith)
      ]

  padded_total :
      (src : List ℕ) → (p : List ℕ) × (padded aead rng src ≡ ok p) × (length p ≤ length src + 16)
  unfolding padded padding_bytes padding_bytes_total
  padded_total src =
      let (w, word) = ready.word in
      let (b, got, size) = padding_bytes_total (w % (max_padding + 1)) in
      (w % (max_padding + 1) ∷ b ++ src, rw (word, got) refl, omega (arith, length-append b src))

  -- A session that has nonces left formats each packet that its buffer has room for.
  pub format_total :
      (s : Session aead) (src : List ℕ) (len : ℕ)
      → s.sending_key_counter < max_nonce
      → length src + data_overhead_sz ≤ len
      → (pkt : List ℕ) × ((format_packet_data aead s rng src len).1 ≡ ok pkt)
        × (length pkt ≤ length src + 48)
  unfolding format_packet_data sealed
  format_total s src len left room =
      let (p, pad, size) = padded_total src in
      let (c, seal, _, size') = ready.seals s.sender (nonce_of s.sending_key_counter) p in
      let fits : ltb len (length src + data_overhead_sz) ≡ false = ground arith in
      let more : leb max_nonce s.sending_key_counter ≡ false = ground arith in
      (
        to_le_bytes32 data_type
            ++ (to_le_bytes32 s.sending_index ++ (to_le_bytes64 s.sending_key_counter ++ c)),
        rw (fits, more, pad, seal) refl,
        ground (
          arith,
          length-append (to_le_bytes32 data_type)
              (to_le_bytes32 s.sending_index ++ (to_le_bytes64 s.sending_key_counter ++ c)),
          length-append (to_le_bytes32 s.sending_index) (to_le_bytes64 s.sending_key_counter ++ c),
          length-append (to_le_bytes64 s.sending_key_counter) c,
          length-to_le_bytes32 data_type,
          length-to_le_bytes32 s.sending_index,
          length-to_le_bytes64 s.sending_key_counter,
        ),
      )

module _ {aead : Aead} (suite : Suite aead) where
  on_send_ok :
      (c : Cryptor aead suite) (env : Env) (rng : Random) (src : List ℕ) (len : ℕ)
      (s : Session aead) {pkt : List ℕ}
      → session_at aead (shaker aead suite) c.noise c.noise.current ≡ some s
      → (format_packet_data aead s rng src len).1 ≡ ok pkt
      → (on_send aead suite c env rng src len).1 ≡ ok pkt
  unfolding on_send encapsulate
  on_send_ok c env rng src len s at e = rw (at, encapsulate, e) refl

  handle_data_opened :
      (t : Noise aead (shaker aead suite)) (p : PacketData) (len : ℕ) (s : Session aead)
      {payload : List ℕ}
      → session_at aead (shaker aead suite) t p.receiver_idx ≡ some s
      → (receive_packet_data aead s p len).1 ≡ ok payload
      → handle_data aead (shaker aead suite) t p len ≡ (
        confirm aead
            (shaker aead suite)
            (store aead (shaker aead suite) t p.receiver_idx (receive_packet_data aead s p len).0)
            p.receiver_idx,
        validate_decapsulated_packet payload,
      )
  unfolding handle_data
  handle_data_opened t p len s at e = rw (at, handle_data, e) refl

  on_recv_opened :
      (c : Cryptor aead suite) (env : Env) (pkt : List ℕ) (len : ℕ) (p : PacketData)
      (s : Session aead) {payload : List ℕ}
      → parse_incoming_packet pkt ≡ ok (data_packet p)
      → session_at aead (shaker aead suite) c.noise p.receiver_idx ≡ some s
      → (receive_packet_data aead s p len).1 ≡ ok payload
      → ((on_recv aead suite c env pkt len).1
          ≡ (validate_decapsulated_packet payload >>= tunnel_only))
        × (c.noise.next ≡ some p.receiver_idx
            → (on_recv aead suite c env pkt len).0.noise.current ≡ p.receiver_idx)
  unfolding on_recv handle_verified_packet confirm confirm_pending is_handshake
  on_recv_opened c env pkt len p s parsed at e =
      let done = handle_data_opened (with_env aead suite env c.noise) p len s at e in
      let seen = verify_packet-data suite c.verifier pkt (data_packet p) parsed refl in
      let same : (p.receiver_idx == p.receiver_idx) ≡ true = ground arith in
      (rw (seen, on_recv, done) refl, λ pending. rw (seen, on_recv, done, pending, same) refl)

module _ {aead : Aead} (suite : Suite aead) {rng : Random} (ready : IsReady aead rng) where
  sealed_opens :
      (key : aead.Key) (n p e : List ℕ)
      → aead.seal key n p ≡ some e
      → (aead.open_in_place key n e ≡ some p) × (length e ≡ length p + aead_size)
  sealed_opens key n p e sealed =
      let (e', made, opens, size) = ready.seals key n p in
      let same : e' ≡ e = cc in
      subst (λ z. (aead.open_in_place key n z ≡ some p) × (length z ≡ length p + aead_size)) same
        (opens, size)

  padding_fills : (k : ℕ) (b : List ℕ) → rng.padding k ≡ some b → length b ≡ k
  padding_fills k b got =
      let (b', made, size) = ready.padding k in let same : b ≡ b' = cc in ap length same ∙ size

  -- Peers that have connected deliver: a payload that the initiator sends leaves as one packet,
  -- where its buffer has room, and the other side, given a buffer that is no shorter than the
  -- packet can be, hands on what the payload says it is, or refuses it by its IP header. From then
  -- on it sends under the session that the packet came by.
  pub first_delivery :
      (a b : List ℕ) (base base' : ℕ) (s s' : TimeStamper) (env env' later at at' : Env)
      (c : Connected suite a b base base' s s' env env' later) (src : List ℕ) (len out_len : ℕ)
      → length src + data_overhead_sz ≤ len
      → length src + 48 ≤ out_len
      → let sender = (handle_handshake_response aead suite c.initiator later c.reply).0 in
        (pkt : List ℕ) × ((on_send aead suite sender at rng src len).1 ≡ ok pkt)
        × ((on_recv aead suite c.responder at' pkt out_len).1
            ≡ (validate_decapsulated_packet src >>= tunnel_only))
        × ((on_recv aead suite c.responder at' pkt out_len).0.noise.current ≡ first_index base')
  unfolding Session.new Replay.new
  first_delivery a b base base' s s' env env' later at at' c src len out_len room room' =
      let sender = (handle_handshake_response aead suite c.initiator later c.reply).0 in
      let mine = Session.new aead (first_index base) (first_index base') c.key' c.key in
      let theirs = Session.new aead (first_index base') (first_index base) c.key c.key' in
      let (pkt, made, size) = format_total ready mine src len (omega arith) room in
      let (packet, parsed, to, opened) =
        receive-format_to aead mine theirs rng [] (sealed_opens c.key) padding_fills refl new-Tracks
          (omega arith) refl src len out_len (omega arith) made in
      let held =
        ap (λ i. session_at aead (shaker aead suite) c.responder.noise i) to ∙ c.receives.0 in
      let (delivered, current) =
        on_recv_opened suite c.responder at' pkt out_len packet theirs parsed held opened in
      (
        pkt,
        on_send_ok suite sender at rng src len mine
            (ap (λ i. session_at aead (shaker aead suite) sender.noise i) c.sends.0 ∙ c.sends.1)
            made,
        delivered,
        current (c.receives.1 ∙ ap some (sym to)) ∙ to,
      )
