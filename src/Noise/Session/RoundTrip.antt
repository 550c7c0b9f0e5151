-- ===== src/Noise/Session/RoundTrip.antt =====
-- A packet that one end formats is parsed, opened and delivered at the other.
use fluxpeer.Prelude.{
  refl, ℕ, suc, ◌+◌, ◌%◌, ◌<◌, ◌≤◌, ◌≡◌, inl, inr, ap, sym, ◌∙◌, true, false, List, [], ◌∷◌, ◌++◌,
  some, ok, arith, length, Bool-cases, ltb, leb, ◌==◌, length-append, drop-append_of, ok_or,
  >>=-eq-ok, ok_or-eq-ok,
}
use fluxpeer.Prelude.Bytes.{
  to_le_bytes32, to_le_bytes64, from_le_bytes32, from_le_bytes64, from_le-to_le_bytes32,
  from_le-to_le_bytes64, length-to_le_bytes32, length-to_le_bytes64,
}
use fluxpeer.Noise.{randomness_unavailable, invalid_aead_tag}
use fluxpeer.Noise.Packet.{
  PacketData, data_packet, data_type, parse_incoming_packet, data_min_sz, data_overhead_sz,
}
use fluxpeer.Noise.Replay.{n_bits, will_accept}
use fluxpeer.Prelude.Membership.{contains}
use fluxpeer.Noise.Replay.Refinement.{Tracks, InRange, will_accept-verdict}
use fluxpeer.Noise.Session.{
  Aead, Random, Session, nonce_of, padding_bytes, max_padding, padded, sealed, strip,
  receive_packet_data, format_packet_data, aead_size, max_nonce,
}
use fluxpeer.Noise.Session.Delivery.{mark-Tracks}

-- A data packet's header is read back.
parse_data :
    (a b d c : List ℕ)
    → length a ≡ 4
    → length b ≡ 4
    → length d ≡ 8
    → from_le_bytes32 a ≡ data_type
    → 17 ≤ length c
    → parse_incoming_packet (a ++ (b ++ (d ++ c)))
      ≡ ok (
          data_packet (record {
            receiver_idx = from_le_bytes32 b;
            counter = from_le_bytes64 d;
            encrypted_encapsulated_packet = c;
          }))
unfolding parse_incoming_packet
parse_data (_ ∷ _ ∷ _ ∷ _ ∷ []) (_ ∷ _ ∷ _ ∷ _ ∷ []) (_ ∷ _ ∷ _ ∷ _ ∷ _ ∷ _ ∷ _ ∷ _ ∷ []) c ha hb hd
      t h =
    let long : leb data_min_sz (16 + length c) ≡ true = ground arith in rw t (ground arith)
parse_data _ _ _ c ha hb hd t h = absurd (omega arith)

parse_sealed :
    (idx counter : ℕ) (c : List ℕ)
    → 17 ≤ length c
    → parse_incoming_packet
        (to_le_bytes32 data_type ++ (to_le_bytes32 idx ++ (to_le_bytes64 counter ++ c)))
      ≡ ok (
          data_packet
            (record { receiver_idx = idx; counter = counter; encrypted_encapsulated_packet = c }))
parse_sealed idx counter c h =
    parse_data (to_le_bytes32 data_type) (to_le_bytes32 idx) (to_le_bytes64 counter) c
      (length-to_le_bytes32 data_type) (length-to_le_bytes32 idx) (length-to_le_bytes64 counter)
      (from_le-to_le_bytes32 data_type) h
    ∙ rw (from_le-to_le_bytes32 idx, from_le-to_le_bytes64 counter)

length_header :
    (idx counter : ℕ) (c : List ℕ)
    → length (to_le_bytes32 data_type ++ (to_le_bytes32 idx ++ (to_le_bytes64 counter ++ c)))
      ≡ 16 + length c
unfolding to_le_bytes32 to_le_bytes64
length_header idx counter c = omega arith

module _ (aead : Aead) where
  -- What a call of `format_packet_data` did that returned a packet.
  format_ok :
      (s : Session aead) (rng : Random) (src : List ℕ) (dst_len : ℕ) {pkt : List ℕ}
      → (format_packet_data aead s rng src dst_len).1 ≡ ok pkt
      → (s.sending_key_counter < max_nonce)
        × ((p : List ℕ) × (padded aead rng src ≡ ok p)
            × (sealed aead s s.sending_key_counter p ≡ ok pkt))
  unfolding format_packet_data
  format_ok s rng src dst_len h = elim (Bool-cases (ltb dst_len (length src + data_overhead_sz))) [
    | inl short ↦ cc (rw short at h)
    | inr fits ↦ elim (Bool-cases (leb max_nonce s.sending_key_counter)) [
      | inl over ↦ cc (rw (fits, over) at h)
      | inr under ↦ (
        ground arith,
        >>=-eq-ok (padded aead rng src) (λ p. sealed aead s s.sending_key_counter p)
            (rw (fits, under) at h),
      )
    ]
  ]

  strip_lem : (pad src : List ℕ) (n : ℕ) → length pad ≡ n → strip aead (n ∷ pad ++ src) ≡ ok src
  unfolding strip
  strip_lem pad src n h =
      ground (arith, length-append pad src, drop-append_of (suc n) (n ∷ pad) src)

  length-padding_bytes :
      (rng : Random) (n : ℕ) {bs : List ℕ}
      → ((k : ℕ) (b : List ℕ) → rng.padding k ≡ some b → length b ≡ k)
      → padding_bytes aead rng n ≡ ok bs
      → length bs ≡ n
  unfolding padding_bytes
  length-padding_bytes rng n {bs} filled h = elim (Bool-cases (ltb 0 n)) [
    | inl some_bytes ↦ filled n bs (ok_or-eq-ok _ _ (rw some_bytes at h))
    | inr no_bytes ↦ ground arith
  ]

  -- The padding that the sender writes is what the receiver strips.
  strip-padded :
      (rng : Random) (src : List ℕ) {p : List ℕ}
      → ((k : ℕ) (b : List ℕ) → rng.padding k ≡ some b → length b ≡ k)
      → padded aead rng src ≡ ok p
      → (strip aead p ≡ ok src) × (1 ≤ length p)
  unfolding padded
  strip-padded rng src {p} filled h =
      let (word, _, h') = >>=-eq-ok (ok_or rng.word randomness_unavailable) _ h in
      let (bs, got, e) = >>=-eq-ok (padding_bytes aead rng (word % (max_padding + 1))) _ h' in
      let whole : word % (max_padding + 1) ∷ bs ++ src ≡ p = cc in
      rw (← whole) (strip_lem bs src _ (length-padding_bytes rng _ filled got), omega arith)

  module _ (s r : Session aead) (rng : Random) (seen : List ℕ)
      (matched : (n p c : List ℕ)
        → aead.seal s.sender n p ≡ some c
        → (aead.open_in_place r.receiver n c ≡ some p) × (length c ≡ length p + aead_size))
      (filled : (k : ℕ) (b : List ℕ) → rng.padding k ≡ some b → length b ≡ k)
      (paired : s.sending_index ≡ r.receiving_index) (window : Tracks r.receiving_key_counter seen)
      (recent : r.receiving_key_counter.next ≤ s.sending_key_counter + n_bits)
      (fresh : contains seen s.sending_key_counter ≡ false) where
    -- What the receiver does with an authentic packet of a fresh counter.
    receive_authentic :
        (c p : List ℕ) (out_len : ℕ)
        → InRange s.sending_key_counter
        → length c ≤ out_len
        → aead.open_in_place r.receiver (nonce_of s.sending_key_counter) c ≡ some p
        → (receive_packet_data aead r
            (record {
              receiver_idx = s.sending_index;
              counter = s.sending_key_counter;
              encrypted_encapsulated_packet = c;
            })
            out_len).1
          ≡ strip aead p
    unfolding receive_packet_data
    receive_authentic c p out_len small room o =
        let packet : PacketData = record {
          receiver_idx = s.sending_index;
          counter = s.sending_key_counter;
          encrypted_encapsulated_packet = c;
        } in
        let fits : ltb out_len (length c) ≡ false = ground arith in
        let mine : (s.sending_index == r.receiving_index) ≡ true = ground arith in
        let good : will_accept r.receiving_key_counter s.sending_key_counter ≡ ok tt =
          ground (arith, will_accept-verdict window s.sending_key_counter small) in
        rw (fits, mine, good, o, (mark-Tracks aead r seen window packet small out_len good).0)

    -- What a packet of the sender is parsed as, and which session it is for.
    pub receive-format_to :
        (src : List ℕ) (dst_len out_len : ℕ) {pkt : List ℕ}
        → length pkt ≤ out_len
        → (format_packet_data aead s rng src dst_len).1 ≡ ok pkt
        → (packet : PacketData) × (parse_incoming_packet pkt ≡ ok (data_packet packet))
          × (packet.receiver_idx ≡ s.sending_index)
          × ((receive_packet_data aead r packet out_len).1 ≡ ok src)
    unfolding sealed
    receive-format_to src dst_len out_len {pkt} room h =
        let (small, sent) = format_ok s rng src dst_len h in
        let (p, pad, out) = sent in
        let (c, s_ok, e) =
          >>=-eq-ok (ok_or (aead.seal s.sender (nonce_of s.sending_key_counter) p) invalid_aead_tag)
            _ out in
        let (opens, size) = matched _ p c (ok_or-eq-ok _ _ s_ok) in
        let (payload, long) = strip-padded rng src filled pad in
        let shape : to_le_bytes32 data_type
              ++ (to_le_bytes32 s.sending_index ++ (to_le_bytes64 s.sending_key_counter ++ c))
            ≡ pkt =
          cc in
        let size_pkt : length pkt ≡ 16 + length c =
          ap length (sym shape) ∙ length_header s.sending_index s.sending_key_counter c in
        (
          _,
          ap parse_incoming_packet (sym shape)
              ∙ parse_sealed s.sending_index s.sending_key_counter c (omega arith),
          refl,
          receive_authentic c p out_len (omega arith) (omega arith) opens ∙ payload,
        )

    -- A packet that the sender formats is parsed at the other end as a data packet and delivers the
    -- payload: the two ends share keys and indices, the counter is in the receiver's window and was
    -- not accepted before, and the receiver's buffer holds the ciphertext.
    pub receive-format :
        (src : List ℕ) (dst_len out_len : ℕ) {pkt : List ℕ}
        → length pkt ≤ out_len
        → (format_packet_data aead s rng src dst_len).1 ≡ ok pkt
        → (packet : PacketData) × (parse_incoming_packet pkt ≡ ok (data_packet packet))
          × ((receive_packet_data aead r packet out_len).1 ≡ ok src)
    receive-format src dst_len out_len room h =
        let (packet, parsed, _, delivered) = receive-format_to src dst_len out_len room h in
        (packet, parsed, delivered)
