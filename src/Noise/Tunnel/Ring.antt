-- ===== src/Noise/Tunnel/Ring.antt =====
-- Each session stands in the slot of its index, and the queue stays within its depth.
use fluxpeer.Prelude.{
  ℕ, ◌+◌, ◌%◌, ◌<◌, ◌≤◌, ◌≡◌, inl, inr, refl, sym, ap, ◌∙◌, not, ◌&&◌, ◌||◌, List, [], ◌∷◌, Option,
  none, some, ltb, leb, ◌==◌, arith, Bool-cases, Option-cases, Result-cases, Result, get_or, set,
  length, length-append, length-set, get_or-set_self, get_or-set_ne, get_or-replicate, ℕ_discrete,
}
use fluxpeer.Noise.{Error}
use fluxpeer.Noise.Packet.{
  PacketData, HandshakeInit, HandshakeResponse, Packet, init, response, data_packet, NoiseResult,
  data_overhead_sz,
}
use fluxpeer.Noise.Replay.{will_accept, mark_did_receive}
use fluxpeer.Noise.Session.{
  Aead, Random, Session, max_nonce, format_packet_data, receive_packet_data, receiving_counter_mark,
  nonce_of,
}
use fluxpeer.Noise.Tunnel.Rollover.{Handled, no_session, refused, opened, handle_data_cases}
use fluxpeer.Noise.Tunnel.{
  Handshaker, Noise, new, n_sessions, max_queue_depth, session_at, store, queue_packet,
  format_handshake_initiation, encapsulate, handle_handshake_init, handle_handshake_response,
  advance, confirm, confirm_pending, handle_verified_packet, current_live, distance,
}

module _ (aead : Aead) where
  -- Sending and receiving keep the index of a session.
  format_packet_data-index :
      (s : Session aead) (rng : Random) (src : List ℕ) (dst_len : ℕ)
      → (format_packet_data aead s rng src dst_len).0.receiving_index ≡ s.receiving_index
  unfolding format_packet_data
  format_packet_data-index s rng src dst_len =
      elim (Bool-cases (ltb dst_len (length src + data_overhead_sz))) [
        | inl short ↦ rw short refl
        | inr fits ↦ elim (Bool-cases (leb max_nonce s.sending_key_counter)) [
          | inl over ↦ rw (fits, over) refl
          | inr under ↦ rw (fits, under) refl
        ]
      ]

  receiving_counter_mark-index :
      (s : Session aead) (counter : ℕ)
      → (receiving_counter_mark aead s counter).0.receiving_index ≡ s.receiving_index
  unfolding receiving_counter_mark
  receiving_counter_mark-index s counter =
      elim (Result-cases (mark_did_receive s.receiving_key_counter counter).1) [
        | inl (_, good) ↦ rw (good, receiving_counter_mark) refl
        | inr (_, bad) ↦ rw (bad, receiving_counter_mark) refl
      ]

  receive_packet_data-index :
      (s : Session aead) (p : PacketData) (dst_len : ℕ)
      → (receive_packet_data aead s p dst_len).0.receiving_index ≡ s.receiving_index
  unfolding receive_packet_data
  receive_packet_data-index s p dst_len =
      elim (Bool-cases (ltb dst_len (length p.encrypted_encapsulated_packet))) [
        | inl short ↦ rw short refl
        | inr fits ↦ elim (Bool-cases (p.receiver_idx == s.receiving_index)) [
          | inr other ↦ rw (fits, other) refl
          | inl mine ↦ elim (Result-cases (will_accept s.receiving_key_counter p.counter)) [
            | inr (e, bad) ↦ rw (fits, mine, bad) refl
            | inl (_, good) ↦
                elim (Option-cases (
                  aead.open_in_place s.receiver (nonce_of p.counter)
                    p.encrypted_encapsulated_packet)) [
                      | inl forged ↦ rw (fits, mine, good, forged) refl
                      | inr (d, o) ↦
                          rw (fits, mine, good, o) (receiving_counter_mark-index s p.counter)
                    ]
          ]
        ]
      ]

module _ (aead : Aead) (handshaker : Handshaker aead) where
  -- A session stands only in the slot of its index.
  pub record IsRing (t : Noise aead handshaker) : Type 0 where
    pub slots : length t.sessions ≡ n_sessions
    pub placed :
        (i : ℕ) (s : Session aead)
        → get_or t.sessions i none ≡ some s
        → s.receiving_index % n_sessions ≡ i
    pub bounded : length t.packet_queue ≤ max_queue_depth

  pub new-IsRing : (hs : handshaker.State) → IsRing (new aead handshaker hs)
  unfolding new
  new-IsRing hs = record {
    slots = refl;
    placed = λ i s e. cc (get_or-replicate {A = Option (Session aead)} n_sessions i none);
    bounded = omega arith;
  }

  pub store-IsRing :
      (t : Noise aead handshaker) (index : ℕ) (s : Session aead)
      → s.receiving_index % n_sessions ≡ index % n_sessions
      → IsRing t
      → IsRing (store aead handshaker t index s)
  store-IsRing t index s same r = record {
    slots = length-set t.sessions (index % n_sessions) (some s) ∙ r.slots;
    placed = λ i x e. elim (ℕ_discrete (index % n_sessions) i) [
      | yes p ↦
          let room : index % n_sessions < length t.sessions = omega (arith, r.slots) in
          let got : some s ≡ some x =
            sym (get_or-set_self t.sessions (index % n_sessions) (some s) none room)
            ∙ ap (λ k. get_or (set t.sessions (index % n_sessions) (some s)) k none) p
            ∙ e in
          let it : s ≡ x = cc in ap (λ y. y.receiving_index % n_sessions) (sym it) ∙ same ∙ p
      | no p ↦
          r.placed i x (sym (get_or-set_ne t.sessions (index % n_sessions) i (some s) none p) ∙ e)
    ];
    bounded = r.bounded;
  }

  pub queue_packet-IsRing :
      (t : Noise aead handshaker) (packet : List ℕ)
      → IsRing t
      → IsRing (queue_packet aead handshaker t packet)
  unfolding queue_packet
  queue_packet-IsRing t packet r = elim (Bool-cases (ltb (length t.packet_queue) max_queue_depth)) [
    | inl room ↦ rw room (record {
      slots = r.slots;
      placed = r.placed;
      bounded = ground (arith, length-append t.packet_queue (packet ∷ []));
    })
    | inr full ↦ rw full r
  ]

  -- The other fields do not matter.
  pub IsRing-fields :
      (t : Noise aead handshaker) (hs : handshaker.State) (current : ℕ) (next : Option ℕ)
      → IsRing t
      → IsRing (record t { handshake = hs; current = current; next = next })
  IsRing-fields t hs current next r = record {
    slots = r.slots;
    placed = r.placed;
    bounded = r.bounded;
  }

  -- What stands in the slot of an index may be stored there again after it was used.
  again :
      (t : Noise aead handshaker) (index : ℕ) (s s' : Session aead)
      → IsRing t
      → session_at aead handshaker t index ≡ some s
      → s'.receiving_index ≡ s.receiving_index
      → IsRing (store aead handshaker t index s')
  again t index s s' r e kept =
      store-IsRing t index s' (ap (λ n. n % n_sessions) kept ∙ r.placed (index % n_sessions) s e) r

  -- Sending keeps the ring: each session in the slot of its index, and the queue within its depth.
  pub encapsulate-IsRing :
      (t : Noise aead handshaker) (rng : Random) (src : List ℕ) (dst_len : ℕ)
      → IsRing t
      → IsRing (encapsulate aead handshaker t rng src dst_len).0
  unfolding encapsulate format_handshake_initiation
  encapsulate-IsRing t rng src dst_len r =
      elim (Option-cases (session_at aead handshaker t t.current)) [
        | inr (s, e) ↦
            rw (e, encapsulate)
              (again t t.current s (format_packet_data aead s rng src dst_len).0 r e
                (format_packet_data-index aead s rng src dst_len))
        | inl e ↦
            let q = queue_packet-IsRing t src r in
            rw (e, encapsulate) (record { slots = q.slots; placed = q.placed; bounded = q.bounded })
      ]

  handle_handshake_init-IsRing :
      (t : Noise aead handshaker) (p : HandshakeInit) (dst_len : ℕ)
      → IsRing t
      → IsRing (handle_handshake_init aead handshaker t p dst_len).0
  unfolding handle_handshake_init
  handle_handshake_init-IsRing t p dst_len r =
      let (hs, answer) = handshaker.receive_handshake_initialization t.handshake p dst_len in
      let t' = IsRing-fields t hs t.current t.next r in
      elim (Result-cases answer) [
        | inr (e, bad) ↦ rw (bad, handle_handshake_init) t'
        | inl ((packet, s), good) ↦
            rw (good, handle_handshake_init)
              (IsRing-fields _ hs t.current (some s.receiving_index)
                (store-IsRing (record t { handshake = hs }) s.receiving_index s refl t'))
      ]

  advance-IsRing :
      (t : Noise aead handshaker) (l_idx : ℕ) → IsRing t → IsRing (advance aead handshaker t l_idx)
  unfolding advance
  advance-IsRing t l_idx r =
      elim (Bool-cases (
        not (current_live aead handshaker t)
        || not (distance l_idx t.current == 0) && ltb (distance l_idx t.current) 128)) [
          | inl goes ↦ rw goes (IsRing-fields t t.handshake l_idx none r)
          | inr stays ↦ rw stays r
        ]

  handle_handshake_response-IsRing :
      (t : Noise aead handshaker) (p : HandshakeResponse)
      → IsRing t
      → IsRing (handle_handshake_response aead handshaker t p).0
  unfolding handle_handshake_response
  handle_handshake_response-IsRing t p r =
      let (hs, answer) = handshaker.receive_handshake_response t.handshake p in
      let t' = IsRing-fields t hs t.current t.next r in
      elim (Result-cases answer) [
        | inr (e, bad) ↦ rw (bad, handle_handshake_response) t'
        | inl (s, good) ↦
            rw (good, handle_handshake_response)
              (advance-IsRing _ s.receiving_index
                (store-IsRing (record t { handshake = hs }) s.receiving_index s refl t'))
      ]

  confirm_pending-IsRing :
      (next : Option ℕ) (t : Noise aead handshaker) (r_idx : ℕ)
      → IsRing t
      → IsRing (confirm_pending aead handshaker next t r_idx)
  unfolding confirm_pending
  confirm_pending-IsRing none t r_idx r = r
  confirm_pending-IsRing (some pending) t r_idx r = elim (Bool-cases (pending == r_idx)) [
    | inl same ↦ rw same (IsRing-fields t t.handshake r_idx none r)
    | inr other ↦ rw other r
  ]

  Handled-IsRing :
      (t : Noise aead handshaker) (p : PacketData) (dst_len : ℕ)
      (a : Noise aead handshaker × Result NoiseResult Error)
      → Handled aead handshaker t p dst_len a
      → IsRing t
      → IsRing a.0
  unfolding confirm
  Handled-IsRing t p dst_len _ (no_session _) r = r
  Handled-IsRing t p dst_len _ (refused s e here bad) r =
      again t p.receiver_idx s _ r here (receive_packet_data-index aead s p dst_len)
  Handled-IsRing t p dst_len _ (opened s payload here good) r =
      confirm_pending-IsRing t.next _ p.receiver_idx
        (again t p.receiver_idx s _ r here (receive_packet_data-index aead s p dst_len))

  -- Whatever verified packet arrives, the tunnel keeps each session in the slot of its index and
  -- the queue within its depth.
  pub handle_verified_packet-IsRing :
      (t : Noise aead handshaker) (p : Packet) (dst_len : ℕ)
      → IsRing t
      → IsRing (handle_verified_packet aead handshaker t p dst_len).0
  unfolding handle_verified_packet
  handle_verified_packet-IsRing t (init p) dst_len r = handle_handshake_init-IsRing t p dst_len r
  handle_verified_packet-IsRing t (response p) dst_len r = handle_handshake_response-IsRing t p r
  handle_verified_packet-IsRing t (data_packet p) dst_len r =
      Handled-IsRing t p dst_len _ (handle_data_cases aead handshaker t p dst_len) r
