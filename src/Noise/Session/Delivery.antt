-- ===== src/Noise/Session/Delivery.antt =====
-- What `receive_packet_data` delivers: authenticated packets, each counter once.
use fluxpeer.Prelude.{
  ℕ, ◌≡◌, ◌⊎◌, inl, inr, refl, true, false, List, [], ◌∷◌, some, All, Result, ok, err, arith,
  Option-cases, Bool-cases, Result-cases, length, ltb, ◌==◌,
}
use mathlib.Core.List.{Nodup, Nodup-nil, Nodup-cons}
use fluxpeer.Noise.{Error}
use fluxpeer.Noise.Packet.{PacketData}
use fluxpeer.Noise.Replay.{will_accept, mark_did_receive}
use fluxpeer.Prelude.Membership.{contains, not-Mem}
use fluxpeer.Noise.Replay.Refinement.{
  Tracks, Tracks_cnt, InRange, will_accept-verdict, mark_did_receive-verdict,
  mark_did_receive-Tracks, new-Tracks,
}
use fluxpeer.Noise.Session.{
  Aead, Session, nonce_of, new, strip, receiving_counter_mark, receive_packet_data,
}

module _ (aead : Aead) where
  -- `p` was sent under `s`'s key with the nonce of its counter, and holds `payload`.
  abbrev pub IsAuthentic : Session aead → PacketData → List ℕ → Type 0
  IsAuthentic s p payload =
      (decrypted : List ℕ) × (aead.open_in_place s.receiver (nonce_of p.counter)
          p.encrypted_encapsulated_packet
        ≡ some decrypted)
      × (strip aead decrypted ≡ ok payload)

  module _ (s : Session aead) (seen : List ℕ) (t : Tracks s.receiving_key_counter seen)
      (p : PacketData) (small : InRange p.counter) (dst_len : ℕ) where
    -- Refused with the session as it was, or opened, with its counter marked.
    abbrev pub Refused : Session aead × Result (List ℕ) Error → Type 0
    Refused r = (e : Error) × (r.0 ≡ s) × (r.1 ≡ err e)

    abbrev pub Opened : Session aead × Result (List ℕ) Error → Type 0
    Opened r =
        (decrypted : List ℕ) × (aead.open_in_place s.receiver (nonce_of p.counter)
            p.encrypted_encapsulated_packet
          ≡ some decrypted)
        × (contains seen p.counter ≡ false)
        × (r.1 ≡ strip aead decrypted)
        × Tracks r.0.receiving_key_counter (p.counter ∷ seen)

    -- A counter that passes the check before decryption passes the one after it.
    mark_after_accept :
        will_accept s.receiving_key_counter p.counter ≡ ok tt
        → ((mark_did_receive s.receiving_key_counter p.counter).1 ≡ ok tt)
          × (contains seen p.counter ≡ false)
    mark_after_accept h =
        ground
          (arith, will_accept-verdict t p.counter small, mark_did_receive-verdict t p.counter small)

    pub mark-Tracks :
        will_accept s.receiving_key_counter p.counter ≡ ok tt
        → ((receiving_counter_mark aead s p.counter).1 ≡ ok tt)
          × Tracks
              (receiving_counter_mark aead s p.counter).0.receiving_key_counter
              (p.counter ∷ seen)
    unfolding receiving_counter_mark
    mark-Tracks h =
        let (good, _) = mark_after_accept h in
        let kept = mark_did_receive-Tracks t p.counter small in
        rw (good, receiving_counter_mark) (refl, Tracks_cnt _ (rw good at kept))

    -- A packet is either refused, with the session as it was, or it was opened under its counter's
    -- nonce, the counter was not among those accepted before and is now, and the answer is what
    -- stands behind the padding.
    pub receive_cases :
        Refused (receive_packet_data aead s p dst_len)
        ⊎ Opened (receive_packet_data aead s p dst_len)
    unfolding receive_packet_data
    receive_cases = elim (Bool-cases (ltb dst_len (length p.encrypted_encapsulated_packet))) [
      | inl short ↦ rw short (inl (_, refl, refl))
      | inr fits ↦ elim (Bool-cases (p.receiver_idx == s.receiving_index)) [
        | inr other ↦ rw (fits, other) (inl (_, refl, refl))
        | inl mine ↦ elim (Result-cases (will_accept s.receiving_key_counter p.counter)) [
          | inr (e, bad) ↦ rw (fits, mine, bad) (inl (_, refl, refl))
          | inl (_, good) ↦
              elim (Option-cases (
                aead.open_in_place s.receiver (nonce_of p.counter)
                  p.encrypted_encapsulated_packet)) [
                    | inl forged ↦ rw (fits, mine, good, forged) (inl (_, refl, refl))
                    | inr (d, o) ↦
                        let (marked, kept) = mark-Tracks good in
                        rw (fits, mine, good, o, marked)
                          (inr (d, refl, (mark_after_accept good).1, refl, kept))
                  ]
        ]
      ]
    ]

  -- A run over the packets that arrive, each with the length of its buffer, and the counters of
  -- those that were delivered, newest first.
  pub receive_all : Session aead → List ℕ → List (PacketData × ℕ) → Session aead × List ℕ
  receive_all s delivered [] = (s, delivered)
  receive_all s delivered ((p, dst_len) ∷ ps) =
      let (s', r) = receive_packet_data aead s p dst_len in
      receive_all s' (elim r [ ok _ ↦ p.counter ∷ delivered | err _ ↦ delivered ]) ps

  -- The delivered counters are among the accepted ones, and none is there twice.
  record Delivers (s : Session aead) (delivered : List ℕ) : Type 0 where
    seen : List ℕ
    window : Tracks s.receiving_key_counter seen
    within : (c : ℕ) → contains delivered c ≡ true → contains seen c ≡ true
    once : Nodup delivered

  Delivers-step :
      (s : Session aead) (delivered : List ℕ) (p : PacketData) (dst_len : ℕ)
      → InRange p.counter
      → Delivers s delivered
      → let (s', r) = receive_packet_data aead s p dst_len in
        Delivers s' (elim r [ ok _ ↦ p.counter ∷ delivered | err _ ↦ delivered ])
  Delivers-step s delivered p dst_len small d =
      elim (receive_cases s d.seen d.window p small dst_len) [
        | inl (e, same, no_result) ↦ rw (no_result, same) d
        | inr (x, _, fresh, answer, window) ↦ elim (Result-cases (strip aead x)) [
          | inl (payload, good) ↦
              rw (answer, good)
                (record {
                  seen = p.counter ∷ d.seen;
                  window = window;
                  within = λ c h. ground (arith, d.within c);
                  once =
                      Nodup-cons.1
                        (not-Mem delivered p.counter (ground (arith, d.within p.counter)), d.once);
                })
          | inr (e, bad) ↦
              rw (answer, bad)
                (record {
                  seen = p.counter ∷ d.seen;
                  window = window;
                  within = λ c h. ground (arith, d.within c);
                  once = d.once;
                })
        ]
      ]

  receive_all-Delivers :
      (ps : List (PacketData × ℕ)) (s : Session aead) (delivered : List ℕ)
      → All (λ q. InRange q.0.counter) ps
      → Delivers s delivered
      → Delivers (receive_all s delivered ps).0 (receive_all s delivered ps).1
  unfolding receive_all
  receive_all-Delivers [] s delivered h d = d
  receive_all-Delivers ((p, dst_len) ∷ ps) s delivered h d =
      receive_all-Delivers ps _ _ h.1 (Delivers-step s delivered p dst_len h.0 d)

  -- Whatever packets arrive at a new session, forged, repeated or reordered, no two that it
  -- delivers have the same counter.
  pub receive_all-Nodup :
      (local_index peer_index : ℕ) (receiving_key sending_key : aead.Key)
      (ps : List (PacketData × ℕ))
      → All (λ q. InRange q.0.counter) ps
      → Nodup (receive_all (new aead local_index peer_index receiving_key sending_key) [] ps).1
  unfolding new
  receive_all-Nodup i j k l ps h = Delivers.once (
      receive_all-Delivers ps _ [] h
        (record { seen = []; window = new-Tracks; within = λ c e. e; once = Nodup-nil }))
