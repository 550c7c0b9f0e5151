-- ===== src/Noise/Tunnel/Rollover.antt =====
-- When the tunnel sends under another session.
use fluxpeer.Prelude.{
  ℕ, ◌+◌, ◌-◌, ◌*◌, ◌%◌, ◌<◌, ◌≤◌, ◌≡◌, ◌≢◌, ◌⊎◌, inl, inr, refl, ap, true, false, not, ◌&&◌, ◌||◌,
  List, Option, none, some, ltb, ◌==◌, arith, Bool-cases, Option-cases, Result-cases, Result, ok,
  err,
}
use fluxpeer.Noise.{Error, no_current_session}
use fluxpeer.Noise.Packet.{PacketData, NoiseResult, validate_decapsulated_packet}
use fluxpeer.Noise.Session.{Aead, Session, receive_packet_data}
use fluxpeer.Noise.Tunnel.{
  Handshaker, Noise, session_at, store, distance, current_live, advance, confirm, confirm_pending,
  handle_data,
}

-- Indices with the same upper part, whose last byte counts the handshakes and wraps.
abbrev pub index : ℕ → ℕ → ℕ
index upper count = upper * 256 + count % 256

back : (u c d : ℕ) → d ≤ 128 → distance (index u c) (index u (c + d)) ≡ (256 - d) % 256
unfolding distance
back u c d h = omega arith

-- From a count to the count of `d` handshakes later the distance is `d`.
pub distance_lem :
    (upper count d : ℕ) → d < 256 → distance (index upper (count + d)) (index upper count) ≡ d
unfolding distance
distance_lem upper count d h = omega arith

module _ (aead : Aead) (handshaker : Handshaker aead) where
  -- The ways a data packet is handled.
  pub data Handled (t : Noise aead handshaker) (p : PacketData) (dst_len : ℕ)
      : Noise aead handshaker × Result NoiseResult Error → Type 0 where
    no_session :
        session_at aead handshaker t p.receiver_idx ≡ none
        → Handled t p dst_len (t, err no_current_session)
    refused :
        (s : Session aead) (e : Error)
        → session_at aead handshaker t p.receiver_idx ≡ some s
        → (receive_packet_data aead s p dst_len).1 ≡ err e
        → Handled t p dst_len
            (store aead handshaker t p.receiver_idx (receive_packet_data aead s p dst_len).0, err e)
    opened :
        (s : Session aead) (payload : List ℕ)
        → session_at aead handshaker t p.receiver_idx ≡ some s
        → (receive_packet_data aead s p dst_len).1 ≡ ok payload
        → Handled t p dst_len (
          confirm aead handshaker
              (store aead handshaker t p.receiver_idx (receive_packet_data aead s p dst_len).0)
              p.receiver_idx,
          validate_decapsulated_packet payload,
        )

  pub handle_data_cases :
      (t : Noise aead handshaker) (p : PacketData) (dst_len : ℕ)
      → Handled t p dst_len (handle_data aead handshaker t p dst_len)
  unfolding handle_data
  handle_data_cases t p dst_len =
      elim (Option-cases (session_at aead handshaker t p.receiver_idx)) [
        | inl e ↦ rw (e, handle_data) (no_session e)
        | inr (s, e) ↦ elim (Result-cases (receive_packet_data aead s p dst_len).1) [
          | inl (payload, good) ↦ rw (e, good, handle_data) (opened s payload e good)
          | inr (x, bad) ↦ rw (e, bad, handle_data) (refused s x e bad)
        ]
      ]

  confirm_cases :
      (next : Option ℕ) (t : Noise aead handshaker) (r_idx : ℕ)
      → let r = confirm_pending aead handshaker next t r_idx in
        (r ≡ t) ⊎ ((next ≡ some r_idx) × (r.current ≡ r_idx) × (r.next ≡ none))
  unfolding confirm_pending
  confirm_cases none t r_idx = inl refl
  confirm_cases (some pending) t r_idx = elim (Bool-cases (pending == r_idx)) [
    | inl same ↦ rw same (inr (ap some (ground arith), refl, refl))
    | inr other ↦ rw other (inl refl)
  ]

  -- A data packet moves sending to another session only where it names the pending session and a
  -- session opened it; then the pending one sends, and none is pending.
  pub handle_data_switch :
      (t : Noise aead handshaker) (p : PacketData) (dst_len : ℕ)
      → let r = handle_data aead handshaker t p dst_len in
        r.0.current ≢ t.current
        → (t.next ≡ some p.receiver_idx)
          × (r.0.current ≡ p.receiver_idx)
          × (r.0.next ≡ none)
          × ((s : Session aead) × (payload : List ℕ) × (session_at aead handshaker t p.receiver_idx
                ≡ some s)
              × ((receive_packet_data aead s p dst_len).1 ≡ ok payload))
  unfolding confirm
  handle_data_switch t p dst_len =
      go (handle_data aead handshaker t p dst_len) (handle_data_cases t p dst_len)
    where
      go :
          (r : Noise aead handshaker × Result NoiseResult Error)
          → Handled t p dst_len r
          → r.0.current ≢ t.current
          → (t.next ≡ some p.receiver_idx)
            × (r.0.current ≡ p.receiver_idx)
            × (r.0.next ≡ none)
            × ((s : Session aead) × (payload : List ℕ) × (session_at aead handshaker t
                    p.receiver_idx
                  ≡ some s)
                × ((receive_packet_data aead s p dst_len).1 ≡ ok payload))
      go _ (no_session _) ne = absurd (ne refl)
      go _ (refused _ _ _ _) ne = absurd (ne refl)
      go _ (opened s payload e good) ne =
          elim (confirm_cases t.next
            (store aead handshaker t p.receiver_idx (receive_packet_data aead s p dst_len).0)
            p.receiver_idx) [
              | inl same ↦ absurd (ne (ap (λ x. x.current) same))
              | inr (pending, moved, free) ↦ (pending, moved, free, (s, payload, e, good))
            ]

  -- A response moves sending to its session where this is newer by less than 128 handshakes.
  pub advance_newer :
      (t : Noise aead handshaker) (upper count d : ℕ)
      → t.current ≡ index upper count
      → 1 ≤ d
      → d < 128
      → (advance aead handshaker t (index upper (count + d))).current ≡ index upper (count + d)
  unfolding advance
  advance_newer t upper count d e one near =
      let far : distance (index upper (count + d)) t.current ≡ d =
        rw e (distance_lem upper count d (omega arith)) in
      let goes : (not (current_live aead handshaker t) || not (d == 0) && ltb d 128) ≡ true =
        ground arith in
      rw (far, goes) refl

  -- A delayed response, of the same handshake or of one up to 128 before, does not move it back,
  -- while the current session is live.
  pub advance_older :
      (t : Noise aead handshaker) (upper count d : ℕ)
      → t.current ≡ index upper (count + d)
      → d ≤ 128
      → current_live aead handshaker t ≡ true
      → advance aead handshaker t (index upper count) ≡ t
  unfolding advance
  advance_older t upper count d e near live =
      let far : distance (index upper count) t.current ≡ (256 - d) % 256 =
        rw e (back upper count d near) in
      let stays : (not (current_live aead handshaker t)
            || not ((256 - d) % 256 == 0) && ltb ((256 - d) % 256) 128)
          ≡ false =
        ground arith in
      rw (far, stays) refl
