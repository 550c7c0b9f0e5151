-- ===== src/Noise/Session/Sending.antt =====
-- The nonces under which `format_packet_data` seals.
use fluxpeer.Prelude.{
  ℕ, ◌+◌, ◌-◌, ◌^◌, ◌>>=◌, ◌<◌, ◌≤◌, ◌≡◌, ◌⊎◌, inl, inr, refl, ap, true, List, [], ◌∷◌, ok, err,
  arith, length, Bool-cases, ltb, leb,
}
use mathlib.Core.List.{Nodup}
use fluxpeer.Noise.{nonce_exhausted, destination_buffer_too_small}
use fluxpeer.Noise.Packet.{data_overhead_sz}
use fluxpeer.Noise.Replay.{add64}
use fluxpeer.Prelude.Membership.{contains}
use fluxpeer.Noise.Session.{Aead, Random, Session, max_nonce, padded, sealed, format_packet_data}

module _ (aead : Aead) where
  next_lem :
      (s : Session aead)
      → s.sending_key_counter < 2 ^ 64 - 1
      → ◌≡◌ {A = Session aead}
          (record s { sending_key_counter = add64 s.sending_key_counter 1 })
          (record s { sending_key_counter = s.sending_key_counter + 1 })
  next_lem s h = ap (λ n. record s { sending_key_counter = n }) (omega arith)

  -- Every branch: a buffer that is too small takes no counter; any other call takes one, and seals
  -- under it only below `MAX_NONCE`.
  pub format_cases :
      (s : Session aead) (rng : Random) (src : List ℕ) (dst_len : ℕ)
      → s.sending_key_counter < 2 ^ 64 - 1
      → let r = format_packet_data aead s rng src dst_len in
        ((dst_len < length src + data_overhead_sz)
          × (r.0 ≡ s)
          × (r.1 ≡ err destination_buffer_too_small))
        ⊎ ((r.0 ≡ record s { sending_key_counter = s.sending_key_counter + 1 })
            × ((max_nonce ≤ s.sending_key_counter) × (r.1 ≡ err nonce_exhausted)
                ⊎ ((s.sending_key_counter < max_nonce)
                    × (r.1
                        ≡ (padded aead rng src >>= λ p. sealed aead s s.sending_key_counter p)))))
  unfolding format_packet_data
  format_cases s rng src dst_len h =
      elim (Bool-cases (ltb dst_len (length src + data_overhead_sz))) [
        | inl short ↦ rw short (inl (ground arith, refl, refl))
        | inr fits ↦ elim (Bool-cases (leb max_nonce s.sending_key_counter)) [
          | inl over ↦ rw (fits, over) (inr (next_lem s h, inl (ground arith, refl)))
          | inr under ↦ rw (fits, under) (inr (next_lem s h, inr (ground arith, refl)))
        ]
      ]

  -- The calls of a session, each with its random numbers and the length of its buffer, and the
  -- counters under which they sealed a packet, newest first.
  pub format_all : Session aead → List ℕ → List (Random × List ℕ × ℕ) → Session aead × List ℕ
  format_all s used [] = (s, used)
  format_all s used ((rng, src, dst_len) ∷ calls) =
      let (s', r) = format_packet_data aead s rng src dst_len in
      format_all s' (elim r [ ok _ ↦ s.sending_key_counter ∷ used | err _ ↦ used ]) calls

  record Uses (s : Session aead) (used : List ℕ) : Type 0 where
    below : (c : ℕ) → contains used c ≡ true → c < s.sending_key_counter
    once : Nodup used
