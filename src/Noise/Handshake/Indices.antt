-- ===== src/Noise/Handshake/Indices.antt =====
-- The indices of the sessions: the upper 24 bits are the peer's, and the last byte counts.
use fluxpeer.Prelude.{
  ℕ, zero, suc, ◌+◌, ◌*◌, ◌/◌, ◌%◌, ◌<◌, ◌≡◌, ◌≢◌, inl, inr, refl, ap, ◌∙◌, arith,
}
use fluxpeer.Noise.Session.{Aead}
use fluxpeer.Noise.Crypto.{Suite}
use fluxpeer.Noise.Handshake.{Handshake, next_of}
use fluxpeer.Noise.Handshake.Replays.{Step-Follows, Reach, here, next}

-- The index after `n` handshakes.
unfoldable pub index_after : ℕ → ℕ → ℕ
index_after zero index = index
index_after (suc n) index = next_of (index_after n index)

index_after_lem : (n index : ℕ) → index_after n index ≡ index / 256 * 256 + (index % 256 + n) % 256
unfolding index_after next_of
index_after_lem zero index = omega arith
index_after_lem (suc n) index = omega (arith, index_after_lem n index)

-- Fewer than 256 handshakes of a peer have indices that differ, and all have the peer's upper 24
-- bits.
pub index_after_apart :
    (index i j : ℕ)
    → i < j
    → j < i + 256
    → (index_after i index ≢ index_after j index)
      × (index_after i index / 256 ≡ index / 256)
      × (index_after j index / 256 ≡ index / 256)
index_after_apart index i j lt near = (
  λ e. omega (arith, index_after_lem i index, index_after_lem j index),
  omega (arith, index_after_lem i index),
  omega (arith, index_after_lem j index),
)

module _ {aead : Aead} (suite : Suite aead) where
  -- Whatever calls are made, the index of the handshake is that after some number of handshakes, so
  -- that it stays the peer's in its upper 24 bits.
  pub Reach-index_after :
      {h k : Handshake}
      → Reach suite h k
      → (n : ℕ) × (k.next_index ≡ index_after n h.next_index)
        × (k.next_index / 256 ≡ h.next_index / 256)
  unfolding index_after
  Reach-index_after {h} here = (0, refl, refl)
  Reach-index_after {h} (next r st) =
      let (n, e, up) = Reach-index_after r in
      elim (Step-Follows suite st).counts [
        | inl same ↦ (n, same ∙ e, ap (λ x. x / 256) same ∙ up)
        | inr counted ↦
            let e' = counted ∙ ap next_of e in
            (
              suc n,
              e',
              ap (λ x. x / 256) e'
                  ∙ (index_after_apart h.next_index (suc n) (suc (suc n)) (omega arith)
                      (omega arith)).1,
            )
      ]
