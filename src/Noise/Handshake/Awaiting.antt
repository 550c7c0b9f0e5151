-- ===== src/Noise/Handshake/Awaiting.antt =====
-- Which initiation a response is for.
use fluxpeer.Prelude.{
  ℕ, ◌≡◌, ◌≢◌, refl, sym, ◌∙◌, some, arith, ◌==◌, true, false, ltb, Bool, Bool-cases, Result-cases,
  inl, inr,
}
use fluxpeer.Noise.Packet.{handshake_init_sz}
use fluxpeer.Noise.Session.{Aead}
use fluxpeer.Noise.Crypto.{Suite}
use fluxpeer.Noise.Handshake.{
  Env, HandshakeInitSentState, init_sent, Handshake, inc_index, next_of, initiation,
  format_handshake_initiation, awaiting, awaits,
}
use fluxpeer.Noise.Handshake.Initiate.{initiation-local_index}

pub next_of-ne : (n : ℕ) → next_of n ≢ n
unfolding next_of
next_of-ne n e = omega arith

pub awaiting_current :
    (h : Handshake) (sent : HandshakeInitSentState)
    → h.state ≡ init_sent sent
    → awaiting h sent.local_index ≡ some (sent, false)
unfolding awaiting awaits
awaiting_current h sent e =
    let mine : (sent.local_index == sent.local_index) ≡ true = ground arith in
    rw (e, awaiting, mine) refl

pub awaiting_previous :
    (h : Handshake) (sent newer : HandshakeInitSentState)
    → h.state ≡ init_sent newer
    → h.previous ≡ init_sent sent
    → newer.local_index ≢ sent.local_index
    → awaiting h sent.local_index ≡ some (sent, true)
unfolding awaiting awaits
awaiting_previous h sent newer e p ne =
    let mine : (sent.local_index == sent.local_index) ≡ true = ground arith in
    let other : (newer.local_index == sent.local_index) ≡ false = ground arith in
    rw (e, awaiting, other, p, mine) refl

module _ {aead : Aead} (suite : Suite aead) where
  -- An initiation that is under way stays so over one more.
  pub awaiting-format :
      (h : Handshake) (env : Env) (dst_len : ℕ) (sent : HandshakeInitSentState)
      → h.state ≡ init_sent sent
      → sent.local_index ≡ h.next_index
      → (flag : Bool) × (awaiting
            (format_handshake_initiation aead suite h env dst_len).0
            sent.local_index
          ≡ some (sent, flag))
  unfolding format_handshake_initiation
  awaiting-format h env dst_len sent under index =
      elim (Bool-cases (ltb dst_len handshake_init_sz)) [
        | inl short ↦ (false, rw short (awaiting_current h sent under))
        | inr fits ↦
            elim (Result-cases (initiation aead suite (inc_index h) env (next_of h.next_index))) [
              | inr (e, failed) ↦
                  (false, rw (fits, failed) (awaiting_current (inc_index h) sent under))
              | inl ((message, newer), made) ↦ (
                true,
                rw (fits, made)
                    (awaiting_previous
                      (record (inc_index h) { previous = h.state; state = init_sent newer }) sent
                      newer refl under
                      (λ e. next_of-ne h.next_index (
                        sym (initiation-local_index suite (inc_index h) env _ message newer made)
                        ∙ e
                        ∙ index))),
              )
            ]
      ]
