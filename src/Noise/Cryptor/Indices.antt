-- ===== src/Noise/Cryptor/Indices.antt =====
-- The session indices of the peers of one node.
use fluxpeer.Prelude.{ℕ, ◌+◌, ◌*◌, ◌/◌, ◌%◌, ◌^◌, ◌<◌, ◌≡◌, ◌≢◌, refl, ◌∙◌, List, Option, arith}
use fluxpeer.Noise.Session.{Aead}
use fluxpeer.Noise.Tai64.{TimeStamper}
use fluxpeer.Noise.Crypto.{Suite}
use fluxpeer.Noise.Handshake.{Env, Handshake}
use fluxpeer.Noise.Handshake
use fluxpeer.Noise.Handshake.Replays.{Reach}
use fluxpeer.Noise.Handshake.Indices.{Reach-index_after}
use fluxpeer.Noise.Tunnel
use fluxpeer.Noise.Cryptor.{next_session_base, new_noise}

-- Two counts of `PEER_INDEX` give the same upper 24 bits exactly where they agree in their last 16
-- bits.
upper_of : ℕ → ℕ
unfolding next_session_base
upper_of n = (next_session_base n).1 * 2 ^ 8 % 2 ^ 32 / 256

upper_of_lem : (n : ℕ) → upper_of n ≡ n % 2 ^ 16 * 256
unfolding upper_of next_session_base
upper_of_lem n = omega arith

module _ {aead : Aead} (suite : Suite aead) where
  -- The handshake of the peer for which the counter stood at `n`.
  abbrev pub peer_at : ℕ → List ℕ → List ℕ → Option (List ℕ) → TimeStamper → Env → Handshake
  peer_at n own peer psk stamper env =
      (new_noise aead suite own peer psk (next_session_base n).1 stamper env).handshake.handshake

  peer_at-upper :
      (n : ℕ) (own peer : List ℕ) (psk : Option (List ℕ)) (stamper : TimeStamper) (env : Env)
      → (peer_at n own peer psk stamper env).next_index / 256 ≡ upper_of n
  unfolding new_noise Tunnel.new Handshake.new upper_of
  peer_at-upper n own peer psk stamper env = refl

  -- Peers for which the counter stood fewer than 2^16 apart never have an index in common, whatever
  -- calls their handshakes take. After 2^16 more peers the index of the first comes again: the
  -- counter is shifted by eight bits twice, so that of the peer's 24 bits eight are lost.
  pub peers_apart :
      (i j : ℕ) (own peer peer' : List ℕ) (psk psk' : Option (List ℕ))
      (stamper stamper' : TimeStamper) (env env' : Env) (h k : Handshake)
      → i < j
      → j < i + 2 ^ 16
      → Reach suite (peer_at i own peer psk stamper env) h
      → Reach suite (peer_at j own peer' psk' stamper' env') k
      → (h.next_index ≢ k.next_index)
        × ((peer_at (i + 2 ^ 16) own peer' psk' stamper' env').next_index
            ≡ (peer_at i own peer psk stamper env).next_index)
  unfolding next_session_base new_noise Tunnel.new Handshake.new
  peers_apart i j own peer peer' psk psk' stamper stamper' env env' h k lt near r r' =
      let (_, _, up) = Reach-index_after suite r in
      let (_, _, up') = Reach-index_after suite r' in
      let here = up ∙ peer_at-upper i own peer psk stamper env ∙ upper_of_lem i in
      let there = up' ∙ peer_at-upper j own peer' psk' stamper' env' ∙ upper_of_lem j in
      (λ e. omega (arith, here, there, e), omega arith)
