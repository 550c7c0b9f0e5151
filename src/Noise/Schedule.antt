-- ===== src/Noise/Schedule.antt =====
-- engine/crypto/fp-crypto-noise/src/handshake.rs: the key schedule, the steps of which the two
-- sides take alike.
use fluxpeer.Prelude.{ℕ, List, [], ◌∷◌, Option, none, some, replicate}
use fluxpeer.Noise.Session.{Aead}
use fluxpeer.Noise.Crypto.{Suite, b2s_hash, b2s_hmac, b2s_hmac2}

abbrev pub initial_chain_key : List ℕ
initial_chain_key =
    96 ∷ 226 ∷ 109 ∷ 174 ∷ 243 ∷ 39 ∷ 239 ∷ 192 ∷ 46 ∷ 195 ∷ 53 ∷ 226 ∷ 160 ∷ 37 ∷ 210 ∷ 208 ∷ 22
    ∷ 235 ∷ 66 ∷ 6 ∷ 248 ∷ 114 ∷ 119 ∷ 245 ∷ 45 ∷ 56 ∷ 209 ∷ 152 ∷ 139 ∷ 120 ∷ 205 ∷ 54 ∷ []

abbrev pub initial_chain_hash : List ℕ
initial_chain_hash =
    34 ∷ 17 ∷ 179 ∷ 97 ∷ 8 ∷ 26 ∷ 197 ∷ 102 ∷ 105 ∷ 18 ∷ 67 ∷ 219 ∷ 69 ∷ 138 ∷ 213 ∷ 50 ∷ 45 ∷ 156
    ∷ 108 ∷ 102 ∷ 34 ∷ 147 ∷ 232 ∷ 183 ∷ 14 ∷ 225 ∷ 156 ∷ 101 ∷ 186 ∷ 7 ∷ 158 ∷ 243 ∷ []

module _ (aead : Aead) (suite : Suite aead) where
  -- `chaining_key = HMAC(HMAC(chaining_key, data), 0x1)`.
  unfoldable pub mix : List ℕ → List ℕ → List ℕ
  mix chaining_key bytes = b2s_hmac aead suite (b2s_hmac aead suite chaining_key bytes) (1 ∷ [])

  -- The chaining key and the key: `HMAC(temp, chaining_key || 0x2)`.
  unfoldable pub mix_key : List ℕ → List ℕ → List ℕ × List ℕ
  mix_key chaining_key bytes =
      let temp = b2s_hmac aead suite chaining_key bytes in
      let chaining_key' = b2s_hmac aead suite temp (1 ∷ []) in
      (chaining_key', b2s_hmac2 aead suite temp chaining_key' (2 ∷ []))

  -- The hash, the chaining key and the key after the ephemeral key of an initiation.
  unfoldable pub init_keys : List ℕ → List ℕ → List ℕ → List ℕ × List ℕ × List ℕ
  init_keys responder_public ephemeral_public ephemeral_shared =
      let hash = b2s_hash aead suite initial_chain_hash responder_public in
      let hash' = b2s_hash aead suite hash ephemeral_public in
      let chaining_key = mix initial_chain_key ephemeral_public in
      let (chaining_key', key) = mix_key chaining_key ephemeral_shared in
      (hash', chaining_key', key)

  -- The hash, the chaining key and the key of a response.
  unfoldable pub response_keys :
      List ℕ → List ℕ → List ℕ → List ℕ → List ℕ → Option (List ℕ) → List ℕ × List ℕ × List ℕ
  response_keys hash chaining_key ephemeral_public ephemeral_shared static_shared preshared_key =
      let hash' = b2s_hash aead suite hash ephemeral_public in
      let chaining_key' =
        mix (mix (mix chaining_key ephemeral_public) ephemeral_shared) static_shared in
      let psk = elim preshared_key as (λ _. List ℕ) [ none ↦ replicate 32 0 | some k ↦ k ] in
      let temp = b2s_hmac aead suite chaining_key' psk in
      let chaining_key'' = b2s_hmac aead suite temp (1 ∷ []) in
      let temp2 = b2s_hmac2 aead suite temp chaining_key'' (2 ∷ []) in
      (b2s_hash aead suite hash' temp2, chaining_key'', b2s_hmac2 aead suite temp temp2 (3 ∷ []))

  -- The initiator's sending and receiving keys.
  unfoldable pub session_keys : List ℕ → List ℕ × List ℕ
  session_keys chaining_key =
      let temp1 = b2s_hmac aead suite chaining_key [] in
      let temp2 = b2s_hmac aead suite temp1 (1 ∷ []) in
      (temp2, b2s_hmac2 aead suite temp1 temp2 (2 ∷ []))
