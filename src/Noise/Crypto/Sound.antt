-- ===== src/Noise/Crypto/Sound.antt =====
-- What the handshake relies on of the functions that it is given.
use fluxpeer.Prelude.{
  ℕ, ◌+◌, ◌≤◌, ◌≡◌, refl, ◌∙◌, List, some, ok, arith, length, ◌==◌, true, if_pos, if_neg, err, ◌≢◌,
  list_dec, ℕ_discrete,
}
use fluxpeer.Noise.{Error}
use fluxpeer.Noise.Session.{Aead, nonce_of, aead_size}
use fluxpeer.Noise.Crypto.{
  Suite, b2s_hmac, b2s_hmac2, verify_slices_are_equal, aead_chacha20_seal, aead_chacha20_open,
}

-- The sizes of what the functions give, the symmetry of Diffie-Hellman, that each 32 bytes are a
-- key, and that what is sealed under it opens under the same nonce and associated data.
pub record IsSound {aead : Aead} (suite : Suite aead) : Type 0 where
  pub hmac_length : (k d : List ℕ) → length (suite.hmac_blake2s k d) ≡ 32
  pub mac_length : (k d : List ℕ) → length (suite.blake2s_mac k d) ≡ 16
  pub public_length : (a : List ℕ) → length (suite.public_key a) ≡ 32
  pub dh_comm :
      (a b : List ℕ)
      → suite.diffie_hellman a (suite.public_key b) ≡ suite.diffie_hellman b (suite.public_key a)
  pub keys : (k : List ℕ) → length k ≡ 32 → (key : aead.Key) × (suite.unbound_key k ≡ some key)
  pub seals :
      (key : aead.Key) (n aad m : List ℕ)
      → length m ≤ 32
      → (c : List ℕ) × (suite.seal_in_place key n aad m ≡ some c)
        × (length c ≡ length m + aead_size)
        × (suite.open_in_place key n aad c ≡ some m)

pub verify_eq : (a b : List ℕ) (e : Error) → a ≡ b → verify_slices_are_equal a b e ≡ ok tt
unfolding verify_slices_are_equal
verify_eq a b e p = if_pos (list_dec ℕ_discrete a b) p _ _

pub verify_ne : (a b : List ℕ) (e : Error) → a ≢ b → verify_slices_are_equal a b e ≡ err e
unfolding verify_slices_are_equal
verify_ne a b e p = if_neg (list_dec ℕ_discrete a b) p _ _

pub verify_same : (a : List ℕ) (e : Error) → verify_slices_are_equal a a e ≡ ok tt
verify_same a e = verify_eq a a e refl

module _ {aead : Aead} (suite : Suite aead) (sound : IsSound suite) where
  pub length-b2s_hmac : (k d : List ℕ) → length (b2s_hmac aead suite k d) ≡ 32
  unfolding b2s_hmac
  length-b2s_hmac k d = sound.hmac_length _ d

  pub length-b2s_hmac2 : (k d e : List ℕ) → length (b2s_hmac2 aead suite k d e) ≡ 32
  unfolding b2s_hmac2
  length-b2s_hmac2 k d e = sound.hmac_length _ _

  -- A short text is sealed under any key of 32 bytes, and opens again.
  pub open-seal :
      (out_len counter : ℕ) (k m aad : List ℕ)
      → length k ≡ 32
      → length m ≤ 32
      → length m + aead_size ≡ out_len
      → (c : List ℕ) × (aead_chacha20_seal aead suite out_len k counter m aad ≡ ok c)
        × (length c ≡ out_len)
        × (aead_chacha20_open aead suite (length m) k counter c aad ≡ ok m)
  unfolding aead_chacha20_seal aead_chacha20_open
  open-seal out_len counter k m aad hk short size =
      let (key, usable) = sound.keys k hk in
      let (c, s, len, o) = sound.seals key (nonce_of counter) aad m short in
      let fits : (length m + aead_size == out_len) ≡ true = ground arith in
      let whole : (length m == length m) ≡ true = ground arith in
      (c, rw (usable, fits, s) refl, len ∙ size, rw (usable, o, whole) refl)
