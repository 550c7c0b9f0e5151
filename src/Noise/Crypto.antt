-- ===== src/Noise/Crypto.antt =====
-- engine/crypto/fp-crypto-noise/src/handshake.rs: the cryptographic calls of the handshake. The
-- functions of the crates blake2, hmac, x25519-dalek and ring are parameters; bytes are numbers.
pub mod Sound
use fluxpeer.Prelude.{
  ℕ, ◌+◌, List, [], ◌∷◌, ◌++◌, Option, none, some, ◌==◌, if◌then◌else◌, length, replicate, not,
  Result, ok, err, ◌>>=◌, ok_or, list_dec, ℕ_discrete, ite,
}
use fluxpeer.Prelude.Text.{codes}
use fluxpeer.Noise.{Error, wrong_key, invalid_aead_tag, destination_buffer_too_small}
use fluxpeer.Noise.Session.{Aead, nonce_of, aead_size}

pub record Suite (aead : Aead) : Type 0 where
  pub blake2s : List ℕ → List ℕ
  -- The key is a block of 64 bytes.
  pub hmac_blake2s : List ℕ → List ℕ → List ℕ
  pub blake2s_mac : List ℕ → List ℕ → List ℕ
  pub public_key : List ℕ → List ℕ
  pub diffie_hellman : List ℕ → List ℕ → List ℕ
  -- `UnboundKey::new`.
  pub unbound_key : List ℕ → Option aead.Key
  -- With a key, a nonce, the associated data and the text; the tag follows the ciphertext.
  pub seal_in_place : aead.Key → List ℕ → List ℕ → List ℕ → Option (List ℕ)
  pub open_in_place : aead.Key → List ℕ → List ℕ → List ℕ → Option (List ℕ)

abbrev pub key_len : ℕ
key_len = 32

abbrev pub label_mac1 : List ℕ
label_mac1 = codes "mac1----"

-- `verify_slices_are_equal`, with the error that it is mapped to.
unfoldable pub verify_slices_are_equal : List ℕ → List ℕ → Error → Result (Unit {0}) Error
verify_slices_are_equal a b e = ite (list_dec ℕ_discrete a b) (ok tt) (err e)

module _ (aead : Aead) (suite : Suite aead) where
  unfoldable pub b2s_hash : List ℕ → List ℕ → List ℕ
  b2s_hash data1 data2 = suite.blake2s (data1 ++ data2)

  -- The key is padded with zeros.
  unfoldable pub b2s_hmac : List ℕ → List ℕ → List ℕ
  b2s_hmac key data1 = suite.hmac_blake2s (key ++ replicate 32 0) data1

  unfoldable pub b2s_hmac2 : List ℕ → List ℕ → List ℕ → List ℕ
  b2s_hmac2 key data1 data2 = suite.hmac_blake2s (key ++ replicate 32 0) (data1 ++ data2)

  unfoldable pub b2s_keyed_mac_16 : List ℕ → List ℕ → List ℕ
  b2s_keyed_mac_16 key data1 = suite.blake2s_mac key data1

  -- What is written into a destination of `out_len` bytes.
  unfoldable pub aead_chacha20_seal : ℕ → List ℕ → ℕ → List ℕ → List ℕ → Result (List ℕ) Error
  aead_chacha20_seal out_len key counter plain aad = do
    k ← ok_or (suite.unbound_key key) wrong_key
    if not (length plain + aead_size == out_len)
        then err destination_buffer_too_small
        else ok_or (suite.seal_in_place k (nonce_of counter) aad plain) invalid_aead_tag

  -- `copy_from_slice`, into a buffer of `out_len` bytes.
  abbrev exactly : ℕ → List ℕ → Option (List ℕ)
  exactly out_len plain = if not (length plain == out_len) then none else some plain

  -- Any failure is an invalid tag.
  unfoldable pub aead_chacha20_open : ℕ → List ℕ → ℕ → List ℕ → List ℕ → Result (List ℕ) Error
  aead_chacha20_open out_len key counter sealed aad = do
    k ← ok_or (suite.unbound_key key) invalid_aead_tag
    plain ← ok_or (suite.open_in_place k (nonce_of counter) aad sealed) invalid_aead_tag
    ok_or (exactly out_len plain) invalid_aead_tag
