-- ===== src/Noise/Plain.antt =====
-- Functions in place of the ones that are parameters, which hide nothing: on them the theorems of
-- the handshake are tried.
use fluxpeer.Prelude.{
  ℕ, ◌+◌, ◌≡◌, refl, ap, List, [], ◌∷◌, ◌++◌, Option, none, some, arith, length, replicate, get_or,
  ◌==◌, if◌then◌else◌, length-append, length-replicate, take-append_of,
}
use fluxpeer.Noise.Session.{aead_size}
use fluxpeer.Noise.Tests.{plain, open_plain, zeros}
use fluxpeer.Noise.Tai64.{TimeStamper}
use fluxpeer.Noise.Crypto.{Suite}
use fluxpeer.Noise.Crypto.Sound.{IsSound}
use fluxpeer.Noise.Handshake.{Env}
use fluxpeer.Noise.Cryptor.Delivery.{IsReady}

abbrev tag : List ℕ
tag = replicate aead_size 0

unfoldable pub first_byte : List ℕ → ℕ
first_byte k = get_or k 0 0

unfoldable pub key_of : List ℕ → Option ℕ
key_of k = if length k == 32 then some (first_byte k) else none

abbrev pub plain_suite : Suite plain
plain_suite = record {
  blake2s = λ bytes. replicate 32 (length bytes);
  hmac_blake2s = λ key bytes. replicate 32 (length bytes);
  blake2s_mac = λ key bytes. replicate 16 (length bytes);
  public_key = λ a. replicate 32 (first_byte a);
  diffie_hellman = λ a p. replicate 32 (first_byte a + first_byte p);
  unbound_key = key_of;
  seal_in_place = λ k n aad m. some (m ++ tag);
  open_in_place = λ k n aad c. open_plain k n c;
}

opens : (k : ℕ) (n m : List ℕ) → open_plain k n (m ++ tag) ≡ some m
unfolding open_plain
opens k n m = ground (arith, length-append m tag, take-append_of (length m) m tag)

pub plain_suite-IsSound : IsSound plain_suite
unfolding first_byte key_of
plain_suite-IsSound = record {
  hmac_length = λ k d. length-replicate {A = ℕ} 32 (length d);
  mac_length = λ k d. length-replicate {A = ℕ} 16 (length d);
  public_length = λ a. length-replicate {A = ℕ} 32 (first_byte a);
  dh_comm = λ a b. ap (replicate 32) (omega arith);
  keys = λ k size. (first_byte k, ground arith);
  seals = λ key n aad m short. (m ++ tag, refl, length-append m tag, opens key n m);
}

pub zeros-IsReady : IsReady plain zeros
zeros-IsReady = record {
  word = (7, refl);
  padding = λ k. (replicate k 0, refl, length-replicate {A = ℕ} k 0);
  seals = λ key n p. (p ++ tag, refl, opens key n p, length-append p tag);
}

-- One second after the year 1970 began, on a clock that was started then.
abbrev pub stamper : TimeStamper
stamper = record { duration_at_start = some 0; instant_at_start = 0 }

abbrev pub outside : ℕ → Env
outside secret = record { secret = some (secret ∷ []); now = 1000000000; mac2 = replicate 16 0 }
