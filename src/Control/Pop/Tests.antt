-- ===== src/Control/Pop/Tests.antt =====
-- A client, the server, and another client, on a curve of numbers.
use native.Mathlib.Nat.{mul_comm}
use fluxpeer.Prelude.{
  ℕ, ◌+◌, ◌*◌, ◌≤◌, ◌<◌, ◌≡◌, ◌↔◌, refl, ap, true, false, not, List, [], ◌∷◌, Option, none, some,
  All, arith, ◌==◌, length, replicate, length-replicate, get_or, list_eq, nat_eq,
}
use fluxpeer.Prelude.Text.{Text}
use fluxpeer.Prelude.Maps.{Map, lookup}
use fluxpeer.Control.Key.{KeyCodec, exactly_32, decode}
use fluxpeer.Sdk.Enroll.{wg_public_key, proof_of}
use fluxpeer.Control.Pop.{
  Curve, challenge_ttl, max_pending, Pending, prune, random_hex, Challenge, add_challenge,
  new_challenge, verify, decode_key,
}
use fluxpeer.Control.Pop.Challenges.{Call, ask, answer, run, IsElsewhere, run_bounded}
use fluxpeer.Control.Pop.Verdict.{IsProof, verify_lem, verify_once}
use fluxpeer.Control.Pop.Possession.{IsHex, IsCurve, proof_of-IsTaken}

abbrev spread : List ℕ → Text
spread [] = []
spread (b ∷ bytes) = b ∷ 0 ∷ spread bytes

abbrev gather : Text → List ℕ
gather [] = []
gather (b ∷ []) = []
gather (b ∷ c ∷ t) = b ∷ gather t

abbrev spaced : KeyCodec
spaced = record {
  hex_decode = λ t. some (gather t);
  hex_encode = spread;
  base64_decode = λ t. none;
}

length-spread : (bytes : List ℕ) → length (spread bytes) ≡ 2 * length bytes
length-spread [] = refl
length-spread (b ∷ bytes) = omega (arith, length-spread bytes)

gather-spread : (bytes : List ℕ) → gather (spread bytes) ≡ bytes
gather-spread [] = refl
gather-spread (b ∷ bytes) = ap (λ t. b ∷ t) (gather-spread bytes)

spaced-IsHex : IsHex spaced
spaced-IsHex = record {
  hex-length = length-spread;
  hex-back = λ bytes. ap some (gather-spread bytes);
}

-- A key stands for its first number, and a secret for a product.
abbrev numbers : Curve
numbers = record {
  public = λ a. replicate 32 (get_or a 0 0);
  diffie_hellman = λ a b. replicate 32 (get_or a 0 0 * get_or b 0 0);
  was_contributory = λ s. not (get_or s 0 0 == 0);
}

numbers-IsCurve : IsCurve numbers
numbers-IsCurve = record {
  public-length = λ a. length-replicate 32 (get_or a 0 0);
  shared-length = λ a b. length-replicate 32 (get_or a 0 0 * get_or b 0 0);
  agrees = λ a b. ap (replicate 32) (mul_comm (get_or a 0 0) (get_or b 0 0));
}

abbrev priv : Text
priv = spread (replicate 32 3)

abbrev own : Text
own = spread (replicate 32 3)

abbrev asked : Map Text Pending × Option Challenge
asked = new_challenge spaced numbers [] (replicate 32 5) (171 ∷ []) 1000 own

abbrev others : List Call
others = ask (replicate 32 7) (172 ∷ []) 2000 own ∷ answer 3000 [] own own ∷ []

abbrev challenge : Challenge
challenge = record { challenge_id = random_hex (171 ∷ []); server_pub = spread (replicate 32 5) }

others-IsElsewhere : All (IsElsewhere (random_hex (171 ∷ [])) (1000 + challenge_ttl)) others
unfolding random_hex
others-IsElsewhere =
    ((omega arith, λ e. ground (arith, e)), ((omega arith, λ e. ground (arith, e)), tt))

proof_of-IsTaken_example :
    (proof : Text) × (proof_of spaced numbers priv challenge.server_pub ≡ some proof)
    × ((verify spaced numbers
          (run spaced numbers others asked.0)
          4000
          challenge.challenge_id
          own
          proof).1
        ≡ true)
unfolding wg_public_key new_challenge add_challenge decode decode_key exactly_32 prune
proof_of-IsTaken_example =
    proof_of-IsTaken spaced numbers spaced-IsHex numbers-IsCurve [] (replicate 32 5) (171 ∷ []) 1000
      4000 priv own challenge others refl refl others-IsElsewhere (omega arith)

run_bounded_example : length (run spaced numbers others []) ≤ max_pending
run_bounded_example = run_bounded spaced numbers others [] (omega arith)

verify_lem_example :
    let m = run spaced numbers others [] in
    ((verify spaced numbers m 4000 (random_hex (172 ∷ [])) own own).1 ≡ true) ↔ (
      (p : Pending) × (lookup (random_hex (172 ∷ [])) m ≡ some p)
      × (4000 < p.expires)
      × IsProof spaced numbers p own own)
verify_lem_example = verify_lem spaced numbers others 4000 (random_hex (172 ∷ [])) own own

verify_once_example :
    (verify spaced numbers
      (run spaced numbers others
        (verify spaced numbers asked.0 4000 challenge.challenge_id own own).0)
      5000
      challenge.challenge_id
      own
      own).1
    ≡ false
unfolding random_hex
verify_once_example =
    verify_once spaced numbers asked.0 4000 5000 challenge.challenge_id own own own own others
      ((λ e. ground (arith, e)), (tt, tt))
