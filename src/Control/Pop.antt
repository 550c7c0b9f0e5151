-- ===== src/Control/Pop.antt =====
-- control-server/src/pop.rs: the challenges by which a client proves, before it enrols, that it has
-- the private half of its key. The map of the challenges is a state that each call is given; the
-- random bytes and the time are arguments.
pub mod Compare
pub mod Pruned
pub mod Challenges
pub mod Unique
pub mod Verdict
pub mod Possession
mod Tests
use Prim.Native.Nat.{bit_or, bit_xor}
use fluxpeer.Prelude.{
  ℕ, ◌+◌, ◌-◌, ◌*◌, ◌/◌, ◌%◌, Bool, true, false, not, ◌&&◌, List, [], ◌∷◌, Option, none, some, ltb,
  leb, ◌==◌, if◌then◌else◌, length, Eq, ◌≟◌, ite, list_eq, nat_eq,
}
use fluxpeer.Prelude.Text.{Text}
use fluxpeer.Prelude.Maps.{Map, lookup, insert, remove}
use fluxpeer.Control.Key.{KeyCodec, exactly_32, decode}

-- X25519, with what says that a shared secret is not all zeros.
pub record Curve : Type 0 where
  pub public : List ℕ → List ℕ
  pub diffie_hellman : List ℕ → List ℕ → List ℕ
  pub was_contributory : List ℕ → Bool

-- Instants are in nanoseconds.
abbrev pub challenge_ttl : ℕ
challenge_ttl = 60 * 1000000000

abbrev pub max_pending : ℕ
max_pending = 4096

pub record Pending : Type 0 where
  pub ephemeral : List ℕ
  pub claimed_pub : List ℕ
  pub expires : ℕ

unfoldable pub prune : Map Text Pending → ℕ → Map Text Pending
prune [] now = []
prune ((id, p) ∷ map) now =
    let rest = prune map now in if ltb now p.expires then (id, p) ∷ rest else rest

pub record Challenge : Type 0 where
  pub challenge_id : Text
  pub server_pub : Text

abbrev hex_digit : ℕ → ℕ
hex_digit n = if ltb n 10 then n + b'0' else n - 10 + b'a'

-- Two digits for each of the random bytes.
unfoldable pub random_hex : List ℕ → Text
random_hex [] = []
random_hex (b ∷ buf) = hex_digit (b / 16) ∷ hex_digit (b % 16) ∷ random_hex buf

module _ (codec : KeyCodec) (curve : Curve) where
  -- The insertion, once the table was pruned.
  unfoldable pub add_challenge :
      Map Text Pending → Text → List ℕ → List ℕ → ℕ → Map Text Pending × Option Challenge
  add_challenge map id ephemeral claimed now =
      if leb max_pending (length map) then (map, none) else (
        insert id
            (record { ephemeral = ephemeral; claimed_pub = claimed; expires = now + challenge_ttl })
            map,
        some (record { challenge_id = id; server_pub = codec.hex_encode (curve.public ephemeral) }),
      )

  -- `ephemeral` and `buf` are random, of 32 bytes and of 16.
  unfoldable pub new_challenge :
      Map Text Pending → List ℕ → List ℕ → ℕ → Text → Map Text Pending × Option Challenge
  new_challenge map ephemeral buf now claimed_pub_hex = elim (decode codec claimed_pub_hex) [
    | none ↦ (map, none)
    | some claimed ↦
        if not (curve.was_contributory (curve.diffie_hellman ephemeral claimed))
        then (map, none)
        else add_challenge (prune map now) (random_hex buf) ephemeral claimed now
  ]

unfoldable pub decode_key : KeyCodec → Text → Option (List ℕ)
decode_key codec hex = exactly_32 (codec.hex_decode hex)

-- The bits in which two texts of one length differ, over those of `diff`.
unfoldable pub differences : ℕ → List ℕ → List ℕ → ℕ
differences diff [] b = diff
differences diff (x ∷ a) [] = diff
differences diff (x ∷ a) (y ∷ b) = differences (bit_or diff (bit_xor x y)) a b

unfoldable pub ct_eq : List ℕ → List ℕ → Bool
ct_eq a b = if not (length a == length b) then false else differences 0 a b == 0

module _ (codec : KeyCodec) (curve : Curve) where
  -- What the client would have computed with the private half of the claimed key.
  unfoldable pub is_proof : Pending → List ℕ → Bool
  is_proof entry proof =
      let expected = curve.diffie_hellman entry.ephemeral entry.claimed_pub in
      curve.was_contributory expected && ct_eq expected proof

  unfoldable pub is_proof_text : Pending → Text → Bool
  is_proof_text entry proof_hex = elim (decode_key codec proof_hex) [
    | none ↦ false
    | some proof ↦ is_proof entry proof
  ]

  unfoldable pub check_proof : Pending → Text → Text → Bool
  check_proof entry claimed_pub_hex proof_hex = elim (decode codec claimed_pub_hex) [
    | none ↦ false
    | some claimed ↦ ite (claimed ≟ entry.claimed_pub) (is_proof_text entry proof_hex) false
  ]

  -- The challenge is taken out of the table whatever the answer is.
  unfoldable pub verify : Map Text Pending → ℕ → Text → Text → Text → Map Text Pending × Bool
  verify map now challenge_id claimed_pub_hex proof_hex =
      let pruned = prune map now in
      let answer : Bool = elim (lookup challenge_id pruned) [
        | none ↦ false
        | some entry ↦
            if leb entry.expires now then false else check_proof entry claimed_pub_hex proof_hex
      ] in
      (remove challenge_id pruned, answer)
