-- ===== src/Control/Pop/Possession.antt =====
-- A client that has the private half of its key passes: what the SDK sends is what the server asks
-- for.
use fluxpeer.Prelude.{
  ℕ, ◌+◌, ◌*◌, ◌<◌, ◌≡◌, inl, inr, refl, sym, ap, ◌∙◌, true, List, some, All, arith, ◌==◌, length,
  Option-cases, ◌≟◌, if_pos, list_eq, nat_eq,
}
use mathlib.Core.Path.{subst}
use fluxpeer.Prelude.Text.{Text}
use fluxpeer.Prelude.Maps.{Map, lookup, lookup-insert}
use fluxpeer.Control.Key.{KeyCodec, exactly_32, decode}
use fluxpeer.Sdk.Enroll.{wg_public_key, proof_of}
use fluxpeer.Control.Pop.{
  Curve, challenge_ttl, Pending, prune, random_hex, Challenge, new_challenge, verify, decode_key,
}
use fluxpeer.Control.Pop.Pruned.{lookup-prune_alive}
use fluxpeer.Control.Pop.Challenges.{new_challenge_cases, Call, run, IsElsewhere, run-kept}
use fluxpeer.Control.Pop.Verdict.{IsProof, verify_pruned}

-- Two digits for each byte, which read back.
pub record IsHex (codec : KeyCodec) : Type 0 where
  pub hex-length : (bytes : List ℕ) → length (codec.hex_encode bytes) ≡ 2 * length bytes
  pub hex-back : (bytes : List ℕ) → codec.hex_decode (codec.hex_encode bytes) ≡ some bytes

-- Keys and secrets are of 32 bytes, and both sides compute one secret.
pub record IsCurve (curve : Curve) : Type 0 where
  pub public-length : (a : List ℕ) → length (curve.public a) ≡ 32
  pub shared-length : (a b : List ℕ) → length (curve.diffie_hellman a b) ≡ 32
  pub agrees :
      (a b : List ℕ)
      → curve.diffie_hellman a (curve.public b) ≡ curve.diffie_hellman b (curve.public a)

module _ (codec : KeyCodec) (curve : Curve) (hex : IsHex codec) (laws : IsCurve curve) where
  decode_key-hex :
      (bytes : List ℕ) → length bytes ≡ 32 → decode_key codec (codec.hex_encode bytes) ≡ some bytes
  unfolding decode_key exactly_32
  decode_key-hex bytes len =
      let b : (length bytes == 32) ≡ true = ground arith in
      rw (hex.hex-back bytes, exactly_32, b) refl

  decode-hex :
      (bytes : List ℕ) → length bytes ≡ 32 → decode codec (codec.hex_encode bytes) ≡ some bytes
  unfolding decode exactly_32
  decode-hex bytes len =
      let b : (length bytes == 32) ≡ true = ground arith in
      let c : (length (codec.hex_encode bytes) == 64) ≡ true =
        ground (arith, hex.hex-length bytes) in
      rw (c, hex.hex-back bytes, exactly_32, b) refl

  wg_public_key-cases :
      (priv claimed : Text)
      → wg_public_key codec curve priv ≡ some claimed
      → (sk : List ℕ) × (decode_key codec priv ≡ some sk)
        × (claimed ≡ codec.hex_encode (curve.public sk))
  unfolding wg_public_key
  wg_public_key-cases priv claimed h = elim (Option-cases (decode_key codec priv)) [
    | inl e ↦ cc (simp (e, wg_public_key) at h)
    | inr (sk, e) ↦ (sk, e, cc (simp (e, wg_public_key) at h))
  ]

  proof_of-hex :
      (priv : Text) (sk key : List ℕ)
      → decode_key codec priv ≡ some sk
      → length key ≡ 32
      → proof_of codec curve priv (codec.hex_encode key)
        ≡ some (codec.hex_encode (curve.diffie_hellman sk key))
  unfolding proof_of
  proof_of-hex priv sk key e len = simp (e, proof_of, decode_key-hex key len) refl

  -- The proof that is computed of a challenge is taken.
  abbrev pub Takes : Map Text Pending → ℕ → Text → Text → Challenge → Type 0
  Takes m later priv claimed c =
      (proof : Text) × (proof_of codec curve priv c.server_pub ≡ some proof)
      × ((verify codec curve m later c.challenge_id claimed proof).1 ≡ true)

  -- The answer that the SDK computes is taken, in a table where the challenge stands.
  proof_of-verify :
      (m : Map Text Pending) (later : ℕ) (id priv : Text) (ephemeral sk : List ℕ) (expires : ℕ)
      → decode_key codec priv ≡ some sk
      → lookup id m
        ≡ some (record { ephemeral = ephemeral; claimed_pub = curve.public sk; expires = expires })
      → later < expires
      → curve.was_contributory (curve.diffie_hellman ephemeral (curve.public sk)) ≡ true
      → Takes m later priv
          (codec.hex_encode (curve.public sk))
          (record { challenge_id = id; server_pub = codec.hex_encode (curve.public ephemeral) })
  proof_of-verify m later id priv ephemeral sk expires e found early whole =
      let entry : Pending = record {
        ephemeral = ephemeral;
        claimed_pub = curve.public sk;
        expires = expires;
      } in
      let secret = curve.diffie_hellman sk (curve.public ephemeral) in
      let is_proof : IsProof codec curve entry (codec.hex_encode (curve.public sk))
          (codec.hex_encode secret) =
        record {
          is_claimed = decode-hex (curve.public sk) (laws.public-length sk);
          is_shared =
              decode_key-hex secret (laws.shared-length sk (curve.public ephemeral))
              ∙ ap some (laws.agrees sk ephemeral);
          is_contributory = whole;
        } in
      (
        codec.hex_encode secret,
        proof_of-hex priv sk (curve.public ephemeral) e (laws.public-length ephemeral),
        (verify_pruned codec curve m later id (codec.hex_encode (curve.public sk))
              (codec.hex_encode secret)).1
            (entry, lookup-prune_alive id entry m later found early, early, is_proof),
      )

  -- A client that asks for a challenge with its public key, and is given one, proves that it has
  -- the private half: the proof that it computes of the challenge is taken before the challenge
  -- expires, whatever other calls come between.
  pub proof_of-IsTaken :
      (m : Map Text Pending) (ephemeral buf : List ℕ) (now later : ℕ) (priv claimed : Text)
      (c : Challenge) (cs : List Call)
      → wg_public_key codec curve priv ≡ some claimed
      → (new_challenge codec curve m ephemeral buf now claimed).1 ≡ some c
      → All (IsElsewhere c.challenge_id (now + challenge_ttl)) cs
      → later < now + challenge_ttl
      → (proof : Text) × (proof_of codec curve priv c.server_pub ≡ some proof)
        × ((verify codec curve
              (run codec curve cs (new_challenge codec curve m ephemeral buf now claimed).0)
              later
              c.challenge_id
              claimed
              proof).1
            ≡ true)
  proof_of-IsTaken m ephemeral buf now later priv claimed c cs own given others early =
      let (sk, read, claimed_eq) = wg_public_key-cases priv claimed own in
      elim (new_challenge_cases codec curve m ephemeral buf now claimed) [
        | inl (inl e) ↦ cc (given, ap (λ z. z.1) e)
        | inl (inr e) ↦ cc (given, ap (λ z. z.1) e)
        | inr (key, decoded, whole, _, e) ↦
            let same : key ≡ curve.public sk = cc (
              decoded,
              ap (decode codec) claimed_eq,
              decode-hex (curve.public sk) (laws.public-length sk),
            ) in
            let entry : Pending = record {
              ephemeral = ephemeral;
              claimed_pub = curve.public sk;
              expires = now + challenge_ttl;
            } in
            let minted : Challenge = record {
              challenge_id = random_hex buf;
              server_pub = codec.hex_encode (curve.public ephemeral);
            } in
            let c_eq : minted ≡ c = cc (given, ap (λ z. z.1) e) in
            let id = random_hex buf in
            let after = (new_challenge codec curve m ephemeral buf now claimed).0 in
            let found : lookup id after ≡ some entry =
              ap (λ z. lookup id z.0) e
              ∙ lookup-insert id id _ (prune m now)
              ∙ if_pos (id ≟ id) refl (some _) (lookup id (prune m now))
              ∙ ap (λ k. some (record entry { claimed_pub = k })) same in
            let elsewhere : All (IsElsewhere id (now + challenge_ttl)) cs =
              subst (λ z. All (IsElsewhere z (now + challenge_ttl)) cs)
                (sym (ap (λ z. z.challenge_id) c_eq)) others in
            let contributes =
              subst (λ k. curve.was_contributory (curve.diffie_hellman ephemeral k) ≡ true) same
                whole in
            let taken =
              proof_of-verify (run codec curve cs after) later id priv ephemeral sk
                (now + challenge_ttl) read (run-kept codec curve cs after id entry found elsewhere)
                early contributes in
            subst (Takes (run codec curve cs after) later priv claimed) c_eq (
              subst (λ k. Takes (run codec curve cs after) later priv k minted) (sym claimed_eq)
                taken)
      ]
