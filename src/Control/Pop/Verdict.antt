-- ===== src/Control/Pop/Verdict.antt =====
-- Which answers to a challenge are taken.
use fluxpeer.Prelude.{
  ℕ, ◌<◌, ◌≡◌, ◌≢◌, ◌↔◌, inl, inr, refl, sym, ap, ◌∙◌, true, false, List, [], Option, none, some,
  All, arith, leb, Bool-cases, Option-cases, ℕ_discrete, ◌≟◌, if_pos, if_neg, list_eq, nat_eq,
}
use mathlib.Core.Path.{subst}
use fluxpeer.Prelude.Text.{Text}
use fluxpeer.Prelude.Maps.{Map, lookup, remove, lookup-remove}
use fluxpeer.Control.Key.{KeyCodec, decode}
use fluxpeer.Control.Pop.{
  Curve, Pending, prune, verify, decode_key, is_proof, is_proof_text, check_proof,
}
use fluxpeer.Control.Pop.Compare.{ct_eq_lem}
use fluxpeer.Control.Pop.Unique.{lookup-prune, run-IsUnique}
use fluxpeer.Control.Pop.Pruned.{lookup-prune_alive, lookup-prune-none, prune-expires}
use fluxpeer.Control.Pop.Challenges.{Call, run, IsNotMinting, run-gone}

option_dec : Discrete (Option (List ℕ))
option_dec = hlevel ℕ_discrete

module _ (codec : KeyCodec) (curve : Curve) where
  -- The proof is the secret that the ephemeral key shares with the claimed one.
  pub record IsProof (p : Pending) (claimed proof : Text) : Type 0 where
    pub is_claimed : decode codec claimed ≡ some p.claimed_pub
    pub is_shared : decode_key codec proof ≡ some (curve.diffie_hellman p.ephemeral p.claimed_pub)
    pub is_contributory :
        curve.was_contributory (curve.diffie_hellman p.ephemeral p.claimed_pub) ≡ true

  is_proof_lem :
      (p : Pending) (proof : List ℕ)
      → (is_proof codec curve p proof ≡ true) ↔ (
          (curve.was_contributory (curve.diffie_hellman p.ephemeral p.claimed_pub) ≡ true)
          × (curve.diffie_hellman p.ephemeral p.claimed_pub ≡ proof))
  unfolding is_proof
  is_proof_lem p proof =
      let expected = curve.diffie_hellman p.ephemeral p.claimed_pub in
      let same = ct_eq_lem expected proof in
      elim (Bool-cases (curve.was_contributory expected)) [
        | inl e ↦ rw e (λ h. (refl, same.0 h), λ h. same.1 h.1)
        | inr e ↦ rw e (λ h. cc, λ h. cc (h.0))
      ]

  is_proof_text_lem :
      (p : Pending) (proof : Text)
      → (is_proof_text codec curve p proof ≡ true) ↔ (
          (curve.was_contributory (curve.diffie_hellman p.ephemeral p.claimed_pub) ≡ true)
          × (decode_key codec proof ≡ some (curve.diffie_hellman p.ephemeral p.claimed_pub)))
  unfolding is_proof_text
  is_proof_text_lem p proof = elim (Option-cases (decode_key codec proof)) [
    | inl e ↦ (λ h. cc (simp (e, is_proof_text) at h), λ h. cc (h.1, e))
    | inr (bytes, e) ↦
        let given : is_proof_text codec curve p proof ≡ is_proof codec curve p bytes =
          simp (e, is_proof_text) refl in
        let same = is_proof_lem p bytes in
        (
          λ h. let r = same.0 (sym given ∙ h) in (r.0, e ∙ ap some (sym r.1)),
          λ h. given ∙ same.1 (h.0, cc (h.1, e)),
        )
  ]

  check_proof-claimed :
      (p : Pending) (claimed proof : Text)
      → decode codec claimed ≡ some p.claimed_pub
      → check_proof codec curve p claimed proof ≡ is_proof_text codec curve p proof
  unfolding check_proof
  check_proof-claimed p claimed proof e =
      simp (e, check_proof)
        (if_pos (p.claimed_pub ≟ p.claimed_pub) refl (is_proof_text codec curve p proof) false)

  check_proof-other :
      (p : Pending) (claimed proof : Text)
      → decode codec claimed ≢ some p.claimed_pub
      → check_proof codec curve p claimed proof ≡ false
  unfolding check_proof
  check_proof-other p claimed proof differ = elim (Option-cases (decode codec claimed)) [
    | inl e ↦ simp (e, check_proof) refl
    | inr (key, e) ↦
        simp (e, check_proof)
          (if_neg (key ≟ p.claimed_pub) (λ same. differ (e ∙ ap some same))
            (is_proof_text codec curve p proof) false)
  ]

  check_proof_lem :
      (p : Pending) (claimed proof : Text)
      → (check_proof codec curve p claimed proof ≡ true) ↔ IsProof p claimed proof
  check_proof_lem p claimed proof =
      let text = is_proof_text_lem p proof in
      (
        λ h. elim (option_dec (decode codec claimed) (some p.claimed_pub)) [
          | no other ↦ cc (check_proof-other p claimed proof other, h)
          | yes same ↦
              let r = text.0 (sym (check_proof-claimed p claimed proof same) ∙ h) in
              record { is_claimed = same; is_shared = r.1; is_contributory = r.0 }
        ],
        λ h.
            check_proof-claimed p claimed proof h.is_claimed
            ∙ text.1 (h.is_contributory, h.is_shared),
      )

  -- By what is left of the table when it was pruned.
  pub verify_pruned :
      (m : Map Text Pending) (now : ℕ) (id claimed proof : Text)
      → ((verify codec curve m now id claimed proof).1 ≡ true) ↔ (
          (p : Pending) × (lookup id (prune m now) ≡ some p)
          × (now < p.expires)
          × IsProof p claimed proof)
  unfolding verify
  verify_pruned m now id claimed proof = elim (Option-cases (lookup id (prune m now))) [
    | inl e ↦ (λ h. cc (simp (e, verify) at h), λ h. cc (h.1, e))
    | inr (p, e) ↦
        let alive = prune-expires id p m now e in
        let late : leb p.expires now ≡ false = ground arith in
        let given : (verify codec curve m now id claimed proof).1
            ≡ check_proof codec curve p claimed proof =
          simp (e, verify, late) refl in
        let checked = check_proof_lem p claimed proof in
        (
          λ h. (p, e, alive, checked.0 (sym given ∙ h)),
          λ h.
              let same : h.0 ≡ p = cc (h.1, e) in
              given ∙ checked.1 (subst (λ z. IsProof z claimed proof) same h.3),
        )
  ]

  -- After any calls, an answer is taken exactly where its challenge is pending and has not expired,
  -- the key is the one that was claimed, and the proof is the secret that the ephemeral key shares
  -- with it.
  pub verify_lem :
      (cs : List Call) (now : ℕ) (id claimed proof : Text)
      → let m = run codec curve cs [] in
        ((verify codec curve m now id claimed proof).1 ≡ true)
        ↔ ((p : Pending) × (lookup id m ≡ some p) × (now < p.expires) × IsProof p claimed proof)
  verify_lem cs now id claimed proof =
      let m = run codec curve cs [] in
      let pruned = verify_pruned m now id claimed proof in
      (
        λ h.
            let (p, e, alive, proves) = pruned.0 h in
            (p, lookup-prune id p m now (run-IsUnique codec curve cs [] tt) e, alive, proves),
        λ h. pruned.1 (h.0, lookup-prune_alive id h.0 m now h.1 h.2, h.2, h.3),
      )

  -- An answer uses its challenge up, whether it is taken or not: until a challenge of the same name
  -- is minted, no other answer to it is taken.
  pub verify_once :
      (m : Map Text Pending) (now later : ℕ) (id claimed proof claimed' proof' : Text)
      (cs : List Call)
      → All (IsNotMinting id) cs
      → (verify codec curve
          (run codec curve cs (verify codec curve m now id claimed proof).0)
          later
          id
          claimed'
          proof').1
        ≡ false
  unfolding verify
  verify_once m now later id claimed proof claimed' proof' cs h =
      let gone : lookup id (remove id (prune m now)) ≡ none =
        lookup-remove id id (prune m now) ∙ if_pos (id ≟ id) refl none (lookup id (prune m now)) in
      let left = run codec curve cs (remove id (prune m now)) in
      let none_ =
        lookup-prune-none id left later
          (run-gone codec curve cs (remove id (prune m now)) id gone h) in
      simp (none_, verify) refl
