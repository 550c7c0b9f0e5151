-- ===== src/Control/Pop/Challenges.antt =====
-- The table of the challenges under any sequence of calls.
use fluxpeer.Prelude.{
  ℕ, ◌+◌, ◌≤◌, ◌<◌, ◌≡◌, ◌≢◌, ◌⊎◌, inl, inr, refl, sym, ap, ◌∙◌, true, List, [], ◌∷◌, none, some,
  All, arith, leb, length, Bool-cases, Option-cases, ◌≟◌, if_neg, list_eq, nat_eq,
}
use mathlib.Core.Path.{subst}
use fluxpeer.Prelude.Text.{Text}
use fluxpeer.Prelude.Maps.{Map, lookup, insert, lookup-remove}
use fluxpeer.Control.Key.{KeyCodec, decode}
use fluxpeer.Control.Pop.{
  Curve, challenge_ttl, max_pending, Pending, prune, random_hex, add_challenge, new_challenge,
  verify,
}
use fluxpeer.Control.Pop.Pruned.{
  length-insert-le, length-remove-le, length-prune-le, lookup-insert_other, lookup-prune_alive,
  lookup-prune-none,
}

-- A call of the server, with the random bytes and the time that it reads.
pub data Call : Type 0 where
  ask : (ephemeral buf : List ℕ) (now : ℕ) (claimed : Text) → Call
  answer : (now : ℕ) (id claimed proof : Text) → Call

-- A call before `limit` that is not about the challenge `id`.
abbrev pub IsElsewhere : Text → ℕ → Call → Type 0
IsElsewhere id limit (ask ephemeral buf now claimed) = (now < limit) × (random_hex buf ≢ id)
IsElsewhere id limit (answer now j claimed proof) = (now < limit) × (j ≢ id)

-- A call that mints no challenge of this name.
abbrev pub IsNotMinting : Text → Call → Type 0
IsNotMinting id (ask ephemeral buf now claimed) = random_hex buf ≢ id
IsNotMinting id (answer now j claimed proof) = Unit {0}

module _ (codec : KeyCodec) (curve : Curve) where
  unfoldable pub call : Call → Map Text Pending → Map Text Pending
  call (ask ephemeral buf now claimed) m = (new_challenge codec curve m ephemeral buf now claimed).0
  call (answer now id claimed proof) m = (verify codec curve m now id claimed proof).0

  unfoldable pub run : List Call → Map Text Pending → Map Text Pending
  run [] m = m
  run (c ∷ cs) m = run cs (call c m)

  -- A challenge that cannot be minted changes nothing but what expired; one that is minted is
  -- inserted below the limit.
  pub new_challenge_cases :
      (m : Map Text Pending) (ephemeral buf : List ℕ) (now : ℕ) (claimed : Text)
      → ((new_challenge codec curve m ephemeral buf now claimed ≡ (m, none))
          ⊎ (new_challenge codec curve m ephemeral buf now claimed ≡ (prune m now, none)))
        ⊎ ((key : List ℕ) × (decode codec claimed ≡ some key)
            × (curve.was_contributory (curve.diffie_hellman ephemeral key) ≡ true)
            × (length (prune m now) < max_pending)
            × (new_challenge codec curve m ephemeral buf now claimed ≡ (
              insert
                  (random_hex buf)
                  (record {
                    ephemeral = ephemeral;
                    claimed_pub = key;
                    expires = now + challenge_ttl;
                  })
                  (prune m now),
              some (record {
                challenge_id = random_hex buf;
                server_pub = codec.hex_encode (curve.public ephemeral);
              }),
            )))
  unfolding new_challenge add_challenge
  new_challenge_cases m ephemeral buf now claimed = elim (Option-cases (decode codec claimed)) [
    | inl e ↦ inl (inl (rw (e, new_challenge) refl))
    | inr (key, e) ↦
        elim (Bool-cases (curve.was_contributory (curve.diffie_hellman ephemeral key))) [
          | inr f ↦ inl (inl (rw (e, new_challenge, f) refl))
          | inl f ↦ elim (Bool-cases (leb max_pending (length (prune m now)))) [
            | inl g ↦ inl (inr (rw (e, new_challenge, f, g) refl))
            | inr g ↦ inr (key, e, f, ground arith, rw (e, new_challenge, f, g) refl)
          ]
        ]
  ]

  -- What holds of the table, pruned or with one more challenge where it was not full, holds after
  -- the call.
  pub call_ask :
      (P : Map Text Pending → Type 0) (m : Map Text Pending) (ephemeral buf : List ℕ) (now : ℕ)
      (claimed : Text)
      → P m
      → P (prune m now)
      → ((p : Pending)
          → length (prune m now) < max_pending
          → P (insert (random_hex buf) p (prune m now)))
      → P (call (ask ephemeral buf now claimed) m)
  unfolding call
  call_ask P m ephemeral buf now claimed same pruned more =
      elim (new_challenge_cases m ephemeral buf now claimed) [
        | inl (inl e) ↦ subst P (sym (ap (λ z. z.0) e)) same
        | inl (inr e) ↦ subst P (sym (ap (λ z. z.0) e)) pruned
        | inr (key, _, _, small, e) ↦ subst P (sym (ap (λ z. z.0) e)) (more _ small)
      ]

  call_bounded :
      (c : Call) (m : Map Text Pending) → length m ≤ max_pending → length (call c m) ≤ max_pending
  unfolding call verify
  call_bounded (answer now id claimed proof) m h =
      omega (arith, length-prune-le m now, length-remove-le id (prune m now))
  call_bounded (ask ephemeral buf now claimed) m h =
      let shorter = length-prune-le m now in
      call_ask (λ z. length z ≤ max_pending) m ephemeral buf now claimed h (omega (arith, shorter))
        (λ p small. omega (arith, length-insert-le (random_hex buf) p (prune m now)))

  -- Whatever calls come, no more than 4096 challenges are pending.
  pub run_bounded :
      (cs : List Call) (m : Map Text Pending)
      → length m ≤ max_pending
      → length (run cs m) ≤ max_pending
  unfolding run
  run_bounded [] m h = h
  run_bounded (c ∷ cs) m h = run_bounded cs (call c m) (call_bounded c m h)

  call-kept :
      (c : Call) (m : Map Text Pending) (id : Text) (p : Pending)
      → lookup id m ≡ some p
      → IsElsewhere id p.expires c
      → lookup id (call c m) ≡ some p
  unfolding call verify
  call-kept (answer now j claimed proof) m id p e h =
      lookup-remove j id (prune m now)
      ∙ if_neg (j ≟ id) h.1 none (lookup id (prune m now))
      ∙ lookup-prune_alive id p m now e h.0
  call-kept (ask ephemeral buf now claimed) m id p e h =
      let pruned = lookup-prune_alive id p m now e h.0 in
      call_ask (λ z. lookup id z ≡ some p) m ephemeral buf now claimed e pruned
        (λ q small. lookup-insert_other id (random_hex buf) q (prune m now) h.1 ∙ pruned)

  pub run-kept :
      (cs : List Call) (m : Map Text Pending) (id : Text) (p : Pending)
      → lookup id m ≡ some p
      → All (IsElsewhere id p.expires) cs
      → lookup id (run cs m) ≡ some p
  unfolding run
  run-kept [] m id p e h = e
  run-kept (c ∷ cs) m id p e h = run-kept cs (call c m) id p (call-kept c m id p e h.0) h.1

  call-gone :
      (c : Call) (m : Map Text Pending) (id : Text)
      → lookup id m ≡ none
      → IsNotMinting id c
      → lookup id (call c m) ≡ none
  unfolding call verify
  call-gone (answer now j claimed proof) m id e h =
      lookup-remove j id (prune m now) ∙ ground (arith, lookup-prune-none id m now e)
  call-gone (ask ephemeral buf now claimed) m id e h =
      let pruned = lookup-prune-none id m now e in
      call_ask (λ z. lookup id z ≡ none) m ephemeral buf now claimed e pruned
        (λ q small. lookup-insert_other id (random_hex buf) q (prune m now) h ∙ pruned)

  pub run-gone :
      (cs : List Call) (m : Map Text Pending) (id : Text)
      → lookup id m ≡ none
      → All (IsNotMinting id) cs
      → lookup id (run cs m) ≡ none
  unfolding run
  run-gone [] m id e h = e
  run-gone (c ∷ cs) m id e h = run-gone cs (call c m) id (call-gone c m id e h.0) h.1
