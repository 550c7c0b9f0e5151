-- ===== src/Node/Exit/Cleanup.antt =====
-- What is left after a cleanup, and what a full tunnel that came up has installed.
use fluxpeer.Prelude.{
  ◌≡◌, ◌≢◌, ◌⊎◌, inl, inr, refl, ap, sym, ◌∙◌, Bool, true, false, ◌&&◌, List, [], ◌∷◌, ◌++◌, Result,
  ok, All, arith, Bool-cases, Result-cases,
}
use mathlib.Core.List.{append_assoc, append-nil}
use fluxpeer.Prelude.Text.{Text}
use fluxpeer.Node.Apply.{ApplyError}
use fluxpeer.Node.Apply.Retries.{all_lem}
use fluxpeer.Node.Exit.{
  ExitEffect, default_del, default_add, bypass_add, Host, ExitProgress, is_empty, retain,
  cleanup_guard, cleanup_bypass, cleanup_exit_with, add_bypass, add_defaults, split_default,
  redirect, bring_up, exit_up_with,
}

All-left :
    (xs ys : List (Result (Unit {0}) ApplyError))
    → All (λ r. r ≡ ok tt) (xs ++ ys)
    → All (λ r. r ≡ ok tt) xs
All-left [] ys h = tt
All-left (x ∷ xs) ys h = (h.0, All-left xs ys h.1)

is_empty-false {ℓ} : {A : Type ℓ} → (xs : List A) → xs ≢ [] → is_empty xs ≡ false
unfolding is_empty
is_empty-false [] h = absurd (h refl)
is_empty-false (x ∷ xs) h = refl

still {ℓ κ} :
    {A : Type ℓ} {B : Type κ} {xs xs' : List A} {ys ys' : List B}
    → xs ≡ xs'
    → ys ≡ ys'
    → xs ≢ [] ⊎ ys ≢ []
    → xs' ≢ [] ⊎ ys' ≢ []
still e f (inl d) = inl (λ z. d (e ∙ z))
still e f (inr d) = inr (λ z. d (f ∙ z))

module _ (host : Host) where
  open host use {World, Command, effect, guard_up, guard_down}

  retain-ok :
      (del : Text → ExitEffect) (w : World) (ps : List Text)
      → All (λ r. r ≡ ok tt) (retain host del w ps).2
      → (retain host del w ps).1 ≡ []
  unfolding retain
  retain-ok del w [] h = refl
  retain-ok del w (p ∷ ps) h = elim (Result-cases (effect w (del p)).1) [
    | inl (b, e) ↦ rw (e, retain) (retain-ok del (effect w (del p)).0 ps (rw (e, retain) at h))
    | inr (x, e) ↦ cc ((rw (e, retain) at h).0)
  ]

  -- Each is taken away or stays.
  cleanup_guard-defaults :
      (w : World) (progress : ExitProgress host)
      → ((cleanup_guard host w progress).1.defaults ≡ progress.defaults)
        × ((cleanup_guard host w progress).1.bypass ≡ progress.bypass)
  unfolding cleanup_guard
  cleanup_guard-defaults w progress = elim (Bool-cases (is_empty progress.v6_cleanup)) [
    | inl e ↦ simp (e, cleanup_guard) (refl, refl)
    | inr e ↦ elim (Result-cases (guard_down w progress.v6_cleanup).2) [
      | inl (b, r) ↦ simp (e, cleanup_guard, r) (refl, refl)
      | inr (x, r) ↦ simp (e, cleanup_guard, r) (refl, refl)
    ]
  ]

  cleanup_bypass-kept :
      (w : World) (progress : ExitProgress host)
      → (((cleanup_bypass host w progress).1.defaults ≡ progress.defaults)
          × ((cleanup_bypass host w progress).1.v6_cleanup ≡ progress.v6_cleanup))
        × ((progress.defaults ≢ [] ⊎ progress.v6_cleanup ≢ [])
            → cleanup_bypass host w progress ≡ (w, progress, []))
  unfolding cleanup_bypass
  cleanup_bypass-kept w progress =
      elim (Bool-cases (is_empty progress.defaults && is_empty progress.v6_cleanup)) [
        | inl e ↦ (simp (e, cleanup_bypass) (refl, refl), λ left. absurd (some_left left e))
        | inr e ↦ (simp (e, cleanup_bypass) (refl, refl), λ left. simp (e, cleanup_bypass) refl)
      ]
    where
      some_left :
          (progress.defaults ≢ [] ⊎ progress.v6_cleanup ≢ [])
          → (is_empty progress.defaults && is_empty progress.v6_cleanup) ≡ true
          → ⊥
      some_left (inl d) e = let f = is_empty-false progress.defaults d in ground (arith, e, f)
      some_left (inr d) e = let f = is_empty-false progress.v6_cleanup d in ground (arith, e, f)

  add_defaults-ok :
      (w : World) (progress : ExitProgress host) (ps : List Text)
      → (add_defaults host w progress ps).2 ≡ ok tt
      → ((add_defaults host w progress ps).1.defaults ≡ progress.defaults ++ ps)
  unfolding add_defaults
  add_defaults-ok w progress [] h = sym (append-nil progress.defaults)
  add_defaults-ok w progress (p ∷ ps) h = elim (Result-cases (effect w (default_add p)).1) [
    | inl (b, e) ↦
        let q = record progress { defaults = progress.defaults ++ (p ∷ []) } in
        let rest =
          add_defaults-ok (effect w (default_add p)).0 q ps (simp (e, add_defaults) at h) in
        simp (e, add_defaults) (rest ∙ append_assoc progress.defaults (p ∷ []) ps)
    | inr (x, e) ↦ cc (simp (e, add_defaults) at h)
  ]

  add_bypass-defaults :
      (w : World) (progress : ExitProgress host) (bs : List Text)
      → (add_bypass host w progress bs).1.defaults ≡ progress.defaults
  unfolding add_bypass
  add_bypass-defaults w progress [] = refl
  add_bypass-defaults w progress (b ∷ bs) = elim (Result-cases (effect w (bypass_add b)).1) [
    | inl (true, e) ↦
        let q = record progress { bypass = progress.bypass ++ (b ∷ []) } in
        simp (e, add_bypass) (add_bypass-defaults (effect w (bypass_add b)).0 q bs)
    | inl (false, e) ↦
        simp (e, add_bypass) (add_bypass-defaults (effect w (bypass_add b)).0 progress bs)
    | inr (x, e) ↦ simp (e, add_bypass) refl
  ]

  pub cleanup_exit_with_lem :
      (w : World) (progress : ExitProgress host)
      → let cleaned = cleanup_exit_with host w progress in
        (cleaned.1.defaults ≢ [] ⊎ cleaned.1.v6_cleanup ≢ [] → cleaned.1.bypass ≡ progress.bypass)
        × (cleaned.2 ≡ ok tt → cleaned.1.defaults ≡ [])
  unfolding cleanup_exit_with
  cleanup_exit_with_lem w progress =
      let a = retain host default_del w progress.defaults in
      let p' = record progress { defaults = a.1 } in
      let b = cleanup_guard host a.0 p' in
      let guard = cleanup_guard-defaults a.0 p' in
      let kept = cleanup_bypass-kept b.0 b.1 in
      (
        λ left. ap (λ c. c.1.bypass) (kept.1 (still kept.0.0 kept.0.1 left)) ∙ guard.1,
        λ h.
            kept.0.0
            ∙ guard.0
            ∙ retain-ok default_del w progress.defaults (
                All-left a.2 (b.2 ++ (cleanup_bypass host b.0 b.1).2)
                  ((all_lem (a.2 ++ (b.2 ++ (cleanup_bypass host b.0 b.1).2))).0 h)),
      )

  redirect-ok :
      (w : World) (progress : ExitProgress host)
      → (redirect host w progress).2 ≡ ok tt
      → (redirect host w progress).1.defaults ≡ progress.defaults ++ split_default
  unfolding redirect
  redirect-ok w progress h = elim (Result-cases (guard_up w progress.v6_cleanup).2) [
    | inl (b, e) ↦
        let up = guard_up w progress.v6_cleanup in
        let q = record progress { v6_cleanup = up.1; v6_blocked = b } in
        simp (e, redirect) (add_defaults-ok up.0 q split_default (simp (e, redirect) at h))
    | inr (x, e) ↦ cc (simp (e, redirect) at h)
  ]

  bring_up-ok :
      (w : World) (progress : ExitProgress host) (bypass : List Text)
      → (bring_up host w progress bypass).2 ≡ ok tt
      → (bring_up host w progress bypass).1.defaults ≡ progress.defaults ++ split_default
  unfolding bring_up
  bring_up-ok w progress bypass h = elim (Result-cases (add_bypass host w progress bypass).2) [
    | inl (tt, e) ↦
        let added = add_bypass host w progress bypass in
        simp (e, bring_up)
          (redirect-ok added.0 added.1 (simp (e, bring_up) at h)
            ∙ ap (λ ds. ds ++ split_default) (add_bypass-defaults w progress bypass))
    | inr (x, e) ↦ cc (simp (e, bring_up) at h)
  ]

  -- A full tunnel that came up has the two redirects and no other, and answers whether IPv6 is held
  -- back.
  pub exit_up_with_lem :
      (w : World) (progress : ExitProgress host) (bypass : List Text) (blocked : Bool)
      → let up = exit_up_with host w progress bypass in
        up.2 ≡ ok blocked → (up.1.defaults ≡ split_default) × (up.1.v6_blocked ≡ blocked)
  unfolding exit_up_with
  exit_up_with_lem w progress bypass blocked h =
      let before = cleanup_exit_with host w progress in
      let up = bring_up host before.0 before.1 bypass in
      elim (Result-cases before.2) [
        | inr (x, e) ↦ cc (simp (e, exit_up_with) at h)
        | inl (tt, e) ↦ elim (Result-cases up.2) [
          | inr (x, f) ↦ cc (simp (e, f, exit_up_with) at h)
          | inl (tt, f) ↦
              simp (e, f, exit_up_with)
                (
                  bring_up-ok before.0 before.1 bypass f
                      ∙ ap (λ ds. ds ++ split_default) ((cleanup_exit_with_lem w progress).1 e),
                  cc (simp (e, f, exit_up_with) at h),
                )
        ]
      ]
