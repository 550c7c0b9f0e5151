-- ===== src/Control/Store/Enrolment.antt =====
-- What `enroll` does on each of its branches, and that it can be called again.
use fluxpeer.Prelude.{
  ◌+◌, ◌%◌, ◌^◌, ◌≡◌, inl, inr, refl, sym, ap, ◌∙◌, Bool, true, false, [], ◌∷◌, none, some, arith,
  Bool-cases, Option-cases, Result-cases, Result, ok, err,
}
use mathlib.Core.Path.{subst}
use fluxpeer.Prelude.Maps.{Map, lookup, insert, lookup-insert}
use fluxpeer.Prelude.Text.{Text, text_eq}
use fluxpeer.Control.Domain.{ℤ, Device, Invite, is_active, is_expired, is_redeemable}
use fluxpeer.Control.Key.{KeyCodec, normalize}
use fluxpeer.Control.Ipam.{Ipam, Ipv4, Ipv6, allocate}
use fluxpeer.Control.Store.{
  StoreError, pool_exhausted, Watch, has_key, find_value, Store, bump_epoch, use_invite, new_device,
  register_device, enroll_new, redeem, enroll,
}

-- A value that passes the test is found once it is put into a map where none did.
find_value-insert :
    (test : Device → Bool) (k : Text) (d : Device) (m : Map Text Device)
    → find_value test m ≡ none
    → test d ≡ true
    → find_value test (insert k d m) ≡ some d
unfolding find_value insert
find_value-insert test k d [] e t = rw t refl
find_value-insert test k d ((j, x) ∷ m) e t = ground (arith, find_value-insert test k d m)

has_key_lem :
    (n key : Text) (d : Device)
    → d.network_id ≡ n
    → d.wg_public_key ≡ key
    → is_active d.status ≡ true
    → has_key n key d ≡ true
unfolding has_key
has_key_lem n key d p q r = ground arith

module _ (codec : KeyCodec) (watch : Watch) where
  pub bump_epoch-invites :
      (s : Store codec watch) (n : Text) → (bump_epoch codec watch s n).invites ≡ s.invites
  unfolding bump_epoch
  bump_epoch-invites s n = elim (Option-cases (lookup n s.networks)) [
    | inl e ↦ rw (e, bump_epoch) refl
    | inr (_, e) ↦ rw (e, bump_epoch) refl
  ]

  pub bump_epoch-devices :
      (s : Store codec watch) (n : Text) → (bump_epoch codec watch s n).devices ≡ s.devices
  unfolding bump_epoch
  bump_epoch-devices s n = elim (Option-cases (lookup n s.networks)) [
    | inl e ↦ rw (e, bump_epoch) refl
    | inr (_, e) ↦ rw (e, bump_epoch) refl
  ]

  -- The store, the key taken from it whether or not it had a place left.
  abbrev pub allocated : Store codec watch → Text → Ipam → Text → Store codec watch
  allocated s network_id ipam key = record s {
    ipams = insert network_id (allocate ipam key).0 s.ipams;
  }

  pub data Enrolment (s : Store codec watch) (code name key : Text) (now : ℤ)
      : Store codec watch × Result Device StoreError → Type 0 where
    refused : (e : StoreError) → Enrolment s code name key now (s, err e)
    exhausted :
        (n : Text) (ipam : Ipam)
        → Enrolment s code name key now (allocated s n ipam key, err pool_exhausted)
    known :
        (invite : Invite) (d : Device)
        → lookup code s.invites ≡ some invite
        → is_expired invite now ≡ false
        → find_value (has_key invite.network_id key) s.devices ≡ some d
        → Enrolment s code name key now (s, ok d)
    enrolled :
        (invite : Invite) (ipam : Ipam) (addresses : Ipv4 × Ipv6)
        → lookup code s.invites ≡ some invite
        → is_redeemable invite now ≡ true
        → find_value (has_key invite.network_id key) s.devices ≡ none
        → lookup invite.network_id s.ipams ≡ some ipam
        → (allocate ipam key).1 ≡ ok addresses
        → Enrolment s code name key now (
            register_device codec watch
              (allocated s invite.network_id ipam key)
              code
              invite.network_id
              name
              key
              addresses)

  redeem-Enrolment :
      (s : Store codec watch) (code name key : Text) (now : ℤ) (invite : Invite)
      → lookup code s.invites ≡ some invite
      → Enrolment s code name key now (redeem codec watch s code invite name key now)
  unfolding redeem enroll_new
  redeem-Enrolment s code name key now invite at = elim (Bool-cases (is_expired invite now)) [
    | inl p ↦ rw p (refused _)
    | inr p ↦ elim (Option-cases (find_value (has_key invite.network_id key) s.devices)) [
      | inr (d, f) ↦ rw (p, f, redeem) (known invite d at p f)
      | inl f ↦ elim (Bool-cases (is_redeemable invite now)) [
        | inr r ↦ rw (p, f, redeem, r) (refused _)
        | inl r ↦ elim (Option-cases (lookup invite.network_id s.ipams)) [
          | inl g ↦ rw (p, f, redeem, r, g, enroll_new) (refused _)
          | inr (ipam, g) ↦ elim (Result-cases (allocate ipam key).1) [
            | inl (addresses, h) ↦
                rw (p, f, redeem, r, g, enroll_new, h) (enrolled invite ipam addresses at r f g h)
            | inr (e, h) ↦ rw (p, f, redeem, r, g, enroll_new, h) (exhausted invite.network_id ipam)
          ]
        ]
      ]
    ]
  ]

  pub enroll-Enrolment :
      (s : Store codec watch) (code name wg_public_key key : Text) (now : ℤ)
      → normalize codec wg_public_key ≡ some key
      → Enrolment s code name key now (enroll codec watch s code name wg_public_key now)
  unfolding enroll
  enroll-Enrolment s code name wg_public_key key now canonical =
      elim (Option-cases (lookup code s.invites)) [
        | inl e ↦ rw (canonical, e, enroll) (refused _)
        | inr (invite, e) ↦
            rw (canonical, e, enroll) (redeem-Enrolment s code name key now invite e)
      ]

  enroll_known :
      (s : Store codec watch) (code name wg_public_key key : Text) (now : ℤ) (invite : Invite)
      (d : Device)
      → normalize codec wg_public_key ≡ some key
      → lookup code s.invites ≡ some invite
      → is_expired invite now ≡ false
      → find_value (has_key invite.network_id key) s.devices ≡ some d
      → enroll codec watch s code name wg_public_key now ≡ (s, ok d)
  unfolding enroll redeem
  enroll_known s code name wg_public_key key now invite d canonical at fresh there =
      rw (canonical, at, enroll, fresh, there, redeem) refl

  -- The device that a registration makes is found by its key after it.
  register_device-find_value :
      (s : Store codec watch) (code n name key : Text) (addresses : Ipv4 × Ipv6)
      → find_value (has_key n key) s.devices ≡ none
      → find_value
          (has_key n key)
          (register_device codec watch s code n name key addresses).0.devices
        ≡ some (new_device codec watch s n name key addresses)
  unfolding register_device is_active
  register_device-find_value s code n name key addresses new =
      let d : Device = new_device codec watch s n name key addresses in
      ap (find_value (has_key n key)) (bump_epoch-devices _ n)
      ∙ find_value-insert (has_key n key) d.id d s.devices new (has_key_lem n key d refl refl refl)

  register_device-ok :
      (s : Store codec watch) (code n name key : Text) (addresses : Ipv4 × Ipv6)
      → (register_device codec watch s code n name key addresses).1
        ≡ ok (new_device codec watch s n name key addresses)
  unfolding register_device
  register_device-ok s code n name key addresses = refl

  register_device-lookup :
      (s : Store codec watch) (code n name key : Text) (addresses : Ipv4 × Ipv6) (invite : Invite)
      → lookup code s.invites ≡ some invite
      → lookup code (register_device codec watch s code n name key addresses).0.invites
        ≡ some (record invite { uses = (invite.uses + 1) % 2 ^ 32 })
  unfolding register_device use_invite
  register_device-lookup s code n name key addresses invite at =
      rw (bump_epoch-invites _ n, at, use_invite)
        (ground (
          arith,
          lookup-insert code code (record invite { uses = (invite.uses + 1) % 2 ^ 32 }) s.invites,
        ))

  -- A device that enrolled can ask again with the same invite and key, in whatever encoding, until
  -- the invite expires: it gets the same device, no use of the invite is counted, and nothing
  -- changes.
  pub enroll_again :
      (s s' : Store codec watch) (code name name' wg_public_key wg_public_key' key : Text)
      (now later : ℤ) (invite : Invite) (d : Device)
      → normalize codec wg_public_key ≡ some key
      → normalize codec wg_public_key' ≡ some key
      → lookup code s.invites ≡ some invite
      → is_expired invite later ≡ false
      → enroll codec watch s code name wg_public_key now ≡ (s', ok d)
      → enroll codec watch s' code name' wg_public_key' later ≡ (s', ok d)
  unfolding is_expired
  enroll_again s s' code name name' wg_public_key wg_public_key' key now later invite d canonical
        canonical' at fresh first =
      go _ (enroll-Enrolment s code name wg_public_key key now canonical) first
    where
      go :
          (r : Store codec watch × Result Device StoreError)
          → Enrolment s code name key now r
          → r ≡ (s', ok d)
          → enroll codec watch s' code name' wg_public_key' later ≡ (s', ok d)
      go _ (refused e) p = cc (ap (λ x. x.1) p)
      go _ (exhausted n ipam) p = cc (ap (λ x. x.1) p)
      go _ (known i x at' _ f) p =
          let same_state : s ≡ s' = ap (λ x. x.0) p in
          let same : i ≡ invite = cc in
          let device : x ≡ d = cc (ap (λ x. x.1) p) in
          subst (λ t. enroll codec watch t code name' wg_public_key' later ≡ (t, ok d)) same_state
            (enroll_known s code name' wg_public_key' key later invite d canonical' at fresh (
              subst (λ y. find_value (has_key y.network_id key) s.devices ≡ some d) same
                (f ∙ ap some device)))
      go _ (enrolled i ipam addresses at' _ f _ _) p =
          let s1 = allocated s i.network_id ipam key in
          let made = register_device codec watch s1 code i.network_id name key addresses in
          let same_state : made.0 ≡ s' = ap (λ x. x.0) p in
          let same : i ≡ invite = cc in
          let device : new_device codec watch s1 i.network_id name key addresses ≡ d =
            cc (register_device-ok s1 code i.network_id name key addresses, ap (λ x. x.1) p) in
          subst (λ t. enroll codec watch t code name' wg_public_key' later ≡ (t, ok d)) same_state
            (enroll_known made.0 code name' wg_public_key' key later
              (record i { uses = (i.uses + 1) % 2 ^ 32 }) d canonical'
              (register_device-lookup s1 code i.network_id name key addresses i at')
              (subst (λ y. is_expired y later ≡ false) (sym same) fresh)
              (register_device-find_value s1 code i.network_id name key addresses f
                ∙ ap some device))
