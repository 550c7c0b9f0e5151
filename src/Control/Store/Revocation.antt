-- ===== src/Control/Store/Revocation.antt =====
-- What `revoke_device` frees.
use fluxpeer.Prelude.{◌≡◌, ◌≢◌, inl, inr, refl, ap, ◌∙◌, none, some, arith, Option-cases}
use fluxpeer.Prelude.Maps.{Map, lookup, lookup-insert, lookup-remove}
use fluxpeer.Prelude.Text.{Text, text_eq}
use fluxpeer.Control.Domain.{Device, revoked}
use fluxpeer.Control.Key.{KeyCodec}
use fluxpeer.Control.Ipam.{Ipam, recycle}
use fluxpeer.Control.Store.{Watch, Store, bump_epoch, recycle_in, revoke_device}
use fluxpeer.Control.Store.Enrolment.{bump_epoch-devices}

-- A key that is recycled has no host.
recycle-lookup : (a : Ipam) (k : Text) → lookup k (recycle a k).0.by_key ≡ none
unfolding recycle
recycle-lookup a k = elim (Option-cases (lookup k a.by_key)) [
  | inl e ↦ rw (e, recycle) e
  | inr (h, e) ↦ rw (e, recycle) (ground (arith, lookup-remove k k a.by_key))
]

recycle_in-lookup :
    (n k : Text) (a : Ipam) (ipams : Map Text Ipam)
    → lookup n ipams ≡ some a
    → lookup n (recycle_in n k ipams) ≡ some (recycle a k).0
unfolding recycle_in
recycle_in-lookup n k a ipams at =
    rw (at, recycle_in) (ground (arith, lookup-insert n n (recycle a k).0 ipams))

module _ (codec : KeyCodec) (watch : Watch) where
  bump_epoch-ipams :
      (s : Store codec watch) (n : Text) → (bump_epoch codec watch s n).ipams ≡ s.ipams
  unfolding bump_epoch
  bump_epoch-ipams s n = elim (Option-cases (lookup n s.networks)) [
    | inl e ↦ rw (e, bump_epoch) refl
    | inr (_, e) ↦ rw (e, bump_epoch) refl
  ]

  revoked_ipams :
      (s : Store codec watch) (device_id : Text) (d : Device) (a : Ipam)
      → lookup device_id s.devices ≡ some d
      → lookup d.network_id s.ipams ≡ some a
      → lookup d.network_id (revoke_device codec watch s device_id).0.ipams
        ≡ some (recycle a d.wg_public_key).0
  unfolding revoke_device
  revoked_ipams s device_id d a at pool =
      rw (at, revoke_device)
        (ap (lookup d.network_id) (bump_epoch-ipams _ d.network_id)
          ∙ recycle_in-lookup d.network_id d.wg_public_key a s.ipams pool)

  other_kept :
      (s : Store codec watch) (device_id j : Text) (d e : Device)
      → lookup device_id s.devices ≡ some d
      → lookup j s.devices ≡ some e
      → device_id ≢ j
      → lookup j (revoke_device codec watch s device_id).0.devices ≡ some e
  unfolding revoke_device
  other_kept s device_id j d e at other ne =
      rw (at, revoke_device)
        (ap (lookup j) (bump_epoch-devices codec watch _ d.network_id)
          ∙ ground (arith, lookup-insert device_id j (record d { status = revoked }) s.devices))

  -- Once a device is revoked, its key has no address in the allocator of its network, whether or
  -- not the device was active, while any other device, also an active one that has enrolled under
  -- the same key since, is what it was.
  pub revoke_device_frees :
      (s : Store codec watch) (device_id j : Text) (d e : Device) (a : Ipam)
      → lookup device_id s.devices ≡ some d
      → lookup d.network_id s.ipams ≡ some a
      → lookup j s.devices ≡ some e
      → device_id ≢ j
      → let s' = (revoke_device codec watch s device_id).0 in
        ((b : Ipam) × (lookup d.network_id s'.ipams ≡ some b)
          × (lookup d.wg_public_key b.by_key ≡ none))
        × (lookup j s'.devices ≡ some e)
  revoke_device_frees s device_id j d e a at pool other ne = (
    (
      (recycle a d.wg_public_key).0,
      revoked_ipams s device_id d a at pool,
      recycle-lookup a d.wg_public_key,
    ),
    other_kept s device_id j d e at other ne,
  )
