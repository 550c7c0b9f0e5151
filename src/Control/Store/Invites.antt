-- ===== src/Control/Store/Invites.antt =====
-- No invite is used more often than it may be, whatever the calls.
use fluxpeer.Prelude.{ℕ, ◌^◌, ◌≤◌, ◌<◌, ◌≡◌, List, [], ◌∷◌, Option, some}
use fluxpeer.Prelude.Maps.{Map, lookup}
use fluxpeer.Prelude.Text.{Text, text_eq}
use fluxpeer.Control.Domain.{ℤ, Invite}
use fluxpeer.Control.Key.{KeyCodec}
use fluxpeer.Control.Store.{
  Watch, Store, enroll, create_network, create_invite, revoke_device, set_endpoints,
}
use fluxpeer.Control.Store.Enrolment.{Enrolment}

-- A limit fits a `u32`, and is not exceeded.
unfoldable pub IsWithin : Invite → Type 0
IsWithin i = (m : ℕ) → i.max_uses ≡ some m → (m < 2 ^ 32) × (i.uses ≤ m)

unfoldable pub IsBounded : Map Text Invite → Type 0
IsBounded invites = (c : Text) (i : Invite) → lookup c invites ≡ some i → IsWithin i

module _ (codec : KeyCodec) (watch : Watch) where
  pub data Op : Type 0 where
    network : Text → ℕ → Op
    invite : Text → Text → Option ℤ → Option ℕ → Op
    join : Text → Text → Text → ℤ → Op
    revoke : Text → Op
    report : Text → List Text → Op

  unfoldable pub apply : Store codec watch → Op → Store codec watch
  apply s (network name random) = (create_network codec watch s name random).0
  apply s (invite code n expires_at max_uses) =
      (create_invite codec watch s code n expires_at max_uses).0
  apply s (join code name wg_public_key now) = (enroll codec watch s code name wg_public_key now).0
  apply s (revoke device_id) = (revoke_device codec watch s device_id).0
  apply s (report device_id endpoints) = (set_endpoints codec watch s device_id endpoints).0

  unfoldable pub run : Store codec watch → List Op → Store codec watch
  run s [] = s
  run s (op ∷ ops) = run (apply s op) ops

  -- The limit of an invite is a `u32`.
  unfoldable pub IsWord : Op → Type 0
  IsWord (invite code n expires_at max_uses) = (m : ℕ) → max_uses ≡ some m → m < 2 ^ 32
  IsWord _ = Unit {0}
