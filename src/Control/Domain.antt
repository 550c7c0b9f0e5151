-- ===== src/Control/Domain.antt =====
-- control-server/src/domain.rs: the entities of the control plane that Store keeps, and when an
-- invite can be redeemed.
use fluxpeer.Prelude.{ℕ, Bool, true, false, not, ◌&&◌, Option, none, some, ltb}
use fluxpeer.Prelude.Text.{Text}

-- An `i64`.
pub data ℤ : Type 0 where
  pos : ℕ → ℤ
  negsuc : ℕ → ℤ

unfoldable pub lt_i64 : ℤ → ℤ → Bool
lt_i64 (pos a) (pos b) = ltb a b
lt_i64 (pos a) (negsuc b) = false
lt_i64 (negsuc a) (pos b) = true
lt_i64 (negsuc a) (negsuc b) = ltb b a

pub record Network : Type 0 where
  pub id : Text
  pub name : Text
  pub ipv4_pool : Text
  pub ipv6_ula : Text
  pub config_epoch : ℕ

pub data DeviceStatus : Type 0 where
  active : DeviceStatus
  revoked : DeviceStatus

unfoldable pub is_active : DeviceStatus → Bool
is_active active = true
is_active revoked = false

pub record Device : Type 0 where
  pub id : Text
  pub network_id : Text
  pub name : Text
  pub wg_public_key : Text
  pub address_v4 : Option Text
  pub address_v6 : Option Text
  pub status : DeviceStatus

pub record Invite : Type 0 where
  pub code : Text
  pub network_id : Text
  pub expires_at : Option ℤ
  pub max_uses : Option ℕ
  pub uses : ℕ

pub record Route : Type 0 where
  pub id : Text
  pub network_id : Text
  pub device_id : Text
  pub prefix : Text
  pub approved : Bool

-- `expires_at.is_some_and(|expiry| now >= expiry)`.
unfoldable pub is_expired : Invite → ℤ → Bool
is_expired invite now = elim invite.expires_at [
  | none ↦ false
  | some expiry ↦ not (lt_i64 now expiry)
]

unfoldable pub has_uses : Option ℕ → ℕ → Bool
has_uses none uses = true
has_uses (some m) uses = ltb uses m

unfoldable pub is_redeemable : Invite → ℤ → Bool
is_redeemable invite now =
    let not_expired : Bool = elim invite.expires_at [ none ↦ true | some e ↦ lt_i64 now e ] in
    not_expired && has_uses invite.max_uses invite.uses
