-- ===== src/Control/Store.antt =====
-- control-server/src/state.rs: the in-memory store, where devices
-- enrol and are revoked. A call holds the lock from its start to its end, and so is one step on the
-- state. The codecs of the keys and the channels of tokio are parameters; random numbers are
-- arguments. The relays, the batch import and the configuration of a device are left out.
pub mod Invites
pub mod Enrolment
pub mod Revocation
mod Tests
use fluxpeer.Prelude.{
  ℕ, ◌+◌, ◌-◌, ◌*◌, ◌/◌, ◌%◌, ◌^◌, Bool, true, false, not, ◌&&◌, List, [], ◌∷◌, ◌++◌, Option, none,
  some, ltb, leb, ◌==◌, if◌then◌else◌, length, take, drop, Result, ok, err, ite, ◌≟◌,
}
use fluxpeer.Prelude.Maps.{Map, lookup, insert, remove}
use fluxpeer.Prelude.Text.{Text, text_eq, codes, decimal}
use fluxpeer.Control.Domain.{
  ℤ, lt_i64, Network, DeviceStatus, active, revoked, is_active, Device, Invite, Route, is_expired,
  is_redeemable,
}
use fluxpeer.Control.Display.{hex4, joined, v4_to_string, v6_to_string}
use fluxpeer.Control.Key.{KeyCodec, normalize}
use fluxpeer.Control.Ipam.{Ipam, Ipv4, Ipv6, IpamError, new, allocate, recycle}

pub data StoreError : Type 0 where
  network_not_found : StoreError
  device_not_found : StoreError
  route_not_found : StoreError
  relay_not_found : StoreError
  invalid_prefix : StoreError
  invalid_key : StoreError
  invalid_invite : StoreError
  pool_exhausted : StoreError

-- `watch::Sender<u64>`.
pub record Watch : Type 1 where
  pub Sender : Type 0
  pub channel : ℕ → Sender
  pub send : Sender → ℕ → Sender

-- The active device of the network that has the key.
unfoldable pub has_key : Text → Text → Device → Bool
has_key network_id key d = elim (d.network_id ≟ network_id) [
  | no _ ↦ false
  | yes _ ↦ is_active d.status && ite (d.wg_public_key ≟ key) true false
]

-- `values().find(..)`.
unfoldable pub find_value : (Device → Bool) → Map Text Device → Option Device
find_value test [] = none
find_value test ((_, d) ∷ m) = let rest = find_value test m in if test d then some d else rest

-- `invites.get_mut(invite_code)`, and one use more.
unfoldable pub use_invite : Text → Map Text Invite → Map Text Invite
use_invite code invites = elim (lookup code invites) [
  | none ↦ invites
  | some inv ↦ insert code (record inv { uses = (inv.uses + 1) % 2 ^ 32 }) invites
]

unfoldable pub in_network : Text → Map Text Device → List Device
in_network network_id [] = []
in_network network_id ((_, d) ∷ m) =
    let rest = in_network network_id m in ite (d.network_id ≟ network_id) (d ∷ rest) rest

-- `ipams.get_mut(network_id)`, and the key recycled.
unfoldable pub recycle_in : Text → Text → Map Text Ipam → Map Text Ipam
recycle_in network_id key ipams = elim (lookup network_id ipams) [
  | none ↦ ipams
  | some ipam ↦ insert network_id (recycle ipam key).0 ipams
]

-- The 48 bits of the prefix, from a random `u64`.
unfoldable pub ula_of : ℕ → List ℕ
ula_of random =
    let global_id = random % 2 ^ 40 in
    (2 ^ 8 * 253 + global_id / 2 ^ 32 % 2 ^ 8)
    ∷ (global_id / 2 ^ 16 % 2 ^ 16)
    ∷ (global_id % 2 ^ 16)
    ∷ []

module _ (codec : KeyCodec) (watch : Watch) where
  pub record Store : Type 0 where
    pub networks : Map Text Network
    pub devices : Map Text Device
    pub invites : Map Text Invite
    pub ipams : Map Text Ipam
    pub routes : Map Text Route
    pub endpoints : Map Text (List Text)
    pub epoch_tx : Map Text watch.Sender
    pub seq : ℕ
    pub net_index : ℕ

  unfoldable pub empty : Store
  empty = record {
    networks = [];
    devices = [];
    invites = [];
    ipams = [];
    routes = [];
    endpoints = [];
    epoch_tx = [];
    seq = 1;
    net_index = 0;
  }

  abbrev next_seq : Store → Store
  next_seq s = record s { seq = (s.seq + 1) % 2 ^ 64 }

  -- `inner.epoch_tx.get(network_id)`, and the send.
  unfoldable pub notify : Map Text watch.Sender → Text → ℕ → Map Text watch.Sender
  notify epoch_tx network_id epoch = elim (lookup network_id epoch_tx) [
    | none ↦ epoch_tx
    | some tx ↦ insert network_id (watch.send tx epoch) epoch_tx
  ]

  unfoldable pub bump_epoch : Store → Text → Store
  bump_epoch s network_id = elim (lookup network_id s.networks) [
    | none ↦ s
    | some net ↦
        let epoch = (net.config_epoch + 1) % 2 ^ 64 in
        record s {
          networks = insert network_id (record net { config_epoch = epoch }) s.networks;
          epoch_tx = notify s.epoch_tx network_id epoch;
        }
  ]

  unfoldable pub create_network : Store → Text → ℕ → Store × Network
  create_network s name random =
      let octet = s.net_index % 200 + 16 in
      let ula = ula_of random in
      let net : Network = record {
        id = codes "net-" ++ decimal s.seq;
        name = name;
        ipv4_pool = codes "100.72." ++ (decimal octet ++ codes ".0/24");
        ipv6_ula = joined hex4 (codes ":") ula ++ codes "::/48";
        config_epoch = 0;
      } in
      let s' = next_seq (record s { net_index = (s.net_index + 1) % 2 ^ 64 }) in
      (
        record s' {
          ipams = insert net.id (new (100 ∷ 72 ∷ octet ∷ 0 ∷ []) ula) s'.ipams;
          epoch_tx = insert net.id (watch.channel 0) s'.epoch_tx;
          networks = insert net.id net s'.networks;
        },
        net,
      )

  -- The code is random.
  unfoldable pub create_invite :
      Store → Text → Text → Option ℤ → Option ℕ → Store × Result Invite StoreError
  create_invite s code network_id expires_at max_uses = elim (lookup network_id s.networks) [
    | none ↦ (s, err network_not_found)
    | some _ ↦
        let invite : Invite = record {
          code = code;
          network_id = network_id;
          expires_at = expires_at;
          max_uses = max_uses;
          uses = 0;
        } in
        (record s { invites = insert code invite s.invites }, ok invite)
  ]

  -- The device that `enroll` makes.
  abbrev pub new_device : Store → Text → Text → Text → Ipv4 × Ipv6 → Device
  new_device s network_id name key (v4, v6) = record {
    id = codes "dev-" ++ decimal s.seq;
    network_id = network_id;
    name = name;
    wg_public_key = key;
    address_v4 = some (v4_to_string v4);
    address_v6 = some (v6_to_string v6);
    status = active;
  }

  -- The last part of `enroll`: the device is registered under its addresses.
  unfoldable pub register_device :
      Store → Text → Text → Text → Text → Ipv4 × Ipv6 → Store × Result Device StoreError
  register_device s invite_code network_id name key addresses =
      let device = new_device s network_id name key addresses in
      let s' = record (next_seq s) {
        invites = use_invite invite_code s.invites;
        devices = insert device.id device s.devices;
      } in
      (bump_epoch s' network_id, ok device)

  -- The middle part of `enroll`: the allocation.
  unfoldable pub enroll_new : Store → Text → Text → Text → Text → Store × Result Device StoreError
  enroll_new s invite_code network_id name key = elim (lookup network_id s.ipams) [
    | none ↦ (s, err network_not_found)
    | some ipam ↦
        let s' = record s { ipams = insert network_id (allocate ipam key).0 s.ipams } in
        elim (allocate ipam key).1 [
          | err _ ↦ (s', err pool_exhausted)
          | ok addresses ↦ register_device s' invite_code network_id name key addresses
        ]
  ]

  unfoldable pub redeem : Store → Text → Invite → Text → Text → ℤ → Store × Result Device StoreError
  redeem s invite_code invite name key now =
      if is_expired invite now
      then (s, err invalid_invite)
      else elim (find_value (has_key invite.network_id key) s.devices) [
        | some device ↦ (s, ok device)
        | none ↦
            if not (is_redeemable invite now)
            then (s, err invalid_invite)
            else enroll_new s invite_code invite.network_id name key
      ]

  unfoldable pub enroll : Store → Text → Text → Text → ℤ → Store × Result Device StoreError
  enroll s invite_code name wg_public_key now = elim (normalize codec wg_public_key) [
    | none ↦ (s, err invalid_key)
    | some key ↦ elim (lookup invite_code s.invites) [
      | none ↦ (s, err invalid_invite)
      | some invite ↦ redeem s invite_code invite name key now
    ]
  ]

  unfoldable pub list_devices : Store → Text → Result (List Device) StoreError
  list_devices s network_id = elim (lookup network_id s.networks) [
    | none ↦ err network_not_found
    | some _ ↦ ok (in_network network_id s.devices)
  ]

  unfoldable pub revoke_device : Store → Text → Store × Result (Unit {0}) StoreError
  revoke_device s device_id = elim (lookup device_id s.devices) [
    | none ↦ (s, err device_not_found)
    | some device ↦
        let s' = record s {
          ipams = recycle_in device.network_id device.wg_public_key s.ipams;
          devices = insert device_id (record device { status = revoked }) s.devices;
        } in
        (bump_epoch s' device.network_id, ok tt)
  ]

  unfoldable pub set_endpoints : Store → Text → List Text → Store × Result (Unit {0}) StoreError
  set_endpoints s device_id endpoints = elim (lookup device_id s.devices) [
    | none ↦ (s, err device_not_found)
    | some device ↦
        let s' = record s { endpoints = insert device_id endpoints s.endpoints } in
        (bump_epoch s' device.network_id, ok tt)
  ]

  unfoldable pub approve_route : Store → Text → Store × Result (Unit {0}) StoreError
  approve_route s route_id = elim (lookup route_id s.routes) [
    | none ↦ (s, err route_not_found)
    | some r ↦
        let s' = record s { routes = insert route_id (record r { approved = true }) s.routes } in
        (bump_epoch s' r.network_id, ok tt)
  ]

  unfoldable pub delete_route : Store → Text → Store × Result (Unit {0}) StoreError
  delete_route s route_id = elim (lookup route_id s.routes) [
    | none ↦ (s, err route_not_found)
    | some r ↦
        let s' = record s { routes = remove route_id s.routes } in
        (if r.approved then bump_epoch s' r.network_id else s', ok tt)
  ]

  unfoldable pub network_epoch : Store → Text → Option ℕ
  network_epoch s network_id = elim (lookup network_id s.networks) [
    | none ↦ none
    | some n ↦ some n.config_epoch
  ]

  unfoldable pub network_id_of_device : Store → Text → Option Text
  network_id_of_device s device_id = elim (lookup device_id s.devices) [
    | none ↦ none
    | some d ↦ some d.network_id
  ]
