-- ===== src/Control/Store/Tests.antt =====
-- The store, on one network, with a codec that keeps the first half of a text.
use fluxpeer.Prelude.{
  ℕ, ◌≡◌, refl, List, [], ◌∷◌, none, some, arith, ok, take, replicate, list_dec, ℕ_discrete,
}
use fluxpeer.Prelude.Maps.{lookup}
use fluxpeer.Prelude.Text.{Text, text_eq, codes}
use fluxpeer.Control.Domain.{pos, Device, revoked, is_expired, is_redeemable, has_uses, active}
use fluxpeer.Control.Key.{KeyCodec, normalize, decode, exactly_32}
use fluxpeer.Control.Ipam.{Ipam, new, allocate, find_free, addresses}
use fluxpeer.Control.Store.{
  Watch, Store, empty, revoke_device, find_value, new_device, register_device, enroll_new, redeem,
  enroll,
}
use fluxpeer.Control.Store.Enrolment.{enroll_again}
use fluxpeer.Control.Store.Revocation.{revoke_device_frees}
use fluxpeer.Control.Store.Invites.{Op, network, invite, join, revoke}

abbrev halves : KeyCodec
halves = record {
  hex_decode = λ t. some (take 32 t);
  hex_encode = λ bytes. bytes;
  base64_decode = λ t. none;
}

abbrev log : Watch
log = record { Sender = List ℕ; channel = λ n. n ∷ []; send = λ tx n. n ∷ tx }

abbrev first_key : Text
first_key = replicate 64 b'a'

abbrev home : Store halves log
home = record (empty halves log) {
  networks =
      (
        codes "n",
        record {
          id = codes "n";
          name = codes "home";
          ipv4_pool = [];
          ipv6_ula = [];
          config_epoch = 0;
        },
      )
      ∷ [];
  ipams = (codes "n", new (100 ∷ 72 ∷ 16 ∷ 0 ∷ []) (1 ∷ 2 ∷ 3 ∷ [])) ∷ [];
  invites =
      (
        codes "c",
        record {
          code = codes "c";
          network_id = codes "n";
          expires_at = none;
          max_uses = some 1;
          uses = 0;
        },
      )
      ∷ [];
}

abbrev joined_home : Store halves log
joined_home = (enroll halves log home (codes "c") (codes "a") first_key (pos 0)).0

abbrev laptop : Device
laptop =
    new_device halves log home (codes "n") (codes "a") (replicate 32 b'a')
      (addresses (new (100 ∷ 72 ∷ 16 ∷ 0 ∷ []) (1 ∷ 2 ∷ 3 ∷ [])) 100)

laptop_joins :
    enroll halves log home (codes "c") (codes "a") first_key (pos 0) ≡ (joined_home, ok laptop)
unfolding enroll redeem enroll_new normalize decode exactly_32 lookup find_value allocate find_free
    register_device is_expired is_redeemable has_uses empty new list_dec ℕ_discrete
laptop_joins = refl

enroll_again_example :
    enroll halves log joined_home (codes "c") (codes "b") first_key (pos 7)
    ≡ (joined_home, ok laptop)
unfolding normalize decode exactly_32 lookup is_expired empty list_dec ℕ_discrete
enroll_again_example =
    enroll_again halves log home joined_home (codes "c") (codes "a") (codes "b") first_key first_key
      (replicate 32 b'a') (pos 0) (pos 7)
      (record {
        code = codes "c";
        network_id = codes "n";
        expires_at = none;
        max_uses = some 1;
        uses = 0;
      })
      laptop refl refl refl refl laptop_joins

abbrev day : List (Op halves log)
day =
    network (codes "home") 5
    ∷ invite (codes "c") (codes "net-1") none (some 1)
    ∷ join (codes "c") (codes "a") first_key (pos 0)
    ∷ revoke (codes "dev-2")
    ∷ []

-- A device that was revoked, and the one that enrolled with its key later.
abbrev device : Text → Device
device id = record {
  id = id;
  network_id = codes "n";
  name = codes "a";
  wg_public_key = codes "k";
  address_v4 = some (codes "100.72.16.100");
  address_v6 = none;
  status = active;
}

abbrev old : Device
old = record (device (codes "d1")) { status = revoked }

abbrev pool : Ipam
pool = (allocate (new (100 ∷ 72 ∷ 16 ∷ 0 ∷ []) (1 ∷ 2 ∷ 3 ∷ [])) (codes "k")).0

abbrev rejoined : Store halves log
rejoined = record home {
  devices = (codes "d1", old) ∷ (codes "d2", device (codes "d2")) ∷ [];
  ipams = (codes "n", pool) ∷ [];
}

revoke_device_frees_example :
    ((b : Ipam) × (lookup (codes "n") (revoke_device halves log rejoined (codes "d1")).0.ipams
        ≡ some b)
      × (lookup (codes "k") b.by_key ≡ none))
    × (lookup (codes "d2") (revoke_device halves log rejoined (codes "d1")).0.devices
        ≡ some (device (codes "d2")))
unfolding lookup empty list_dec ℕ_discrete
revoke_device_frees_example =
    revoke_device_frees halves log rejoined (codes "d1") (codes "d2") old (device (codes "d2")) pool
      refl refl refl (ground arith)
