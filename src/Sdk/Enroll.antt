-- ===== src/Sdk/Enroll.antt =====
-- sdk/rust/src/lib.rs: what `enroll` sends of the key of a device: the public half, and the proof
-- that answers a challenge.
use fluxpeer.Prelude.{Option, none, some}
use fluxpeer.Prelude.Text.{Text}
use fluxpeer.Control.Key.{KeyCodec}
use fluxpeer.Control.Pop.{Curve, decode_key}

unfoldable pub wg_public_key : KeyCodec → Curve → Text → Option Text
wg_public_key codec curve wg_private_key = elim (decode_key codec wg_private_key) [
  | none ↦ none
  | some sk ↦ some (codec.hex_encode (curve.public sk))
]

unfoldable pub proof_of : KeyCodec → Curve → Text → Text → Option Text
proof_of codec curve wg_private_key server_pub = elim (decode_key codec wg_private_key) [
  | none ↦ none
  | some sk ↦ elim (decode_key codec server_pub) [
    | none ↦ none
    | some key ↦ some (codec.hex_encode (curve.diffie_hellman sk key))
  ]
]
