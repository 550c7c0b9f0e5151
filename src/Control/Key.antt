-- ===== src/Control/Key.antt =====
-- sdk/rust/src/key.rs: public keys in their canonical form. The codecs are a parameter.
use fluxpeer.Prelude.{ℕ, List, Option, none, some, ◌==◌, if◌then◌else◌, length}
use fluxpeer.Prelude.Text.{Text}

-- The codecs of the crates hex and base64.
pub record KeyCodec : Type 0 where
  pub hex_decode : Text → Option (List ℕ)
  pub hex_encode : List ℕ → Text
  pub base64_decode : Text → Option (List ℕ)

-- `try_into` an array of 32 bytes.
unfoldable pub exactly_32 : Option (List ℕ) → Option (List ℕ)
exactly_32 none = none
exactly_32 (some bytes) = if length bytes == 32 then some bytes else none

unfoldable pub decode : KeyCodec → Text → Option (List ℕ)
decode codec value =
    exactly_32 (if length value == 64 then codec.hex_decode value else codec.base64_decode value)

unfoldable pub normalize : KeyCodec → Text → Option Text
normalize codec value = elim (decode codec value) [
  | none ↦ none
  | some bytes ↦ some (codec.hex_encode bytes)
]
