-- ===== src/Relay/Proto/Canonical.antt =====
-- What `decode` accepts is a valid frame, and its encoding is the bytes that it was read from.
use fluxpeer.Prelude.{
  ℕ, zero, suc, ◌+◌, ◌≤◌, ◌≡◌, refl, sym, ap, ◌∙◌, ◌⊎◌, inl, inr, List, [], ◌∷◌, ◌++◌, arith, All,
  length, take, drop, get_or, Result, ok, err, length-take, length-drop, take-append-drop,
  take_of_length-le, All-drop, All-take,
}
use mathlib.Core.Path.{subst}
use fluxpeer.Prelude.Bytes.{
  IsByte, IsU32, to_be_bytes32, from_be_bytes32-IsU32, to_be_bytes32-from_be, take_header,
}
use fluxpeer.Relay.Proto.Valid.{IsFrame}
use fluxpeer.Relay.Proto.Decode.{decode_inv}
use fluxpeer.Relay.Proto.{
  Frame, Error, health, restarting, max_packet_size, key_len, header_len, type_byte, body, encode,
  decode, decode_body, word_at, decode_client_info, decode_server_info, decode_packet, decode_ping,
  decode_peer_gone,
}

-- A frame with no body, whose decoder does not look at the bytes of the body.
abbrev pub IsBodiless : Frame → Type 0
IsBodiless health = Unit {0}
IsBodiless restarting = Unit {0}
IsBodiless _ = ⊥

-- `f` is valid, has the type byte `t`, and was read from the body `b`.
abbrev ReadFrom : ℕ → List ℕ → Frame → Type 0
ReadFrom t b f = IsFrame f × (type_byte f ≡ t) × ((body f ≡ b) ⊎ IsBodiless f)

word_at_lem :
    (c : List ℕ)
    → length c ≡ 4
    → All IsByte c
    → (to_be_bytes32 (word_at c 0) ≡ c) × IsU32 (word_at c 0)
word_at_lem (a ∷ b ∷ c ∷ d ∷ []) h (ha, (hb, (hc, (hd, _)))) =
    (to_be_bytes32-from_be a b c d ha hb hc hd, from_be_bytes32-IsU32 a b c d ha hb hc hd)
word_at_lem _ h i = absurd (omega arith)

-- The same of a result: an error says nothing.
abbrev Reads : ℕ → List ℕ → Result Frame Error → Type 0
Reads t b (ok f) = ReadFrom t b f
Reads t b (err e) = Unit {0}

decode_client_info-Reads : (b : List ℕ) → All IsByte b → Reads 1 b (decode_client_info b)
unfolding decode_client_info type_byte body
decode_client_info-Reads b i = ground (
  arith,
  length-take key_len b,
  length-drop key_len b,
  take-append-drop key_len b,
  word_at_lem (drop key_len b),
  All-drop IsByte key_len b i,
)

decode_server_info-Reads : (b : List ℕ) → All IsByte b → Reads 2 b (decode_server_info b)
unfolding decode_server_info type_byte body
decode_server_info-Reads b i = ground (arith, word_at_lem b)

decode_packet-Reads : (t : ℕ) (b : List ℕ) → (t ≡ 3) ⊎ (t ≡ 4) → Reads t b (decode_packet t b)
unfolding decode_packet type_byte body
decode_packet-Reads t b h = ground (arith, length-take key_len b, take-append-drop key_len b)

decode_ping-Reads : (t : ℕ) (b : List ℕ) → (t ≡ 5) ⊎ (t ≡ 6) → Reads t b (decode_ping t b)
unfolding decode_ping type_byte body
decode_ping-Reads t b h = ground arith

decode_peer_gone-Reads : (b : List ℕ) → Reads 7 b (decode_peer_gone b)
unfolding decode_peer_gone type_byte body
decode_peer_gone-Reads b = ground (arith, take_of_length-le key_len b)

decode_body-Reads : (t : ℕ) (b : List ℕ) → All IsByte b → Reads t b (decode_body t b)
unfolding type_byte body decode_body
decode_body-Reads zero b i = tt
decode_body-Reads (suc zero) b i = decode_client_info-Reads b i
decode_body-Reads (suc (suc zero)) b i = decode_server_info-Reads b i
decode_body-Reads (suc (suc (suc zero))) b i = decode_packet-Reads 3 b (inl refl)
decode_body-Reads (suc (suc (suc (suc zero)))) b i = decode_packet-Reads 4 b (inr refl)
decode_body-Reads (suc (suc (suc (suc (suc zero))))) b i = decode_ping-Reads 5 b (inl refl)
decode_body-Reads (suc (suc (suc (suc (suc (suc zero)))))) b i = decode_ping-Reads 6 b (inr refl)
decode_body-Reads (suc (suc (suc (suc (suc (suc (suc zero))))))) b i = decode_peer_gone-Reads b
decode_body-Reads (suc (suc (suc (suc (suc (suc (suc (suc zero)))))))) b i = (tt, refl, inr tt)
decode_body-Reads (suc (suc (suc (suc (suc (suc (suc (suc (suc zero))))))))) b i =
    (tt, refl, inr tt)
decode_body-Reads (suc (suc (suc (suc (suc (suc (suc (suc (suc (suc t)))))))))) b i = ground arith

encode_of_body :
    (f : Frame) (t w : ℕ) (b : List ℕ)
    → type_byte f ≡ t
    → body f ≡ b
    → length b ≡ w
    → w ≤ max_packet_size + key_len
    → encode f ≡ t ∷ to_be_bytes32 w ++ b
unfolding encode
encode_of_body f t w b ht hb hw small = ground arith

-- A buffer of bytes that decodes gives a valid frame, whose encoding is the bytes that were taken,
-- unless the frame is `Health` or `Restarting`, whose body is not looked at.
pub encode-decode :
    (buf : List ℕ) {f : Frame} {n : ℕ}
    → All IsByte buf
    → decode buf ≡ ok (f, n)
    → IsFrame f × ((encode f ≡ take n buf) ⊎ IsBodiless f)
encode-decode buf {f} {n} i h =
    let (size, fits, small, read) = decode_inv buf h in
    let b : List ℕ = take (word_at buf 1) (drop header_len buf) in
    let reads : ReadFrom (get_or buf 0 0) b f = subst (Reads (get_or buf 0 0) b) read (
      decode_body-Reads (get_or buf 0 0) b
        (All-take IsByte _ _ (All-drop IsByte header_len buf i))) in
    elim reads.2 [
      | inl same ↦
          let e : n ≡ suc (suc (suc (suc (suc (word_at buf 1))))) = omega arith in
          (
            reads.0,
            inl (
                encode_of_body f _ (word_at buf 1) b reads.1 same
                  (omega (
                    arith,
                    length-take (word_at buf 1) (drop header_len buf),
                    length-drop header_len buf,
                  ))
                  small
                ∙ sym (ap (λ k. take k buf) e ∙ take_header buf (word_at buf 1) (omega arith) i)),
          )
      | inr none ↦ (reads.0, inr none)
    ]
