-- ===== src/Net/Disco/Canonical.antt =====
-- What `decode` accepts is a valid message, and its encoding is the bytes that it was read from.
use fluxpeer.Prelude.{
  ℕ, suc, ◌+◌, ◌-◌, ◌%◌, ◌^◌, ◌≤◌, ◌≡◌, refl, sym, ap, ◌∙◌, List, [], ◌∷◌, ◌++◌, arith, All, length,
  take, drop, get_or, ok, length-take, length-drop, take-append-drop, take_of_length-le, All-drop,
  All-take, >>=-eq-ok, Bool-cases, false, inl, inr, ltb,
}
use fluxpeer.Prelude.Bytes.{
  IsByte, to_be_bytes32, from_be_bytes16, to_be_bytes16-from_be, take_header, header_word,
}
use fluxpeer.Net.Disco.Addresses.{AddrAt, AddrsAt, get_addr-AddrAt, get_addrs-AddrsAt}
use fluxpeer.Net.Disco.Valid.{IsDisco, length-body-small}
use fluxpeer.Net.Disco.{
  Disco, pong, call_me_maybe, txid_len, max_candidates, header_len, get_addr, get_addrs, type_byte,
  body, encode, decode_ping, decode_pong, decode_call_me_maybe, decode_body, decode,
}

-- `m` is valid, has the type byte `t`, and was read from the body `b`.
abbrev ReadFrom : ℕ → List ℕ → Disco → Type 0
ReadFrom t b m = IsDisco m × (type_byte m ≡ t) × (body m ≡ b)

decode_ping-ReadFrom : (b : List ℕ) {m : Disco} → decode_ping b ≡ ok m → ReadFrom 1 b m
unfolding decode_ping type_byte body
decode_ping-ReadFrom b h =
    ground (arith, length-take txid_len b, length-drop txid_len b, take-append-drop txid_len b)

decode_pong-ReadFrom :
    (b : List ℕ) {m : Disco} → All IsByte b → decode_pong b ≡ ok m → ReadFrom 2 b m
unfolding decode_pong type_byte body
decode_pong-ReadFrom b {m} i h = elim (Bool-cases (ltb (length b) txid_len)) [
  | inl short ↦ cc (rw short at h)
  | inr long ↦
      let ((a, n), one, h') = >>=-eq-ok (get_addr (drop txid_len b)) _ (rw long at h) in
      let at : AddrAt (drop txid_len b) a n =
        get_addr-AddrAt (drop txid_len b) (All-drop IsByte txid_len b i) one in
      let all : txid_len + n ≡ length b = ground arith in
      let read : pong (take txid_len b) a ≡ m = ground arith in
      let whole : take n (drop txid_len b) ≡ drop txid_len b =
        take_of_length-le n (drop txid_len b) (omega (arith, length-drop txid_len b)) in
      rw (← read) (
        (ground (arith, length-take txid_len b), at.valid),
        refl,
        ap (◌++◌ (take txid_len b)) (at.same ∙ whole) ∙ take-append-drop txid_len b,
      )
]

decode_call_me_maybe-ReadFrom :
    (b : List ℕ) {m : Disco} → All IsByte b → decode_call_me_maybe b ≡ ok m → ReadFrom 3 b m
unfolding decode_call_me_maybe type_byte body
decode_call_me_maybe-ReadFrom [] i h = cc
decode_call_me_maybe-ReadFrom (x ∷ []) i h = cc
decode_call_me_maybe-ReadFrom (x ∷ y ∷ r) {m} (hx, (hy, hr)) h =
    let count : ℕ = from_be_bytes16 x y in
    let long : ltb (length (x ∷ y ∷ r)) 2 ≡ false = ground arith in
    elim (Bool-cases (ltb max_candidates count)) [
      | inl many ↦ cc (rw (long, many) at h)
      | inr few ↦
          let ((cs, off), more, h') =
            >>=-eq-ok (get_addrs count (x ∷ y ∷ r) 2) _ (rw (long, few) at h) in
          let at : AddrsAt count (x ∷ y ∷ r) 2 cs off =
            get_addrs-AddrsAt count (x ∷ y ∷ r) 2 (hx, (hy, hr)) (omega arith) more in
          let all : off ≡ length (x ∷ y ∷ r) = ground arith in
          let read : call_me_maybe cs ≡ m = ground arith in
          let counted : length cs % 2 ^ 16 ≡ count = ground (arith, at.counted) in
          let whole : take (off - 2) r ≡ r = take_of_length-le (off - 2) r (omega arith) in
          rw (← read) (
            (ground (arith, at.counted), at.valid),
            refl,
            rw (counted, to_be_bytes16-from_be x y hy) (ap (λ t. x ∷ y ∷ t) (at.same ∙ whole)),
          )
    ]

decode_body-ReadFrom :
    (t : ℕ) (b : List ℕ) {m : Disco} → All IsByte b → decode_body t b ≡ ok m → ReadFrom t b m
unfolding decode_body
decode_body-ReadFrom t b {m} i h = ground (
  arith,
  decode_ping-ReadFrom b {m = m},
  decode_pong-ReadFrom b {m = m} i,
  decode_call_me_maybe-ReadFrom b {m = m} i,
)

decode_inv :
    (buf : List ℕ) {m : Disco} {n : ℕ}
    → decode buf ≡ ok (m, n)
    → (n ≡ header_len + header_word buf)
      × (n ≤ length buf)
      × (decode_body (get_or buf 0 0) (take (header_word buf) (drop header_len buf)) ≡ ok m)
unfolding decode
decode_inv buf h = ground arith

encode_of_body :
    (m : Disco) (t w : ℕ) (b : List ℕ)
    → ReadFrom t b m
    → length b ≡ w
    → encode m ≡ t ∷ to_be_bytes32 w ++ b
unfolding encode
encode_of_body m t w b (valid, ht, hb) hw =
    let small = length-body-small m valid in
    let size : length (body m) % 2 ^ 32 ≡ w = omega (arith, ap length hb) in rw (ht, size, hb) refl

-- A buffer of bytes that decodes gives a valid message with at most 64 candidates, whose encoding
-- is the bytes that were taken.
pub encode-decode_disco :
    (buf : List ℕ) {m : Disco} {n : ℕ}
    → All IsByte buf
    → decode buf ≡ ok (m, n)
    → IsDisco m × (n ≤ length buf) × (encode m ≡ take n buf)
encode-decode_disco buf {m} {n} i h =
    let (size, fits, read) = decode_inv buf h in
    let w : ℕ = header_word buf in
    let b : List ℕ = take w (drop header_len buf) in
    let from : ReadFrom (get_or buf 0 0) b m =
      decode_body-ReadFrom (get_or buf 0 0) b
        (All-take IsByte _ _ (All-drop IsByte header_len buf i)) read in
    let long : length b ≡ w =
      omega (arith, length-take w (drop header_len buf), length-drop header_len buf) in
    let e : n ≡ suc (suc (suc (suc (suc w)))) = omega arith in
    (
      from.0,
      fits,
      encode_of_body m (get_or buf 0 0) w b from long
          ∙ sym (ap (λ k. take k buf) e ∙ take_header buf w (omega arith) i),
    )
