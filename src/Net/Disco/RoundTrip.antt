-- ===== src/Net/Disco/RoundTrip.antt =====
-- What `encode` writes, `decode` reads back, whatever follows it.
use fluxpeer.Prelude.{
  ℕ, suc, ◌+◌, ◌%◌, ◌^◌, ◌<◌, ◌≤◌, ◌≡◌, refl, sym, ap, ◌∙◌, List, [], ◌∷◌, ◌++◌, arith, All, length,
  take, drop, get_or, ok, ◌>>=◌, length-append, take-append_of, drop-append_of, get_or-append_of,
  drop-drop, ltb, false,
}
use mathlib.Core.List.{append_assoc, append-nil}
use fluxpeer.Prelude.Bytes.{
  length-to_be_bytes16, to_be_bytes16, to_be_bytes32, from_be_bytes16, from_be_bytes16-to_be,
  from_be_bytes32-to_be,
}
use fluxpeer.Net.Disco.Valid.{IsAddr, IsDisco, length-body-small}
use fluxpeer.Net.Disco.{
  SocketAddr, v4, v6, Disco, ping, pong, call_me_maybe, txid_len, max_candidates, header_len,
  put_addr, get_v4, get_v6, get_addr, af_v4, af_v6, put_addrs, get_addrs, type_byte, body, encode,
  decode_ping, decode_pong, decode_call_me_maybe, decode_body, decode,
}

-- The bytes of an address under either family.
module _ (ip rest : List ℕ) (port n : ℕ) (size : length ip ≡ n) where
  ip_read : take n (ip ++ (to_be_bytes16 port ++ rest)) ≡ ip
  ip_read = take-append_of n ip (to_be_bytes16 port ++ rest) size

  port_read :
      from_be_bytes16
        (get_or (ip ++ (to_be_bytes16 port ++ rest)) (n + 0) 0)
        (get_or (ip ++ (to_be_bytes16 port ++ rest)) (n + 1) 0)
      ≡ port
  unfolding to_be_bytes16
  port_read =
      rw
        (
          get_or-append_of n ip (to_be_bytes16 port ++ rest) 0 0 size,
          get_or-append_of n ip (to_be_bytes16 port ++ rest) 1 0 size,
        )
        (from_be_bytes16-to_be port)

get_v4-put :
    (ip rest : List ℕ) (port : ℕ)
    → length ip ≡ 4
    → get_v4 (af_v4 ∷ ip ++ (to_be_bytes16 port ++ rest)) ≡ ok (v4 ip port, 7)
unfolding get_v4
get_v4-put ip rest port h =
    let long : ltb (length (4 ∷ ip ++ (to_be_bytes16 port ++ rest))) 7 ≡ false = ground (
      arith,
      length-append ip (to_be_bytes16 port ++ rest),
      length-to_be_bytes16 port,
      length-append (to_be_bytes16 port) rest,
    ) in
    rw (long, ip_read ip rest port 4 h, port_read ip rest port 4 h) refl

get_v6-put :
    (ip rest : List ℕ) (port : ℕ)
    → length ip ≡ 16
    → get_v6 (af_v6 ∷ ip ++ (to_be_bytes16 port ++ rest)) ≡ ok (v6 ip port 0 0, 19)
unfolding get_v6
get_v6-put ip rest port h =
    let long : ltb (length (6 ∷ ip ++ (to_be_bytes16 port ++ rest))) 19 ≡ false = ground (
      arith,
      length-append ip (to_be_bytes16 port ++ rest),
      length-to_be_bytes16 port,
      length-append (to_be_bytes16 port) rest,
    ) in
    rw (long, ip_read ip rest port 16 h, port_read ip rest port 16 h) refl

-- The first byte chooses the family.
get_addr_v4 : (r : List ℕ) → get_addr (af_v4 ∷ r) ≡ get_v4 (af_v4 ∷ r)
unfolding get_addr
get_addr_v4 r = ground arith

get_addr_v6 : (r : List ℕ) → get_addr (af_v6 ∷ r) ≡ get_v6 (af_v6 ∷ r)
unfolding get_addr
get_addr_v6 r = ground arith

length_addr :
    (ip : List ℕ) (port n : ℕ) → length ip ≡ n → suc (length (ip ++ to_be_bytes16 port)) ≡ n + 3
length_addr ip port n h =
    omega (arith, length-append ip (to_be_bytes16 port), length-to_be_bytes16 port)

pub get_addr-put_addr :
    (a : SocketAddr) (rest : List ℕ)
    → IsAddr a
    → get_addr (put_addr a ++ rest) ≡ ok (a, length (put_addr a))
unfolding put_addr
get_addr-put_addr (v4 ip port) rest h =
    rw (append_assoc ip (to_be_bytes16 port) rest, length_addr ip port 4 h.0)
      (get_addr_v4 (ip ++ (to_be_bytes16 port ++ rest)) ∙ get_v4-put ip rest port h.0)
get_addr-put_addr (v6 ip port f s) rest (size, _, no_flow, no_scope) =
    rw (append_assoc ip (to_be_bytes16 port) rest, length_addr ip port 16 size, no_flow, no_scope)
      (get_addr_v6 (ip ++ (to_be_bytes16 port ++ rest)) ∙ get_v6-put ip rest port size)

-- The loop reads back the addresses that stand at `off`.
get_addrs-put_addrs :
    (cs : List SocketAddr) (b rest : List ℕ) (off : ℕ)
    → All IsAddr cs
    → drop off b ≡ put_addrs cs ++ rest
    → get_addrs (length cs) b off ≡ ok (cs, off + length (put_addrs cs))
unfolding put_addrs get_addrs
get_addrs-put_addrs [] b rest off h e = ap (λ (k : ℕ). ok ([], k)) (omega arith)
get_addrs-put_addrs (c ∷ cs) b rest off h e =
    let here : drop off b ≡ put_addr c ++ (put_addrs cs ++ rest) =
      e ∙ append_assoc (put_addr c) (put_addrs cs) rest in
    let there : drop (off + length (put_addr c)) b ≡ put_addrs cs ++ rest =
      sym (drop-drop off (length (put_addr c)) b)
      ∙ ap (drop (length (put_addr c))) here
      ∙ drop-append_of (length (put_addr c)) (put_addr c) (put_addrs cs ++ rest) refl in
    let end : off + length (put_addr c) + length (put_addrs cs)
        ≡ off + length (put_addr c ++ put_addrs cs) =
      omega (arith, length-append (put_addr c) (put_addrs cs)) in
    rw
      (
        here,
        get_addr-put_addr c (put_addrs cs ++ rest) h.0,
        get_addrs-put_addrs cs b rest (off + length (put_addr c)) h.1 there,
      )
      (ap (λ k. ok (c ∷ cs, k)) end)

get_addr_whole : (a : SocketAddr) → IsAddr a → get_addr (put_addr a) ≡ ok (a, length (put_addr a))
get_addr_whole a h = rw append-nil at (get_addr-put_addr a [] h)

decode_pong-body :
    (tx_id : List ℕ) (a : SocketAddr)
    → length tx_id ≡ txid_len
    → IsAddr a
    → decode_pong (tx_id ++ put_addr a) ≡ ok (pong tx_id a)
unfolding decode_pong
decode_pong-body tx_id a size h = ground (
  arith,
  length-append tx_id (put_addr a),
  take-append_of txid_len tx_id (put_addr a),
  drop-append_of txid_len tx_id (put_addr a),
  get_addr_whole a h,
)

decode_call_me_maybe-body :
    (cs : List SocketAddr)
    → length cs ≤ max_candidates
    → All IsAddr cs
    → decode_call_me_maybe (to_be_bytes16 (length cs % 2 ^ 16) ++ put_addrs cs)
      ≡ ok (call_me_maybe cs)
unfolding decode_call_me_maybe to_be_bytes16
decode_call_me_maybe-body cs few h =
    let count : length cs % 2 ^ 16 ≡ length cs = omega arith in
    rw (count, from_be_bytes16-to_be (length cs))
      (ground (
        arith,
        get_addrs-put_addrs cs (to_be_bytes16 (length cs) ++ put_addrs cs) [] 2 h
            (sym (append-nil (put_addrs cs))),
      ))

-- The body of each message is decoded under its own type byte.
decode_body-body : (m : Disco) → IsDisco m → decode_body (type_byte m) (body m) ≡ ok m
unfolding decode_body type_byte body decode_ping decode_pong decode_call_me_maybe
decode_body-body (ping tx_id sender) h = ground (
  arith,
  length-append tx_id sender,
  take-append_of txid_len tx_id sender,
  drop-append_of txid_len tx_id sender,
)
decode_body-body (pong tx_id observed) h = decode_pong-body tx_id observed h.0 h.1
decode_body-body (call_me_maybe candidates) h = decode_call_me_maybe-body candidates h.0 h.1

-- A header over a body that is there in full.
decode_header :
    (t : ℕ) (b rest : List ℕ)
    → length b < 2048
    → decode (t ∷ to_be_bytes32 (length b % 2 ^ 32) ++ (b ++ rest))
      ≡ (decode_body t b >>= λ m. ok (m, header_len + length b))
unfolding decode to_be_bytes32
decode_header t b rest h = ground (
  arith,
  length-append b rest,
  take-append_of (length b) b rest,
  from_be_bytes32-to_be (length b),
)

pub length-encode : (m : Disco) → length (encode m) ≡ header_len + length (body m)
unfolding encode to_be_bytes32
length-encode m = omega arith

-- Every valid message comes back from its encoding, with the number of bytes that the encoding has,
-- also when more bytes follow.
pub decode-encode_disco :
    (m : Disco) (rest : List ℕ) → IsDisco m → decode (encode m ++ rest) ≡ ok (m, length (encode m))
unfolding encode to_be_bytes32
decode-encode_disco m rest h =
    decode_header (type_byte m) (body m) rest (length-body-small m h)
    ∙ rw (decode_body-body m h) (ap (λ (n : ℕ). ok (m, n)) (sym (length-encode m)))
