-- ===== src/Net/Disco/Tests.antt =====
-- The codec's theorems at concrete messages.
use fluxpeer.Prelude.{ℕ, ◌≡◌, refl, List, [], ◌∷◌, ◌++◌, All, length, replicate, ok, arith}
use fluxpeer.Prelude.Bytes.{IsByte, from_be_bytes16, from_be_bytes32}
use fluxpeer.Net.Disco.{
  SocketAddr, v4, v6, Disco, call_me_maybe, encode, decode, decode_body, decode_call_me_maybe,
  get_addrs, get_addr, get_v4,
}
use fluxpeer.Net.Disco.Valid.{IsDisco}
use fluxpeer.Net.Disco.RoundTrip.{decode-encode_disco}

abbrev candidate : SocketAddr
candidate = v4 (192 ∷ 168 ∷ 1 ∷ 5 ∷ []) 51820

abbrev candidate6 : SocketAddr
candidate6 = v6 (replicate 16 32) 443 0 0

abbrev start : Disco
start = call_me_maybe (candidate ∷ candidate6 ∷ [])

start-IsDisco : IsDisco start
start-IsDisco = (omega arith, ((refl, omega arith), ((refl, omega arith, refl, refl), tt)))

decode-encode_disco_example : decode (encode start ++ (9 ∷ [])) ≡ ok (start, length (encode start))
decode-encode_disco_example = decode-encode_disco start (9 ∷ []) start-IsDisco

abbrev received : List ℕ
received = 3 ∷ 0 ∷ 0 ∷ 0 ∷ 9 ∷ 0 ∷ 1 ∷ 4 ∷ 192 ∷ 168 ∷ 1 ∷ 5 ∷ 202 ∷ 108 ∷ 77 ∷ []

received_read : decode received ≡ ok (call_me_maybe (candidate ∷ []), 14)
unfolding decode from_be_bytes32 from_be_bytes16 decode_body decode_call_me_maybe get_addrs get_addr
    get_v4
received_read = refl

received-IsByte : All IsByte received
received-IsByte = ground arith
