-- ===== src/Net/Disco/Valid.antt =====
-- The messages that the Rust types allow, and that the decoder accepts.
use fluxpeer.Prelude.{◌<◌, ◌*◌, ◌≤◌, ◌≡◌, List, [], ◌∷◌, All, arith, length, length-append}
use fluxpeer.Prelude.Bytes.{IsU16, to_be_bytes16}
use fluxpeer.Net.Disco.{
  SocketAddr, v4, v6, Disco, ping, pong, call_me_maybe, key_len, txid_len, max_candidates, put_addr,
  put_addrs, body,
}

-- An address with no flow information and no scope, which the wire does not carry.
abbrev pub IsAddr : SocketAddr → Type 0
IsAddr (v4 ip port) = (length ip ≡ 4) × IsU16 port
IsAddr (v6 ip port flowinfo scope_id) =
    (length ip ≡ 16) × IsU16 port × (flowinfo ≡ 0) × (scope_id ≡ 0)

abbrev pub IsDisco : Disco → Type 0
IsDisco (ping tx_id sender) = (length tx_id ≡ txid_len) × (length sender ≡ key_len)
IsDisco (pong tx_id observed) = (length tx_id ≡ txid_len) × IsAddr observed
IsDisco (call_me_maybe candidates) = (length candidates ≤ max_candidates) × All IsAddr candidates

pub length-put_addr-le : (a : SocketAddr) → IsAddr a → length (put_addr a) ≤ 19
unfolding put_addr to_be_bytes16
length-put_addr-le (v4 ip port) h = omega (arith, length-append ip (to_be_bytes16 port))
length-put_addr-le (v6 ip port _ _) h = omega (arith, length-append ip (to_be_bytes16 port))

pub length-put_addrs-le :
    (cs : List SocketAddr) → All IsAddr cs → length (put_addrs cs) ≤ 19 * length cs
unfolding put_addrs
length-put_addrs-le [] h = omega arith
length-put_addrs-le (c ∷ cs) h = omega (
  arith,
  length-append (put_addr c) (put_addrs cs),
  length-put_addr-le c h.0,
  length-put_addrs-le cs h.1,
)

pub length-body-small : (m : Disco) → IsDisco m → length (body m) < 2048
unfolding body to_be_bytes16
length-body-small (ping tx_id sender) h = omega (arith, length-append tx_id sender)
length-body-small (pong tx_id observed) h =
    omega (arith, length-append tx_id (put_addr observed), length-put_addr-le observed h.1)
length-body-small (call_me_maybe candidates) h = omega (arith, length-put_addrs-le candidates h.1)
