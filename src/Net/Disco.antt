-- ===== src/Net/Disco.antt =====
-- engine/net/fp-disco/src/lib.rs: the messages that find a direct path, and their codec. Bytes are
-- numbers; the lengths of the arrays are part of `IsDisco`.
pub mod Valid
pub mod RoundTrip
pub mod Addresses
pub mod Canonical
mod Tests
use fluxpeer.Prelude.{
  ℕ, zero, suc, ◌+◌, ◌*◌, ◌%◌, ◌^◌, Bool, not, List, [], ◌∷◌, ◌++◌, ltb, ◌==◌, leb, if◌then◌else◌,
  length, take, drop, get_or, Result, ok, err, ◌>>=◌, ◌>>◌,
}
use fluxpeer.Prelude.Bytes.{to_be_bytes16, to_be_bytes32, from_be_bytes16, header_word}

abbrev pub t_ping : ℕ
t_ping = 1

abbrev pub t_pong : ℕ
t_pong = 2

abbrev pub t_call_me_maybe : ℕ
t_call_me_maybe = 3

abbrev pub key_len : ℕ
key_len = 32

abbrev pub txid_len : ℕ
txid_len = 12

abbrev pub header_len : ℕ
header_len = 1 + 4

abbrev pub af_v4 : ℕ
af_v4 = 4

abbrev pub af_v6 : ℕ
af_v6 = 6

abbrev pub max_candidates : ℕ
max_candidates = 64

-- A `SocketAddr`: the octets and the port, and for IPv6 also the flow information and the scope.
pub data SocketAddr : Type 0 where
  v4 : List ℕ → ℕ → SocketAddr
  v6 : List ℕ → ℕ → ℕ → ℕ → SocketAddr

pub data Disco : Type 0 where
  ping : List ℕ → List ℕ → Disco
  pong : List ℕ → SocketAddr → Disco
  call_me_maybe : List SocketAddr → Disco

-- `short_buffer need have`.
pub data Error : Type 0 where
  short_buffer : ℕ → ℕ → Error
  unknown_type : ℕ → Error
  malformed : Error
  too_many_candidates : ℕ → Error

unfoldable pub put_addr : SocketAddr → List ℕ
put_addr (v4 ip port) = af_v4 ∷ ip ++ to_be_bytes16 port
put_addr (v6 ip port flowinfo scope_id) = af_v6 ∷ ip ++ to_be_bytes16 port

-- The two families: the address, and the number of bytes that it took.
unfoldable pub get_v4 : List ℕ → Result (SocketAddr × ℕ) Error
get_v4 b =
    if ltb (length b) (1 + 4 + 2)
    then err malformed
    else ok (v4 (take 4 (drop 1 b)) (from_be_bytes16 (get_or b 5 0) (get_or b 6 0)), 1 + 4 + 2)

unfoldable pub get_v6 : List ℕ → Result (SocketAddr × ℕ) Error
get_v6 b =
    if ltb (length b) (1 + 16 + 2)
    then err malformed
    else ok
        (v6 (take 16 (drop 1 b)) (from_be_bytes16 (get_or b 17 0) (get_or b 18 0)) 0 0, 1 + 16 + 2)

unfoldable pub get_addr : List ℕ → Result (SocketAddr × ℕ) Error
get_addr b =
    if length b == 0
    then err malformed
    else if get_or b 0 0 == af_v4
    then get_v4 b
    else if get_or b 0 0 == af_v6
    then get_v6 b
    else err malformed

unfoldable pub type_byte : Disco → ℕ
type_byte (ping tx_id sender) = t_ping
type_byte (pong tx_id observed) = t_pong
type_byte (call_me_maybe candidates) = t_call_me_maybe

unfoldable pub put_addrs : List SocketAddr → List ℕ
put_addrs [] = []
put_addrs (c ∷ cs) = put_addr c ++ put_addrs cs

-- `candidates.len() as u16` keeps the low 16 bits.
unfoldable pub body : Disco → List ℕ
body (ping tx_id sender) = tx_id ++ sender
body (pong tx_id observed) = tx_id ++ put_addr observed
body (call_me_maybe candidates) = to_be_bytes16 (length candidates % 2 ^ 16) ++ put_addrs candidates

unfoldable pub encode : Disco → List ℕ
encode m = type_byte m ∷ to_be_bytes32 (length (body m) % 2 ^ 32) ++ body m

unfoldable pub decode_ping : List ℕ → Result Disco Error
decode_ping b =
    if not (length b == txid_len + key_len)
    then err malformed
    else ok (ping (take txid_len b) (drop txid_len b))

unfoldable pub decode_pong : List ℕ → Result Disco Error
decode_pong b = if ltb (length b) txid_len then err malformed else (do
  (observed, n) ← get_addr (drop txid_len b)
  if not (txid_len + n == length b) then err malformed else ok (pong (take txid_len b) observed))

-- The loop over the candidates: those from `off` on, and where the last one ends.
unfoldable pub get_addrs : ℕ → List ℕ → ℕ → Result (List SocketAddr × ℕ) Error
get_addrs zero b off = ok ([], off)
get_addrs (suc count) b off = do
  (a, n) ← get_addr (drop off b)
  (rest, end) ← get_addrs count b (off + n)
  ok (a ∷ rest, end)

unfoldable pub decode_call_me_maybe : List ℕ → Result Disco Error
decode_call_me_maybe b =
    let count = from_be_bytes16 (get_or b 0 0) (get_or b 1 0) in
    if ltb (length b) 2
    then err malformed
    else if ltb max_candidates count
    then err (too_many_candidates count)
    else (do
      (candidates, off) ← get_addrs count b 2
      if not (off == length b) then err malformed else ok (call_me_maybe candidates))

-- The `match ty`.
unfoldable pub decode_body : ℕ → List ℕ → Result Disco Error
decode_body ty b =
    if ty == t_ping
    then decode_ping b
    else if ty == t_pong
    then decode_pong b
    else if ty == t_call_me_maybe
    then decode_call_me_maybe b
    else err (unknown_type ty)

-- The message, and the number of bytes that it took.
unfoldable pub decode : List ℕ → Result (Disco × ℕ) Error
decode buf =
    let total = header_len + header_word buf in
    if ltb (length buf) header_len
    then err (short_buffer header_len (length buf))
    else if ltb (length buf) total
    then err (short_buffer total (length buf))
    else (do
      m ← decode_body (get_or buf 0 0) (take (header_word buf) (drop header_len buf))
      ok (m, total))
