-- ===== src/Relay/Proto.antt =====
-- relay-server/src/proto.rs: the frames of the relay protocol and their codec. A `Vec<u8>`, a
-- `&[u8]` and a `[u8; N]` are lists of numbers; the lengths of the arrays are part of `IsFrame`.
pub mod Valid
pub mod RoundTrip
pub mod Decode
pub mod Canonical
pub mod Prefix
mod Tests
use fluxpeer.Prelude.{
  ℕ, ◌+◌, ◌*◌, ◌%◌, ◌^◌, Bool, not, List, [], ◌∷◌, ◌++◌, ltb, ◌==◌, leb, if◌then◌else◌, length,
  take, drop, get_or, Result, ok, err, ◌>>=◌, ◌>>◌,
}
use fluxpeer.Prelude.Bytes.{to_be_bytes32, from_be_bytes32}

abbrev pub max_packet_size : ℕ
max_packet_size = 64 * 1024

abbrev pub t_client_info : ℕ
t_client_info = 1

abbrev pub t_server_info : ℕ
t_server_info = 2

abbrev pub t_send_packet : ℕ
t_send_packet = 3

abbrev pub t_recv_packet : ℕ
t_recv_packet = 4

abbrev pub t_ping : ℕ
t_ping = 5

abbrev pub t_pong : ℕ
t_pong = 6

abbrev pub t_peer_gone : ℕ
t_peer_gone = 7

abbrev pub t_health : ℕ
t_health = 8

abbrev pub t_restarting : ℕ
t_restarting = 9

abbrev pub key_len : ℕ
key_len = 32

abbrev pub header_len : ℕ
header_len = 1 + 4

abbrev pub PublicKey : Type 0
PublicKey = List ℕ

pub data Frame : Type 0 where
  client_info : PublicKey → ℕ → Frame
  server_info : ℕ → Frame
  send_packet : PublicKey → List ℕ → Frame
  recv_packet : PublicKey → List ℕ → Frame
  ping : List ℕ → Frame
  pong : List ℕ → Frame
  peer_gone : PublicKey → Frame
  health : Frame
  restarting : Frame

-- `short_buffer need have`.
pub data Error : Type 0 where
  short_buffer : ℕ → ℕ → Error
  unknown_type : ℕ → Error
  bad_length : ℕ → Error
  too_large : ℕ → Error

unfoldable pub type_byte : Frame → ℕ
type_byte (client_info k v) = t_client_info
type_byte (server_info v) = t_server_info
type_byte (send_packet k p) = t_send_packet
type_byte (recv_packet k p) = t_recv_packet
type_byte (ping d) = t_ping
type_byte (pong d) = t_pong
type_byte (peer_gone k) = t_peer_gone
type_byte health = t_health
type_byte restarting = t_restarting

unfoldable pub body : Frame → List ℕ
body (client_info pubkey protocol_version) = pubkey ++ to_be_bytes32 protocol_version
body (server_info protocol_version) = to_be_bytes32 protocol_version
body (send_packet dst payload) = dst ++ payload
body (recv_packet src payload) = src ++ payload
body (ping d) = d
body (pong d) = d
body (peer_gone pubkey) = pubkey
body health = []
body restarting = []

-- `body.len() as u32` keeps the low 32 bits.
unfoldable pub encode : Frame → List ℕ
unfolding type_byte body
encode f = type_byte f ∷ to_be_bytes32 (length (body f) % 2 ^ 32) ++ body f

-- `b.get(..KEY_LEN)`.
unfoldable pub key : List ℕ → Result PublicKey Error
key b = if leb key_len (length b) then ok (take key_len b) else err (bad_length (length b))

-- The bytes that `s[0]` to `s[3]` name; the default is read on no path where the length was tested.
abbrev pub word_at : List ℕ → ℕ → ℕ
word_at b i =
    from_be_bytes32 (get_or b i 0) (get_or b (i + 1) 0) (get_or b (i + 2) 0) (get_or b (i + 3) 0)

unfoldable pub be_u32 : List ℕ → Result ℕ Error
be_u32 b = if leb 4 (length b) then ok (word_at b 0) else err (bad_length (length b))

unfoldable pub decode_client_info : List ℕ → Result Frame Error
unfolding key be_u32
decode_client_info b =
    if not (length b == key_len + 4)
    then err (bad_length (length b))
    else (do k ← key b; v ← be_u32 (drop key_len b); ok (client_info k v))

unfoldable pub decode_server_info : List ℕ → Result Frame Error
unfolding be_u32
decode_server_info b =
    if not (length b == 4)
    then err (bad_length (length b))
    else (do v ← be_u32 b; ok (server_info v))

unfoldable pub decode_packet : ℕ → List ℕ → Result Frame Error
unfolding key
decode_packet ty b =
    let payload = drop key_len b in
    if ltb (length b) key_len
    then err (bad_length (length b))
    else if ltb max_packet_size (length payload)
    then err (too_large (length payload))
    else (do
      k ← key b
      ok (if ty == t_send_packet then send_packet k payload else recv_packet k payload))

unfoldable pub decode_ping : ℕ → List ℕ → Result Frame Error
decode_ping ty b =
    if not (length b == 8)
    then err (bad_length (length b))
    else ok (if ty == t_ping then ping b else pong b)

unfoldable pub decode_peer_gone : List ℕ → Result Frame Error
unfolding key
decode_peer_gone b =
    if not (length b == key_len)
    then err (bad_length (length b))
    else (do k ← key b; ok (peer_gone k))

-- The `match ty`.
unfoldable pub decode_body : ℕ → List ℕ → Result Frame Error
decode_body ty b =
    if ty == t_client_info
    then decode_client_info b
    else if ty == t_server_info
    then decode_server_info b
    else if ty == t_send_packet
    then decode_packet ty b
    else if ty == t_recv_packet
    then decode_packet ty b
    else if ty == t_ping
    then decode_ping ty b
    else if ty == t_pong
    then decode_ping ty b
    else if ty == t_peer_gone
    then decode_peer_gone b
    else if ty == t_health
    then ok health
    else if ty == t_restarting
    then ok restarting
    else err (unknown_type ty)

-- The frame, and the number of bytes that it took.
unfoldable pub decode : List ℕ → Result (Frame × ℕ) Error
decode buf =
    let len = word_at buf 1 in
    let total = header_len + len in
    if ltb (length buf) header_len
    then err (short_buffer header_len (length buf))
    else if ltb (max_packet_size + key_len) len
    then err (too_large len)
    else if ltb (length buf) total
    then err (short_buffer total (length buf))
    else (do f ← decode_body (get_or buf 0 0) (take len (drop header_len buf)); ok (f, total))
