-- ===== src/Node/Gso.antt =====
-- node/src/gso.rs: the batching of the datagrams that are sent. The socket is a log of the
-- datagrams that the system was given, with the answers that it will give to the calls of
-- `sendmsg`.
pub mod Chunks
pub mod Order
pub mod Wire
mod Tests
use fluxpeer.Prelude.{
  ℕ, zero, suc, ◌+◌, ◌*◌, ◌%◌, ◌^◌, Bool, true, false, not, ◌&&◌, ◌||◌, List, [], ◌∷◌, ◌++◌, Option,
  none, some, ltb, ◌==◌, if◌then◌else◌, length, take, drop, map, max, Eq, ◌≟◌, ite,
}

abbrev pub max_batch_bytes : ℕ
max_batch_bytes = 60 * 1024

-- How the system answers a segmented send: it splits the buffer, it does not know the option, or
-- the socket is gone, which counts as sent.
pub data Answer : Type 0 where
  accepted rejected gone : Answer

-- The first answer, and the others; the system accepts where no answer is foreseen.
unfoldable pub next_answer : List Answer → Answer × List Answer
next_answer [] = (accepted, [])
next_answer (a ∷ others) = (a, others)

-- `buf.chunks(n)`, where `k` is no less than the number of chunks.
unfoldable pub chunks_go : ℕ → ℕ → List ℕ → List (List ℕ)
chunks_go zero n buf = []
chunks_go (suc k) n buf =
    let rest = chunks_go k n (drop n buf) in if length buf == 0 then [] else take n buf ∷ rest

unfoldable pub chunks : ℕ → List ℕ → List (List ℕ)
chunks n buf = chunks_go (length buf) n buf

pub record Udp (SocketAddr : Type 0) : Type 0 where
  pub sent : List (List ℕ × SocketAddr)
  pub answers : List Answer

pub record GsoBatch (SocketAddr : Type 0) : Type 0 where
  pub buf : List ℕ
  pub seg : ℕ
  pub dst : Option SocketAddr
  pub count : ℕ
  pub gso_ok : Bool
  pub disabled : Bool

module _ {SocketAddr : Type 0} where
  -- With what `FP_NOGSO` says.
  unfoldable pub new : Bool → GsoBatch SocketAddr
  new disabled = record {
    buf = [];
    seg = 0;
    dst = none;
    count = 0;
    gso_ok = true;
    disabled = disabled;
  }

  unfoldable pub send_to : Udp SocketAddr → List ℕ → SocketAddr → Udp SocketAddr
  send_to udp pkt dst = record udp { sent = udp.sent ++ ((pkt, dst) ∷ []) }

  -- Datagrams for one destination.
  unfoldable pub to_dst : SocketAddr → List (List ℕ) → List (List ℕ × SocketAddr)
  to_dst dst pkts = map (λ pkt. (pkt, dst)) pkts

  unfoldable pub send_split : Udp SocketAddr → List ℕ → ℕ → SocketAddr → Udp SocketAddr
  send_split udp buf seg dst = record udp { sent = udp.sent ++ to_dst dst (chunks (max seg 1) buf) }

  -- The size of a segment is given to the system as a `u16`.
  unfoldable pub send_segmented : Udp SocketAddr → List ℕ → ℕ → SocketAddr → Udp SocketAddr × Bool
  send_segmented udp buf seg dst =
      let (answer, answers) = next_answer udp.answers in
      let udp' = record udp { answers = answers } in
      elim answer [
        | accepted ↦
            (record udp' { sent = udp.sent ++ to_dst dst (chunks (seg % 2 ^ 16) buf) }, true)
        | rejected ↦ (udp', false)
        | gone ↦ (udp', true)
      ]

  unfoldable pub cleared : GsoBatch SocketAddr → GsoBatch SocketAddr
  cleared b = record b { buf = []; seg = 0; dst = none; count = 0 }

  -- A run of two or more: once the system has rejected the option, it is not asked again.
  unfoldable pub flush_run :
      Udp SocketAddr → GsoBatch SocketAddr → SocketAddr → Udp SocketAddr × GsoBatch SocketAddr
  flush_run udp b dst =
      let tried = send_segmented udp b.buf b.seg dst in
      if not b.gso_ok
      then (send_split udp b.buf b.seg dst, record (cleared b) { gso_ok = false })
      else if tried.1
      then (tried.0, cleared b)
      else (send_split tried.0 b.buf b.seg dst, record (cleared b) { gso_ok = false })

  unfoldable pub flush : Udp SocketAddr → GsoBatch SocketAddr → Udp SocketAddr × GsoBatch SocketAddr
  flush udp b = if b.count == 0 then (udp, b) else elim b.dst [
    | none ↦ (udp, cleared b)
    | some dst ↦ if b.count == 1 then (send_to udp b.buf dst, cleared b) else flush_run udp b dst
  ]

  -- The first datagram of a batch gives it the size and the destination.
  unfoldable pub started : GsoBatch SocketAddr → SocketAddr → List ℕ → GsoBatch SocketAddr
  started b dst pkt = if b.count == 0 then record b { seg = length pkt; dst = some dst } else b

  unfoldable pub extended : GsoBatch SocketAddr → List ℕ → GsoBatch SocketAddr
  extended b pkt = record b { buf = b.buf ++ pkt; count = b.count + 1 }

module _ {SocketAddr : Type 0} ⦃e : Eq SocketAddr⦄ where
  -- The batch cannot take this datagram.
  unfoldable pub must_flush : GsoBatch SocketAddr → SocketAddr → List ℕ → Bool
  must_flush b dst pkt =
      elim b.dst [ none ↦ true | some d ↦ ite (d ≟ dst) false true ]
      || ltb 0 b.count && not (length pkt == b.seg)
      || ltb max_batch_bytes (length b.buf + length pkt)

  unfoldable pub push :
      Udp SocketAddr
      → GsoBatch SocketAddr
      → SocketAddr
      → List ℕ
      → Udp SocketAddr × GsoBatch SocketAddr
  push udp b dst pkt =
      let flushed = if must_flush b dst pkt then flush udp b else (udp, b) in
      let grown = extended (started flushed.1 dst pkt) pkt in
      if b.disabled
      then (send_to udp pkt dst, b)
      else if ltb (length pkt) grown.seg
      then flush flushed.0 grown
      else (flushed.0, grown)
