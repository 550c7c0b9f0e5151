-- ===== src/Node/Gso/Order.antt =====
-- The batches change nothing of what goes out: each datagram, whole and in order.
use fluxpeer.Prelude.{
  ℕ, ◌+◌, ◌%◌, ◌^◌, ◌<◌, ◌≤◌, ◌≡◌, ◌≢◌, ◌⊎◌, inl, inr, refl, ap, sym, ◌∙◌, Bool, true, false, List,
  [], ◌∷◌, ◌++◌, some, ltb, ◌==◌, length, max, All, All-append, arith, length-append, Bool-cases,
}
use mathlib.Core.List.{append-nil}
use fluxpeer.Node.Gso.{
  max_batch_bytes, Answer, accepted, rejected, gone, next_answer, chunks, Udp, GsoBatch, new,
  send_to, to_dst, send_split, send_segmented, cleared, flush_run, flush, started, extended,
}
use fluxpeer.Node.Gso.Chunks.{concat, concat-append, Sized, length-concat, chunks-concat}

abbrev pub IsLive : List Answer → Type 0
IsLive = All (λ a. a ≢ gone)

next_answer-IsLive :
    (answers : List Answer)
    → IsLive answers
    → ((next_answer answers).0 ≢ gone) × IsLive (next_answer answers).1
unfolding next_answer
next_answer-IsLive [] live = (λ e. cc, tt)
next_answer-IsLive (a ∷ others) live = live

Answer-cases : (a : Answer) → (a ≡ accepted) ⊎ ((a ≡ rejected) ⊎ (a ≡ gone))
Answer-cases accepted = inl refl
Answer-cases rejected = inr (inl refl)
Answer-cases gone = inr (inr refl)

module _ {SocketAddr : Type 0} where
  -- `ps` wait in the batch for `dst`.
  pub record Holds (b : GsoBatch SocketAddr) (dst : SocketAddr) (ps : List (List ℕ)) : Type 0 where
    pub bytes : b.buf ≡ concat ps
    pub counted : b.count ≡ length ps
    pub sized : Sized b.seg ps
    pub at : 0 < length ps → b.dst ≡ some dst
    pub some_bytes : 0 < length ps → 0 < b.seg
    pub bounded : 1 < length ps → length b.buf ≤ max_batch_bytes

  pub new-Holds : (off : Bool) (dst : SocketAddr) → Holds (new off) dst []
  unfolding new concat
  new-Holds off dst = record {
    bytes = refl;
    counted = refl;
    sized = tt;
    at = λ h. absurd (omega arith);
    some_bytes = λ h. absurd (omega arith);
    bounded = λ h. absurd (omega arith);
  }

  cleared-Holds : (b : GsoBatch SocketAddr) (dst : SocketAddr) → Holds (cleared b) dst []
  unfolding cleared concat
  cleared-Holds b dst = record {
    bytes = refl;
    counted = refl;
    sized = tt;
    at = λ h. absurd (omega arith);
    some_bytes = λ h. absurd (omega arith);
    bounded = λ h. absurd (omega arith);
  }

  -- What a flush of these gives.
  pub record Flushed (udp : Udp SocketAddr) (b : GsoBatch SocketAddr)
      (out : List (List ℕ × SocketAddr)) (r : Udp SocketAddr × GsoBatch SocketAddr) : Type 0 where
    pub sent : r.0.sent ≡ udp.sent ++ out
    pub live : IsLive r.0.answers
    pub empty : (dst : SocketAddr) → Holds r.1 dst []
    pub kept : r.1.disabled ≡ b.disabled

  split-sent :
      (udp : Udp SocketAddr) (buf : List ℕ) (ps : List (List ℕ)) (seg : ℕ) (dst : SocketAddr)
      → buf ≡ concat ps
      → 0 < seg
      → Sized seg ps
      → (send_split udp buf seg dst).sent ≡ udp.sent ++ to_dst dst ps
  unfolding send_split
  split-sent udp buf ps seg dst bytes pos h =
      let n : max seg 1 ≡ seg = omega arith in
      rw (n, ap (chunks seg) bytes ∙ chunks-concat seg ps pos h) refl

  segmented-sent :
      (udp : Udp SocketAddr) (buf : List ℕ) (ps : List (List ℕ)) (seg : ℕ) (dst : SocketAddr)
      → buf ≡ concat ps
      → 0 < seg
      → seg < 2 ^ 16
      → Sized seg ps
      → IsLive udp.answers
      → let r = send_segmented udp buf seg dst in
        IsLive r.0.answers
        × (((r.1 ≡ true) × (r.0.sent ≡ udp.sent ++ to_dst dst ps))
            ⊎ ((r.1 ≡ false) × (r.0.sent ≡ udp.sent)))
  unfolding send_segmented
  segmented-sent udp buf ps seg dst bytes pos small h live =
      let n : seg % 2 ^ 16 ≡ seg = omega arith in
      let (alive, rest) = next_answer-IsLive udp.answers live in
      let pieces = ap (chunks seg) bytes ∙ chunks-concat seg ps pos h in
      elim (Answer-cases (next_answer udp.answers).0) [
        | inl yes_ ↦ rw (yes_, send_segmented, n, pieces) (rest, inl (refl, refl))
        | inr (inl no_) ↦ rw (no_, send_segmented) (rest, inr (refl, refl))
        | inr (inr over) ↦ absurd (alive over)
      ]

  flush_run-Flushed :
      (udp : Udp SocketAddr) (b : GsoBatch SocketAddr) (dst : SocketAddr) (ps : List (List ℕ))
      → b.buf ≡ concat ps
      → 0 < b.seg
      → b.seg < 2 ^ 16
      → Sized b.seg ps
      → IsLive udp.answers
      → Flushed udp b (to_dst dst ps) (flush_run udp b dst)
  unfolding flush_run cleared send_split
  flush_run-Flushed udp b dst ps bytes pos small h live =
      let (alive, how) = segmented-sent udp b.buf ps b.seg dst bytes pos small h live in
      elim (Bool-cases b.gso_ok) [
        | inr off ↦ simp off (record {
          sent = split-sent udp b.buf ps b.seg dst bytes pos h;
          live = live;
          empty = λ d. cleared-Holds (record b { gso_ok = false }) d;
          kept = refl;
        })
        | inl on ↦ elim how [
          | inl (done, out) ↦
              simp (on, done)
                (record {
                  sent = out;
                  live = alive;
                  empty = λ d. cleared-Holds (record b { gso_ok = true }) d;
                  kept = refl;
                })
          | inr (done, same) ↦
              simp (on, done)
                (record {
                  sent =
                      split-sent (send_segmented udp b.buf b.seg dst).0 b.buf ps b.seg dst bytes pos
                        h
                      ∙ ap (λ z. z ++ to_dst dst ps) same;
                  live = alive;
                  empty = λ d. cleared-Holds (record b { gso_ok = false }) d;
                  kept = refl;
                })
        ]
      ]

  pub flush-sent :
      (udp : Udp SocketAddr) (b : GsoBatch SocketAddr) (dst : SocketAddr) (ps : List (List ℕ))
      → Holds b dst ps
      → IsLive udp.answers
      → Flushed udp b (to_dst dst ps) (flush udp b)
  unfolding flush to_dst send_to concat cleared
  flush-sent udp b dst [] h live =
      let none_ : (b.count == 0) ≡ true = ground (arith, h.counted) in
      rw (none_, flush)
        (record {
          sent = sym (append-nil udp.sent);
          live = live;
          empty = λ d. record {
            bytes = h.bytes;
            counted = h.counted;
            sized = tt;
            at = λ z. absurd (omega arith);
            some_bytes = λ z. absurd (omega arith);
            bounded = λ z. absurd (omega arith);
          };
          kept = refl;
        })
  flush-sent udp b dst (p ∷ []) h live =
      let one : (b.count == 0) ≡ false = ground (arith, h.counted) in
      let only : (b.count == 1) ≡ true = ground (arith, h.counted) in
      let whole : b.buf ≡ p = h.bytes ∙ append-nil p in
      rw (one, flush, h.at (omega arith), only)
        (record {
          sent = ap (λ z. udp.sent ++ ((z, dst) ∷ [])) whole;
          live = live;
          empty = λ d. cleared-Holds b d;
          kept = refl;
        })
  flush-sent udp b dst (p ∷ q ∷ ps) h live =
      let many : (b.count == 0) ≡ false = ground (arith, h.counted) in
      let more : (b.count == 1) ≡ false = ground (arith, h.counted) in
      let pos = h.some_bytes (omega arith) in
      let bound = h.bounded (omega arith) in
      let small : b.seg < 2 ^ 16 =
        grind (arith, h.bytes, length-concat b.seg (p ∷ q ∷ ps) h.sized, bound) in
      simp (many, flush, h.at (omega arith), more)
        (flush_run-Flushed udp b dst (p ∷ q ∷ ps) h.bytes pos small h.sized live)

  -- A state of the sender after `done` datagrams were pushed: what the system has, with what waits.
  pub record Tracks (udp : Udp SocketAddr) (b : GsoBatch SocketAddr)
      (done : List (List ℕ × SocketAddr)) : Type 0 where
    pub dst : SocketAddr
    pub waiting : List (List ℕ)
    pub holds : Holds b dst waiting
    pub live : IsLive udp.answers
    pub order : udp.sent ++ to_dst dst waiting ≡ done
    pub off : b.disabled ≡ true → waiting ≡ []

  -- One that starts a batch.
  pub start-Holds :
      (b : GsoBatch SocketAddr) (dst d : SocketAddr) (pkt : List ℕ)
      → Holds b d []
      → 0 < length pkt
      → let grown = extended (started b dst pkt) pkt in
        Holds grown dst (pkt ∷ []) × (ltb (length pkt) grown.seg ≡ false)
  unfolding started extended concat
  start-Holds b dst d pkt h pos =
      let fresh : (b.count == 0) ≡ true = ground (arith, h.counted) in
      let none_ : b.buf ≡ [] = h.bytes in
      simp fresh (
        record {
          bytes = ap (λ z. z ++ pkt) none_ ∙ sym (append-nil pkt);
          counted = omega (arith, h.counted);
          sized = (refl, tt);
          at = λ z. refl;
          some_bytes = λ z. pos;
          bounded = λ z. absurd (omega arith);
        },
        ground arith,
      )

  -- One that the batch can take.
  pub extend-Holds :
      (b : GsoBatch SocketAddr) (dst : SocketAddr) (p : List ℕ) (ps : List (List ℕ)) (pkt : List ℕ)
      → Holds b dst (p ∷ ps)
      → length pkt ≡ b.seg
      → length b.buf + length pkt ≤ max_batch_bytes
      → let grown = extended (started b dst pkt) pkt in
        Holds grown dst ((p ∷ ps) ++ (pkt ∷ [])) × (ltb (length pkt) grown.seg ≡ false)
  unfolding started extended concat
  extend-Holds b dst p ps pkt h size room =
      let old : (b.count == 0) ≡ false = ground (arith, h.counted) in
      simp old (
        record {
          bytes =
              ap (λ z. z ++ pkt) h.bytes
              ∙ ap (λ z. concat (p ∷ ps) ++ z) (sym (append-nil pkt))
              ∙ sym (concat-append (p ∷ ps) (pkt ∷ []));
          counted = omega (arith, h.counted, length-append (p ∷ ps) (pkt ∷ []));
          sized = All-append _ (p ∷ ps) (pkt ∷ []) h.sized (size, tt);
          at = λ z. h.at (omega arith);
          some_bytes = λ z. h.some_bytes (omega arith);
          bounded = λ z. omega (arith, length-append b.buf pkt);
        },
        ground arith,
      )
