-- ===== src/Node/Gso/Wire.antt =====
-- Whatever is pushed goes out in order.
use fluxpeer.Prelude.{
  ℕ, ◌+◌, ◌<◌, ◌≤◌, ◌≡◌, ◌≢◌, inl, inr, refl, ap, sym, ◌∙◌, Bool, true, false, List, [], ◌∷◌, ◌++◌,
  some, ltb, ◌==◌, if◌then◌else◌, length, Eq, ◌≟◌, All, arith, Bool-cases, Option-cases,
}
use mathlib.Core.Path.{subst}
use mathlib.Core.List.{append_assoc, append-nil}
use fluxpeer.Node.Gso.{
  max_batch_bytes, Udp, GsoBatch, new, send_to, to_dst, flush, must_flush, started, extended, push,
}
use fluxpeer.Node.Gso.Order.{
  Holds, new-Holds, flush-sent, Tracks, IsLive, start-Holds, extend-Holds,
}

module _ {SocketAddr : Type 0} where
  to_dst-append :
      (dst : SocketAddr) (ps qs : List (List ℕ))
      → to_dst dst (ps ++ qs) ≡ to_dst dst ps ++ to_dst dst qs
  unfolding to_dst
  to_dst-append dst [] qs = refl
  to_dst-append dst (p ∷ ps) qs = ap (λ z. (p, dst) ∷ z) (to_dst-append dst ps qs)

module _ {SocketAddr : Type 0} ⦃e : Eq SocketAddr⦄ where
  must_flush_lem :
      (b : GsoBatch SocketAddr) (dst : SocketAddr) (pkt : List ℕ)
      → must_flush b dst pkt ≡ false
      → (b.dst ≡ some dst)
        × (0 < b.count → length pkt ≡ b.seg)
        × (length b.buf + length pkt ≤ max_batch_bytes)
  unfolding must_flush
  must_flush_lem b dst pkt h = elim (Option-cases b.dst) [
    | inl no_dst ↦ cc (rw (no_dst, must_flush) at h)
    | inr (d, at) ↦ elim (d ≟ dst) [
      | yes same ↦ (at ∙ ap some same, λ z. ground arith, ground arith)
      | no other ↦ absurd (ground arith)
    ]
  ]

  -- The batch after a push that is not one of a disabled batch.
  push_on :
      (udp : Udp SocketAddr) (b : GsoBatch SocketAddr) (dst : SocketAddr) (pkt : List ℕ)
      → b.disabled ≡ false
      → let flushed = if must_flush b dst pkt then flush udp b else (udp, b) in
        let grown = extended (started flushed.1 dst pkt) pkt in
        ltb (length pkt) grown.seg ≡ false → push udp b dst pkt ≡ (flushed.0, grown)
  unfolding push
  push_on udp b dst pkt on last = simp (on, last) refl

  grown-disabled :
      (b : GsoBatch SocketAddr) (dst : SocketAddr) (pkt : List ℕ)
      → (extended (started b dst pkt) pkt).disabled ≡ b.disabled
  unfolding started extended
  grown-disabled b dst pkt = elim (Bool-cases (b.count == 0)) [
    | inl first ↦ simp first refl
    | inr later ↦ simp later refl
  ]

  module _ (udp : Udp SocketAddr) (b : GsoBatch SocketAddr) (done : List (List ℕ × SocketAddr))
      (dst : SocketAddr) (pkt : List ℕ) (t : Tracks udp b done) (pos : 0 < length pkt) where
    push_disabled :
        b.disabled ≡ true
        → Tracks (push udp b dst pkt).0 (push udp b dst pkt).1 (done ++ ((pkt, dst) ∷ []))
    unfolding push send_to to_dst
    push_disabled off =
        let none_ = t.off off in
        let same : push udp b dst pkt ≡ (send_to udp pkt dst, b) = simp off refl in
        subst (λ r. Tracks r.0 r.1 (done ++ ((pkt, dst) ∷ []))) (sym same)
          (record {
            dst = t.dst;
            waiting = [];
            holds = subst (λ w. Holds b t.dst w) none_ t.holds;
            live = t.live;
            order =
                append-nil (udp.sent ++ ((pkt, dst) ∷ []))
                ∙ ap (λ z. z ++ ((pkt, dst) ∷ []))
                    (sym (append-nil udp.sent)
                      ∙ ap (λ w. udp.sent ++ to_dst t.dst w) (sym none_)
                      ∙ t.order);
            off = λ z. refl;
          })

    -- A batch that went out before.
    push_flushed :
        b.disabled ≡ false
        → must_flush b dst pkt ≡ true
        → Tracks (push udp b dst pkt).0 (push udp b dst pkt).1 (done ++ ((pkt, dst) ∷ []))
          × ((push udp b dst pkt).1.count ≢ 0)
    unfolding to_dst
    push_flushed on must =
        let f = flush-sent udp b t.dst t.waiting t.holds t.live in
        let b' = (flush udp b).1 in
        let (h, last) = start-Holds b' dst dst pkt (f.empty dst) pos in
        let same = push_on udp b dst pkt on (rw must last) in
        let at : push udp b dst pkt ≡ ((flush udp b).0, extended (started b' dst pkt) pkt) =
          same ∙ simp must refl in
        subst (λ r. Tracks r.0 r.1 (done ++ ((pkt, dst) ∷ [])) × (r.1.count ≢ 0)) (sym at)
          (
            record {
              dst = dst;
              waiting = pkt ∷ [];
              holds = h;
              live = f.live;
              order = ap (λ z. z ++ ((pkt, dst) ∷ [])) (f.sent ∙ t.order);
              off = λ z. cc (grown-disabled b' dst pkt, f.kept);
            },
            λ z. omega (arith, h.counted),
          )

    to_grown :
        (qs : List (List ℕ))
        → b.disabled ≡ false
        → must_flush b dst pkt ≡ false
        → Holds (extended (started b dst pkt) pkt) dst qs
          × (ltb (length pkt) (extended (started b dst pkt) pkt).seg ≡ false)
        → 0 < length qs
        → udp.sent ++ to_dst dst qs ≡ done ++ ((pkt, dst) ∷ [])
        → Tracks (push udp b dst pkt).0 (push udp b dst pkt).1 (done ++ ((pkt, dst) ∷ []))
          × ((push udp b dst pkt).1.count ≢ 0)
    to_grown qs on must (h, last) some_pkt order =
        let same = push_on udp b dst pkt on (rw must last) in
        let at : push udp b dst pkt ≡ (udp, extended (started b dst pkt) pkt) =
          same ∙ simp must refl in
        subst (λ r. Tracks r.0 r.1 (done ++ ((pkt, dst) ∷ [])) × (r.1.count ≢ 0)) (sym at)
          (
            record {
              dst = dst;
              waiting = qs;
              holds = h;
              live = t.live;
              order = order;
              off = λ z. cc (grown-disabled b dst pkt);
            },
            λ z. omega (arith, h.counted),
          )

    push_grown :
        b.disabled ≡ false
        → must_flush b dst pkt ≡ false
        → (ps : List (List ℕ)) → t.waiting ≡ ps
        → Tracks (push udp b dst pkt).0 (push udp b dst pkt).1 (done ++ ((pkt, dst) ∷ []))
          × ((push udp b dst pkt).1.count ≢ 0)
    unfolding to_dst
    push_grown on must [] same =
        to_grown (pkt ∷ []) on must
          (start-Holds b dst t.dst pkt (subst (λ w. Holds b t.dst w) same t.holds) pos)
          (omega arith)
          (ap (λ z. z ++ ((pkt, dst) ∷ []))
            (sym (append-nil udp.sent) ∙ ap (λ w. udp.sent ++ to_dst t.dst w) (sym same) ∙ t.order))
    push_grown on must (p ∷ ps) same =
        let (at, size, room) = must_flush_lem b dst pkt must in
        let old = subst (λ w. Holds b t.dst w) same t.holds in
        let to : t.dst ≡ dst = cc (old.at (omega arith), at) in
        let h = subst (λ d. Holds b d (p ∷ ps)) to old in
        let order =
          sym (ap (λ d. udp.sent ++ to_dst d (p ∷ ps)) to)
          ∙ ap (λ w. udp.sent ++ to_dst t.dst w) (sym same)
          ∙ t.order in
        to_grown ((p ∷ ps) ++ (pkt ∷ [])) on must
          (extend-Holds b dst p ps pkt h (size (omega (arith, h.counted))) room) (omega arith)
          (ap (λ z. udp.sent ++ z) (to_dst-append dst (p ∷ ps) (pkt ∷ []))
            ∙ sym (append_assoc udp.sent (to_dst dst (p ∷ ps)) ((pkt, dst) ∷ []))
            ∙ ap (λ z. z ++ ((pkt, dst) ∷ [])) order)

  -- A push keeps the order. Unless batching is off, it leaves the datagram waiting: one that is
  -- shorter than the ones before it ends their batch and starts the next.
  pub push-Tracks :
      (udp : Udp SocketAddr) (b : GsoBatch SocketAddr) (done : List (List ℕ × SocketAddr))
      (dst : SocketAddr) (pkt : List ℕ)
      → Tracks udp b done
      → 0 < length pkt
      → Tracks (push udp b dst pkt).0 (push udp b dst pkt).1 (done ++ ((pkt, dst) ∷ []))
        × (b.disabled ≡ false → (push udp b dst pkt).1.count ≢ 0)
  push-Tracks udp b done dst pkt t pos = elim (Bool-cases b.disabled) [
    | inl off ↦ (push_disabled udp b done dst pkt t pos off, λ on. cc)
    | inr on ↦ elim (Bool-cases (must_flush b dst pkt)) [
      | inl must ↦ let r = push_flushed udp b done dst pkt t pos on must in (r.0, λ _. r.1)
      | inr may ↦
          let r = push_grown udp b done dst pkt t pos on may t.waiting refl in (r.0, λ _. r.1)
    ]
  ]

  unfoldable pub push_all :
      Udp SocketAddr
      → GsoBatch SocketAddr
      → List (List ℕ × SocketAddr)
      → Udp SocketAddr × GsoBatch SocketAddr
  push_all udp b [] = (udp, b)
  push_all udp b ((pkt, dst) ∷ pkts) = let r = push udp b dst pkt in push_all r.0 r.1 pkts

  push_all-Tracks :
      (udp : Udp SocketAddr) (b : GsoBatch SocketAddr) (done pkts : List (List ℕ × SocketAddr))
      → Tracks udp b done
      → All (λ x. 0 < length x.0) pkts
      → Tracks (push_all udp b pkts).0 (push_all udp b pkts).1 (done ++ pkts)
  unfolding push_all
  push_all-Tracks udp b done [] t full = subst (λ z. Tracks udp b z) (sym (append-nil done)) t
  push_all-Tracks udp b done ((pkt, dst) ∷ pkts) t full =
      let r = push udp b dst pkt in
      subst (λ z. Tracks (push_all r.0 r.1 pkts).0 (push_all r.0 r.1 pkts).1 z)
        (append_assoc done ((pkt, dst) ∷ []) pkts)
        (push_all-Tracks r.0 r.1 (done ++ ((pkt, dst) ∷ [])) pkts
          (push-Tracks udp b done dst pkt t full.0).0 full.1)

  -- Whatever datagrams are pushed, none of them empty, and whatever the system answers while the
  -- socket is there: after a flush the system was given exactly these datagrams, each whole, to its
  -- destination, and in their order.
  pub flush-push_all :
      (off : Bool) (udp : Udp SocketAddr) (first : SocketAddr) (pkts : List (List ℕ × SocketAddr))
      → IsLive udp.answers
      → All (λ x. 0 < length x.0) pkts
      → let r = push_all udp (new off) pkts in (flush r.0 r.1).0.sent ≡ udp.sent ++ pkts
  unfolding to_dst
  flush-push_all off udp first pkts live full =
      let r = push_all udp (new off) pkts in
      let start : Tracks udp (new off) udp.sent = record {
        dst = first;
        waiting = [];
        holds = new-Holds off first;
        live = live;
        order = append-nil udp.sent;
        off = λ z. refl;
      } in
      let t = push_all-Tracks udp (new off) udp.sent pkts start full in
      (flush-sent r.0 r.1 t.dst t.waiting t.holds t.live).sent ∙ t.order
