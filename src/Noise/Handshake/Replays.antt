-- ===== src/Noise/Handshake/Replays.antt =====
-- An initiation is read once: its time is remembered, and only a later one is read after.
use fluxpeer.Prelude.{
  ℕ, ◌≡◌, ◌⊎◌, inl, inr, refl, ap, sym, ◌∙◌, ok, err, true, false, not, ltb, if◌then◌else◌,
  Bool-cases, Option-cases, Result-cases, >>=-eq-ok,
}
use mathlib.Core.Path.{subst}
use fluxpeer.Noise.{wrong_tai64n_timestamp}
use fluxpeer.Noise.Packet.{HandshakeInit, HandshakeResponse, handshake_init_sz, handshake_resp_sz}
use fluxpeer.Noise.Session.{Aead}
use fluxpeer.Noise.Tai64.{Tai64N, after, after_irrefl, after_trans}
use fluxpeer.Noise.Crypto.{Suite}
use fluxpeer.Noise.Handshake.{
  Env, Handshake, init_received, HandshakeInitReceivedState, inc_index, next_of, received, awaiting,
  initiation, format_handshake_initiation, format_handshake_response, read_initiation,
  check_initiation, receive_handshake_initialization, check_response, receive_handshake_response,
}

-- The time is the last one seen, or an earlier one.
abbrev pub IsSeen : Tai64N → Handshake → Type 0
IsSeen t h = (after h.last_handshake_timestamp t ≡ true) ⊎ (h.last_handshake_timestamp ≡ t)

-- An index is the next one, or the same.
abbrev pub IsNext : ℕ → ℕ → Type 0
IsNext old new = (new ≡ old) ⊎ (new ≡ next_of old)

-- The same peer, which has seen no less and counted at most one further.
pub record Follows (h k : Handshake) : Type 0 where
  pub params : k.params ≡ h.params
  pub seen :
      (after k.last_handshake_timestamp h.last_handshake_timestamp ≡ true)
      ⊎ (k.last_handshake_timestamp ≡ h.last_handshake_timestamp)
  pub counts : IsNext h.next_index k.next_index

Follows-same :
    (h k : Handshake)
    → k.params ≡ h.params
    → k.last_handshake_timestamp ≡ h.last_handshake_timestamp
    → IsNext h.next_index k.next_index
    → Follows h k
Follows-same h k p e c = record { params = p; seen = inr e; counts = c }

Follows-IsSeen : (t : Tai64N) (h k : Handshake) → Follows h k → IsSeen t h → IsSeen t k
Follows-IsSeen t h k f seen = elim f.seen [
  | inr e ↦ subst (λ x. (after x t ≡ true) ⊎ (x ≡ t)) (sym e) seen
  | inl later ↦ elim seen [
    | inl before ↦ inl (after_trans _ _ t later before)
    | inr e ↦ inl (subst (λ x. after k.last_handshake_timestamp x ≡ true) e later)
  ]
]

module _ {aead : Aead} (suite : Suite aead) where
  format_initiation-Follows :
      (h : Handshake) (env : Env) (len : ℕ)
      → Follows h (format_handshake_initiation aead suite h env len).0
  unfolding format_handshake_initiation
  format_initiation-Follows h env len = elim (Bool-cases (ltb len handshake_init_sz)) [
    | inl short ↦ rw short (Follows-same h h refl refl (inl refl))
    | inr fits ↦
        elim (Result-cases (initiation aead suite (inc_index h) env (next_of h.next_index))) [
          | inr (_, failed) ↦ rw (fits, failed) (Follows-same h _ refl refl (inr refl))
          | inl (_, made) ↦ rw (fits, made) (Follows-same h _ refl refl (inr refl))
        ]
  ]

  -- The response is written over the parameters and the time that stand.
  format_response_kept :
      (h : Handshake) (env : Env) (len : ℕ)
      → ((format_handshake_response aead suite h env len).0.params ≡ h.params)
        × ((format_handshake_response aead suite h env len).0.last_handshake_timestamp
            ≡ h.last_handshake_timestamp)
        × IsNext h.next_index (format_handshake_response aead suite h env len).0.next_index
  unfolding format_handshake_response
  format_response_kept h env len = elim (Bool-cases (ltb len handshake_resp_sz)) [
    | inl short ↦ rw short (refl, refl, inl refl)
    | inr fits ↦ elim (Option-cases (received h.state)) [
      | inl e ↦ rw (fits, e) (refl, refl, inl refl)
      | inr (s, e) ↦ elim (Option-cases env.secret) [
        | inl r ↦ rw (fits, e, r) (refl, refl, inl refl)
        | inr (_, r) ↦ rw (fits, e, r) (refl, refl, inr refl)
      ]
    ]
  ]

  check_initiation-after :
      (h : Handshake) (packet : HandshakeInit) (t : Tai64N) (s : HandshakeInitReceivedState)
      → check_initiation aead suite h packet ≡ ok (t, s)
      → (read_initiation aead suite h.params packet ≡ ok (t, s))
        × (after t h.last_handshake_timestamp ≡ true)
  unfolding check_initiation
  check_initiation-after h packet t s e =
      let (r, opened, tested) =
        >>=-eq-ok (read_initiation aead suite h.params packet)
          (λ r.
            if not (after r.0 h.last_handshake_timestamp) then err wrong_tai64n_timestamp else ok r)
          e in
      elim (Bool-cases (after r.0 h.last_handshake_timestamp)) [
        | inr old ↦ cc (rw old at tested)
        | inl new ↦
            let same : r ≡ (t, s) = cc (rw new at tested) in
            (opened ∙ ap ok same, subst (λ x. after x.0 h.last_handshake_timestamp ≡ true) same new)
      ]

  receive_initialization-Follows :
      (h : Handshake) (env : Env) (packet : HandshakeInit) (len : ℕ)
      → Follows h (receive_handshake_initialization aead suite h env packet len).0
  unfolding receive_handshake_initialization
  receive_initialization-Follows h env packet len =
      elim (Result-cases (check_initiation aead suite h packet)) [
        | inr (_, e) ↦
            rw (e, receive_handshake_initialization) (Follows-same h h refl refl (inl refl))
        | inl ((t, s), e) ↦
            let (_, later) = check_initiation-after h packet t s e in
            let (p, l, c) =
              format_response_kept
                (record h {
                  last_handshake_timestamp = t;
                  previous = h.state;
                  state = init_received s;
                })
                env len in
            rw (e, receive_handshake_initialization)
              (record {
                params = p;
                seen = inl (subst (λ x. after x h.last_handshake_timestamp ≡ true) (sym l) later);
                counts = c;
              })
      ]

  receive_response-Follows :
      (h : Handshake) (env : Env) (packet : HandshakeResponse)
      → Follows h (receive_handshake_response aead suite h env packet).0
  unfolding receive_handshake_response
  receive_response-Follows h env packet = elim (Option-cases (awaiting h packet.receiver_idx)) [
    | inl e ↦ rw (e, receive_handshake_response) (Follows-same h h refl refl (inl refl))
    | inr ((s, true), e) ↦ elim (Result-cases (check_response aead suite h s packet)) [
      | inr (_, f) ↦ rw (e, receive_handshake_response, f) (Follows-same h h refl refl (inl refl))
      | inl (_, f) ↦ rw (e, receive_handshake_response, f) (Follows-same h _ refl refl (inl refl))
    ]
    | inr ((s, false), e) ↦ elim (Result-cases (check_response aead suite h s packet)) [
      | inr (_, f) ↦ rw (e, receive_handshake_response, f) (Follows-same h h refl refl (inl refl))
      | inl (_, f) ↦ rw (e, receive_handshake_response, f) (Follows-same h _ refl refl (inl refl))
    ]
  ]

  -- One call of the handshake.
  pub data Step (h : Handshake) : Handshake → Type 0 where
    initiates : (env : Env) (len : ℕ) → Step h (format_handshake_initiation aead suite h env len).0
    reads :
        (env : Env) (packet : HandshakeInit) (len : ℕ)
        → Step h (receive_handshake_initialization aead suite h env packet len).0
    completes :
        (env : Env) (packet : HandshakeResponse)
        → Step h (receive_handshake_response aead suite h env packet).0

  pub data Reach (h : Handshake) : Handshake → Type 0 where
    here : Reach h h
    next : {k l : Handshake} → Reach h k → Step k l → Reach h l

  pub Step-Follows : {h k : Handshake} → Step h k → Follows h k
  Step-Follows {h} (initiates env len) = format_initiation-Follows h env len
  Step-Follows {h} (reads env packet len) = receive_initialization-Follows h env packet len
  Step-Follows {h} (completes env packet) = receive_response-Follows h env packet

  Reach-IsSeen :
      {h k : Handshake} (t : Tai64N) → Reach h k → IsSeen t h → (k.params ≡ h.params) × IsSeen t k
  Reach-IsSeen t here seen = (refl, seen)
  Reach-IsSeen t (next {k} {l} r st) seen =
      let (p, s) = Reach-IsSeen t r seen in
      let f = Step-Follows st in (f.params ∙ p, Follows-IsSeen t k l f s)

  read_once :
      (h : Handshake) (env : Env) (packet : HandshakeInit) (len : ℕ) (t : Tai64N)
      (s : HandshakeInitReceivedState)
      → check_initiation aead suite h packet ≡ ok (t, s)
      → ((receive_handshake_initialization aead suite h env packet len).0.params ≡ h.params)
        × ((receive_handshake_initialization aead suite h env packet len).0.last_handshake_timestamp
            ≡ t)
  unfolding receive_handshake_initialization
  read_once h env packet len t s e =
      let (p, l, _) =
        format_response_kept
          (record h { last_handshake_timestamp = t; previous = h.state; state = init_received s })
          env len in
      rw (e, receive_handshake_initialization) (p, l)

  old-refused :
      (k : Handshake) (packet : HandshakeInit) (t : Tai64N) (s : HandshakeInitReceivedState)
      → read_initiation aead suite k.params packet ≡ ok (t, s)
      → IsSeen t k
      → check_initiation aead suite k packet ≡ err wrong_tai64n_timestamp
  unfolding check_initiation
  old-refused k packet t s opened seen =
      let old : after t k.last_handshake_timestamp ≡ false = elim seen [
        | inr e ↦ subst (λ x. after t x ≡ false) (sym e) (after_irrefl t)
        | inl later ↦ elim (Bool-cases (after t k.last_handshake_timestamp)) [
          | inr f ↦ f
          | inl both ↦ cc (after_trans t k.last_handshake_timestamp t both later, after_irrefl t)
        ]
      ] in
      rw (opened, old) refl

  -- An initiation that was read once is refused ever after, as one whose time is not after the last
  -- seen, and changes nothing: whatever calls came between, and also where the answer to it failed.
  pub replay_refused :
      (h k : Handshake) (env later : Env) (packet : HandshakeInit) (len len' : ℕ) (t : Tai64N)
      (s : HandshakeInitReceivedState)
      → check_initiation aead suite h packet ≡ ok (t, s)
      → Reach (receive_handshake_initialization aead suite h env packet len).0 k
      → receive_handshake_initialization aead suite k later packet len'
        ≡ (k, err wrong_tai64n_timestamp)
  unfolding receive_handshake_initialization
  replay_refused h k env later packet len len' t s e r =
      let (own, last) = read_once h env packet len t s e in
      let (p, seen) = Reach-IsSeen t r (inr last) in
      let opened = (check_initiation-after h packet t s e).0 in
      let again : read_initiation aead suite k.params packet ≡ ok (t, s) =
        subst (λ x. read_initiation aead suite x packet ≡ ok (t, s)) (sym (p ∙ own)) opened in
      rw (old-refused k packet t s again seen, receive_handshake_initialization) refl
