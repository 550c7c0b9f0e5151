-- ===== src/Relay/Hub/Sessions.antt =====
-- Which sessions are registered, and which were invalidated.
use fluxpeer.Prelude.{
  ℕ, ◌≡◌, ◌≢◌, ◌⊎◌, inl, inr, refl, sym, ap, ◌∙◌, true, false, Option, some, arith, Bool-cases,
  Option-cases, if_pos, ◌||◌, ◌==◌, ◌≟◌, list_eq, nat_eq,
}
use fluxpeer.Prelude.Membership.{contains}
use fluxpeer.Prelude.Maps.{lookup, insert, lookup-insert, lookup-remove}
use fluxpeer.Relay.Proto.{PublicKey}
use fluxpeer.Relay.Hub.{
  Channels, Connection, Hub, drop_connection, with_capacity, connect_authenticated, disconnect,
  disconnect_session, is_session,
}

module _ (channels : Channels) where
  open channels use {State, Sender, same_channel, channel, try_send}

  -- The registered connection of a client has the session `a`.
  abbrev pub Holds : Hub channels → PublicKey → ℕ → Type 0
  Holds h k a = (c : Connection channels) × (lookup k h.peers ≡ some c) × (c.auth ≡ some a)

  -- No registered connection has a session that was invalidated, and no two share one.
  pub record IsTidy (h : Hub channels) : Type 0 where
    pub valid : (k : PublicKey) (a : ℕ) → Holds h k a → contains h.invalidated a ≡ false
    pub separate : (j k : PublicKey) (a : ℕ) → Holds h j a → Holds h k a → j ≡ k

  pub with_capacity-IsTidy :
      (queue_cap : ℕ) (q : State) → IsTidy (with_capacity channels queue_cap q)
  unfolding with_capacity lookup
  with_capacity-IsTidy queue_cap q = record {
    valid = λ k a (c, e, f). cc;
    separate = λ j k a (c, e, f) g. cc;
  }

  -- Dropping the connection of `k` invalidates its own session and no other.
  drop_own :
      (h : Hub channels) (k : PublicKey) (a : ℕ)
      → contains (drop_connection channels (lookup k h.peers) h.invalidated) a ≡ true
      → Holds h k a ⊎ (contains h.invalidated a ≡ true)
  unfolding drop_connection
  drop_own h k a m = elim (Option-cases (lookup k h.peers)) [
    | inl e ↦ inr (rw (e, drop_connection) at m)
    | inr (c, e) ↦ elim (Option-cases c.auth) [
      | inl f ↦ inr (rw (e, f, drop_connection) at m)
      | inr (b, f) ↦
          let here : (b == a || contains h.invalidated a) ≡ true =
            rw (e, f, drop_connection) at m in
          elim (Bool-cases (b == a)) [
            | inl same ↦ inl (c, e, f ∙ ap some (ground arith))
            | inr other ↦ inr (ground arith)
          ]
    ]
  ]

  -- After the connection of `k` is dropped, a session that another client holds stays valid.
  drop_other :
      (h : Hub channels) (k j : PublicKey) (a : ℕ)
      → IsTidy h
      → j ≢ k
      → Holds h j a
      → contains (drop_connection channels (lookup k h.peers) h.invalidated) a ≡ false
  drop_other h k j a t ne held =
      elim (Bool-cases (contains (drop_connection channels (lookup k h.peers) h.invalidated) a)) [
        | inr good ↦ good
        | inl bad ↦ elim (drop_own h k a bad) [
          | inl own ↦ absurd (ne (t.separate j k a held own))
          | inr old ↦ cc (t.valid j a held)
        ]
      ]

  -- What a client holds after another one left, it held before.
  Holds-remove :
      (h : Hub channels) (k j : PublicKey) (a : ℕ)
      → Holds (disconnect channels h k) j a
      → (j ≢ k) × Holds h j a
  unfolding disconnect
  Holds-remove h k j a (c, e, f) = elim (k ≟ j) [
    | yes p ↦ absurd (ground (arith, lookup-remove k j h.peers))
    | no p ↦ ((λ q. p (sym q)), (c, ground (arith, lookup-remove k j h.peers), f))
  ]

  -- A client that leaves takes its session with it: a tidy hub stays tidy.
  pub disconnect-IsTidy :
      (h : Hub channels) (k : PublicKey) → IsTidy h → IsTidy (disconnect channels h k)
  unfolding disconnect
  disconnect-IsTidy h k t = record {
    valid = λ j a held. let (ne, own) = Holds-remove h k j a held in drop_other h k j a t ne own;
    separate = λ i j a p q. t.separate i j a (Holds-remove h k i a p).1 (Holds-remove h k j a q).1;
  }

  -- The cleanup of a session keeps the hub tidy: where no registered connection has an invalidated
  -- session and no two share one, this is so after, whichever session is cleaned up.
  pub disconnect_session-IsTidy :
      (h : Hub channels) (k : PublicKey) (tx : Sender)
      → IsTidy h
      → IsTidy (disconnect_session channels h k tx)
  unfolding disconnect_session
  disconnect_session-IsTidy h k tx t = elim (Bool-cases (is_session channels h k tx)) [
    | inl mine ↦ rw mine (disconnect-IsTidy h k t)
    | inr other ↦ rw other t
  ]

  -- The session that a connection brings was not invalidated, and no client holds it.
  unfoldable pub IsNew : Hub channels → Option ℕ → Type 0
  IsNew h auth =
      (a : ℕ)
      → auth ≡ some a
      → (contains h.invalidated a ≡ false) × ((j : PublicKey) → ¬ Holds h j a)

  Holds-insert :
      (h : Hub channels) (k : PublicKey) (auth : Option ℕ) (j : PublicKey) (a : ℕ)
      → Holds (connect_authenticated channels h k auth).0 j a
      → ((j ≡ k) × (auth ≡ some a)) ⊎ ((j ≢ k) × Holds h j a)
  unfolding connect_authenticated
  Holds-insert h k auth j a (c, e, f) =
      let new_one : Connection channels = record {
        tx = (channel h.queue_cap h.queues).1;
        auth = auth;
      } in
      elim (k ≟ j) [
        | yes p ↦
            let same : new_one ≡ c = ground (arith, lookup-insert k j new_one h.peers) in
            inl (sym p, ap (λ x. x.auth) same ∙ f)
        | no p ↦ inr ((λ q. p (sym q)), (c, ground (arith, lookup-insert k j new_one h.peers), f))
      ]

  -- A connection keeps the hub tidy: where no registered connection has an invalidated session and
  -- no two share one, and the session that comes with it is new, this is so after, also when it
  -- replaces a connection of the same client, whose session is then invalidated.
  pub connect-IsTidy :
      (h : Hub channels) (k : PublicKey) (auth : Option ℕ)
      → IsTidy h
      → IsNew h auth
      → IsTidy (connect_authenticated channels h k auth).0
  unfolding connect_authenticated IsNew
  connect-IsTidy h k auth t new = record {
    valid = λ j a held. elim (Holds-insert h k auth j a held) [
      | inr (ne, own) ↦ drop_other h k j a t ne own
      | inl (_, e) ↦
          elim (Bool-cases
            (contains (drop_connection channels (lookup k h.peers) h.invalidated) a)) [
              | inr good ↦ good
              | inl bad ↦ elim (drop_own h k a bad) [
                | inl own ↦ absurd ((new a e).1 k own)
                | inr old ↦ cc ((new a e).0)
              ]
            ]
    ];
    separate = λ i j a p q. elim (Holds-insert h k auth i a p) [
      | inl (ei, fi) ↦ elim (Holds-insert h k auth j a q) [
        | inl (ej, fj) ↦ ei ∙ sym ej
        | inr (nj, hj) ↦ absurd ((new a fi).1 j hj)
      ]
      | inr (ni, hi) ↦ elim (Holds-insert h k auth j a q) [
        | inl (ej, fj) ↦ absurd ((new a fj).1 i hi)
        | inr (nj, hj) ↦ t.separate i j a hi hj
      ]
    ];
  }

  -- The cleanup of a session that a newer one has replaced changes nothing: the new channel is not
  -- the old one, so the new connection stays.
  pub disconnect_session_replaced :
      (h : Hub channels) (k : PublicKey) (auth : Option ℕ) (old : Sender)
      → same_channel (connect_authenticated channels h k auth).1 old ≡ false
      → disconnect_session channels (connect_authenticated channels h k auth).0 k old
        ≡ (connect_authenticated channels h k auth).0
  unfolding disconnect_session is_session connect_authenticated
  disconnect_session_replaced h k auth old ne =
      let new_one : Connection channels = record {
        tx = (channel h.queue_cap h.queues).1;
        auth = auth;
      } in
      let here : lookup k (insert k new_one h.peers) ≡ some new_one =
        lookup-insert k k new_one h.peers ∙ if_pos (k ≟ k) refl (some new_one) (lookup k h.peers) in
      let not_mine : is_session channels (connect_authenticated channels h k auth).0 k old ≡ false =
        rw (here, is_session) ne in
      rw not_mine refl
