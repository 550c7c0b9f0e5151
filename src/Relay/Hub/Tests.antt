-- ===== src/Relay/Hub/Tests.antt =====
-- The hub over queues that are lists, with two clients.
use fluxpeer.Prelude.{
  ℕ, ◌≡◌, refl, List, [], ◌∷◌, ◌++◌, none, some, ltb, ◌==◌, if◌then◌else◌, length, get_elem?, set,
  replicate,
}
use fluxpeer.Prelude.Maps.{lookup}
use fluxpeer.Relay.Proto.{Frame, PublicKey}
use fluxpeer.Relay.Hub.{
  Channels, Sent, accepted, full, closed, Hub, with_capacity, connect_authenticated,
  disconnect_session,
}
use fluxpeer.Relay.Hub.Sessions.{
  IsTidy, IsNew, with_capacity-IsTidy, connect-IsTidy, disconnect_session_replaced,
}

abbrev Queues : Type 0
Queues = List (ℕ × List Frame)

-- One more frame where there is room; no sender closes its queue.
unfoldable push : ℕ → Frame → Queues → Queues × Sent
push tx f s = elim (get_elem? s tx) [
  | none ↦ (s, closed)
  | some (cap, q) ↦
      if ltb (length q) cap then (set s tx (cap, q ++ (f ∷ [])), accepted) else (s, full)
]

abbrev queues : Channels
queues = record {
  State = Queues;
  Sender = ℕ;
  same_channel = λ a b. a == b;
  channel = λ cap s. (s ++ ((cap, []) ∷ []), length s);
  try_send = push;
}

abbrev alice : PublicKey
alice = replicate 32 170

abbrev bob : PublicKey
bob = replicate 32 187

abbrev empty : Hub queues
empty = with_capacity queues 2 []

abbrev first : Hub queues × ℕ
first = connect_authenticated queues empty alice (some 7)

empty-IsTidy : IsTidy queues empty
empty-IsTidy = with_capacity-IsTidy queues 2 []

first-IsNew : IsNew queues empty (some 7)
unfolding IsNew with_capacity lookup
first-IsNew a e = (refl, λ j (c, p, q). cc)

first-IsTidy : IsTidy queues first.0
first-IsTidy = connect-IsTidy queues empty alice (some 7) empty-IsTidy first-IsNew

disconnect_session_replaced_example :
    disconnect_session queues (connect_authenticated queues first.0 alice (some 8)).0 alice 0
    ≡ (connect_authenticated queues first.0 alice (some 8)).0
unfolding connect_authenticated with_capacity
disconnect_session_replaced_example =
    disconnect_session_replaced queues first.0 alice (some 8) 0 refl
