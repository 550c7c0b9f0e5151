-- ===== src/Relay/Hub.antt =====
-- relay-server/src/hub.rs: the registry of connected clients, and the routing of frames. The
-- channels of tokio are parameters. A link session, which the hub can only invalidate, is a number
-- that names it. The mutex makes each operation one step.
pub mod Routing
pub mod Sessions
mod Tests
use fluxpeer.Prelude.{
  ℕ, Bool, true, false, not, List, [], ◌∷◌, Option, none, some, if◌then◌else◌, length, max, list_eq,
  nat_eq, ◌≡◌,
}
use fluxpeer.Prelude.Maps.{Map, lookup, insert, remove}
use fluxpeer.Relay.Proto.{Frame, PublicKey, send_packet, recv_packet}

abbrev pub default_queue_cap : ℕ
default_queue_cap = 512

-- What `try_send` answers.
pub data Sent : Type 0 where
  accepted full closed : Sent

-- Bounded channels: all of them are one state, in which `channel` makes a new one and `try_send`
-- puts a frame into one.
pub record Channels : Type 1 where
  pub State : Type 0
  pub Sender : Type 0
  pub same_channel : Sender → Sender → Bool
  pub channel : ℕ → State → State × Sender
  pub try_send : Sender → Frame → State → State × Sent

pub data Routed : Type 0 where
  delivered : Routed
  dropped : PublicKey → Routed
  peer_gone : PublicKey → Routed
  ignored : Routed

module _ (channels : Channels) where
  open channels use {State, Sender, same_channel, channel, try_send}

  pub record Connection : Type 0 where
    pub tx : Sender
    pub auth : Option ℕ

  -- The hub, with the channels and the link sessions that were invalidated.
  pub record Hub : Type 0 where
    pub peers : Map PublicKey Connection
    pub queue_cap : ℕ
    pub queues : State
    pub invalidated : List ℕ

  unfoldable pub with_capacity : ℕ → State → Hub
  with_capacity queue_cap queues = record {
    peers = [];
    queue_cap = max queue_cap 1;
    queues = queues;
    invalidated = [];
  }

  -- `Drop`: the session of a connection that leaves the map is invalidated.
  unfoldable pub drop_connection : Option Connection → List ℕ → List ℕ
  drop_connection none invalidated = invalidated
  drop_connection (some c) invalidated = elim c.auth [
    | none ↦ invalidated
    | some a ↦ a ∷ invalidated
  ]

  unfoldable pub connect_authenticated : Hub → PublicKey → Option ℕ → Hub × Sender
  connect_authenticated h pubkey auth =
      let (queues, tx) = channel h.queue_cap h.queues in
      (
        record h {
          peers = insert pubkey (record { tx = tx; auth = auth }) h.peers;
          queues = queues;
          invalidated = drop_connection (lookup pubkey h.peers) h.invalidated;
        },
        tx,
      )

  unfoldable pub connect : Hub → PublicKey → Hub × Sender
  connect h pubkey = connect_authenticated h pubkey none

  unfoldable pub disconnect : Hub → PublicKey → Hub
  disconnect h pubkey = record h {
    peers = remove pubkey h.peers;
    invalidated = drop_connection (lookup pubkey h.peers) h.invalidated;
  }

  -- The registered session of a client is `tx`.
  unfoldable pub is_session : Hub → PublicKey → Sender → Bool
  is_session h pubkey tx = elim (lookup pubkey h.peers) [
    | none ↦ false
    | some c ↦ same_channel c.tx tx
  ]

  unfoldable pub disconnect_session : Hub → PublicKey → Sender → Hub
  disconnect_session h pubkey tx = if is_session h pubkey tx then disconnect h pubkey else h

  unfoldable pub connected : Hub → PublicKey → Bool
  connected h pubkey = elim (lookup pubkey h.peers) [ none ↦ false | some _ ↦ true ]

  unfoldable pub peer_count : Hub → ℕ
  peer_count h = length h.peers

  -- `session.is_some_and(...)`: the sender's own session is given, and is not the registered one.
  unfoldable pub is_stale : Hub → PublicKey → Option Sender → Bool
  is_stale h src none = false
  is_stale h src (some tx) = not (is_session h src tx)

  -- The `match guard.get(&dst)`.
  unfoldable pub deliver : Hub → PublicKey → PublicKey → List ℕ → Hub × Routed
  deliver h src dst payload = elim (lookup dst h.peers) [
    | none ↦ (h, peer_gone dst)
    | some c ↦
        let (queues, sent) = try_send c.tx (recv_packet src payload) h.queues in
        (
          record h { queues = queues },
          elim sent [ accepted ↦ delivered | full ↦ dropped dst | closed ↦ peer_gone dst ],
        )
  ]

  unfoldable pub route_session : Hub → PublicKey → Option Sender → Frame → Hub × Routed
  route_session h src session (send_packet dst payload) =
      if is_stale h src session then (h, ignored) else deliver h src dst payload
  route_session h src session _ = (h, ignored)

  unfoldable pub route : Hub → PublicKey → Frame → Hub × Routed
  route h src frame = route_session h src none frame
