-- ===== src/Relay/Hub/Routing.antt =====
-- Where a frame goes, and which client's registration an operation touches.
use fluxpeer.Prelude.{ℕ, ◌≡◌, true, false, List, Option, none, some, list_eq, nat_eq}
use fluxpeer.Prelude.Maps.{lookup}
use fluxpeer.Relay.Proto.{Frame, PublicKey, send_packet, recv_packet, peer_gone as peer_gone_frame}
use fluxpeer.Relay.Hub.{
  Channels, Sent, accepted, full, closed, Routed, delivered, dropped, peer_gone, ignored,
  Connection, Hub, is_stale,
}

module _ (channels : Channels) where
  open channels use {State, Sender, same_channel, channel, try_send}

  -- A frame that asks for no routing.
  abbrev pub IsRoutable : Frame → Type 0
  IsRoutable (send_packet dst payload) = Unit {0}
  IsRoutable _ = ⊥

  -- What the queue of the destination did to the one frame that it was offered.
  unfoldable pub answer : PublicKey → Sent → Routed
  answer dst accepted = delivered
  answer dst full = dropped dst
  answer dst closed = peer_gone dst

  -- The ways a frame is routed: not a datagram, sent by a session that is not the registered one,
  -- to a client that is not connected, or offered to the destination's queue under the sender's
  -- key.
  pub data Outcome (h : Hub channels) (src : PublicKey) (session : Option Sender)
      : Frame → Hub channels × Routed → Type 0 where
    not_datagram : {f : Frame} → ¬ IsRoutable f → Outcome h src session f (h, ignored)
    stale :
        {dst : PublicKey} {payload : List ℕ}
        → is_stale channels h src session ≡ true
        → Outcome h src session (send_packet dst payload) (h, ignored)
    absent :
        {dst : PublicKey} {payload : List ℕ}
        → is_stale channels h src session ≡ false
        → lookup dst h.peers ≡ none
        → Outcome h src session (send_packet dst payload) (h, peer_gone dst)
    offered :
        {dst : PublicKey} {payload : List ℕ} (c : Connection channels)
        → is_stale channels h src session ≡ false
        → lookup dst h.peers ≡ some c
        → Outcome h src session (send_packet dst payload) (
          record h { queues = (try_send c.tx (recv_packet src payload) h.queues).0 },
          answer dst (try_send c.tx (recv_packet src payload) h.queues).1,
        )
