-- ===== src/Node/Gso/Tests.antt =====
-- Two equal datagrams and a shorter one, on a system that rejects segmented sends.
use fluxpeer.Prelude.{ℕ, ◌≡◌, refl, false, List, [], ◌∷◌, arith, nat_eq}
use fluxpeer.Node.Gso.{Udp, rejected, new, flush, to_dst}
use fluxpeer.Node.Gso.Order.{Tracks, new-Holds}
use fluxpeer.Node.Gso.Wire.{push_all, flush-push_all}

abbrev socket : Udp ℕ
socket = record { sent = []; answers = rejected ∷ [] }

abbrev pkts : List (List ℕ × ℕ)
pkts = (1 ∷ 2 ∷ [], 9) ∷ (3 ∷ 4 ∷ [], 9) ∷ (5 ∷ [], 9) ∷ []

flush-push_all_example : let r = push_all socket (new false) pkts in (flush r.0 r.1).0.sent ≡ pkts
flush-push_all_example = flush-push_all false socket 9 pkts (λ e. cc, tt) (ground arith)

fresh-Tracks : Tracks socket (new false) []
unfolding to_dst
fresh-Tracks = record {
  dst = 9;
  waiting = [];
  holds = new-Holds false 9;
  live = (λ e. cc, tt);
  order = refl;
  off = λ z. refl;
}
