-- ===== src/Net/Path.antt =====
-- engine/net/fp-path/src/lib.rs: which of the five kinds of path to a peer is in use.
pub mod Choice
mod Tests
use fluxpeer.Prelude.{
  ℕ, ◌<◌, Bool, true, false, not, ◌||◌, List, [], ◌∷◌, Option, none, some, get_or, set, replicate,
  if◌then◌else◌,
}

pub data PathKind : Type 0 where
  udp_direct tcp_direct udp_relay tcp_relay tcp443_relay : PathKind

-- `kind as usize`, the place on the ladder.
unfoldable pub rank : PathKind → ℕ
rank udp_direct = 0
rank tcp_direct = 1
rank udp_relay = 2
rank tcp_relay = 3
rank tcp443_relay = 4

unfoldable pub ladder : List PathKind
ladder = udp_direct ∷ tcp_direct ∷ udp_relay ∷ tcp_relay ∷ tcp443_relay ∷ []

unfoldable pub is_direct : PathKind → Bool
is_direct udp_direct = true
is_direct tcp_direct = true
is_direct _ = false

pub data PathState : Type 0 where
  untested alive failed : PathState

unfoldable pub is_alive : PathState → Bool
is_alive alive = true
is_alive _ = false

unfoldable pub is_untested : PathState → Bool
is_untested untested = true
is_untested _ = false

pub record PathSet : Type 0 where
  pub states : List PathState

unfoldable pub new : PathSet
new = record { states = replicate 5 untested }

-- An array of five has no other index, so the default is not read.
unfoldable pub state : PathSet → PathKind → PathState
state p kind = get_or p.states (rank kind) untested

unfoldable pub mark_alive : PathSet → PathKind → PathSet
mark_alive p kind = record { states = set p.states (rank kind) alive }

unfoldable pub mark_failed : PathSet → PathKind → PathSet
mark_failed p kind = record { states = set p.states (rank kind) failed }

-- `into_iter().find`.
unfoldable pub find_alive : PathSet → List PathKind → Option PathKind
find_alive p [] = none
find_alive p (k ∷ ks) = let rest = find_alive p ks in if is_alive (state p k) then some k else rest

unfoldable pub best : PathSet → Option PathKind
best p = find_alive p ladder

unfoldable pub has_direct : PathSet → Bool
has_direct p = elim (best p) [ none ↦ false | some k ↦ is_direct k ]

unfoldable pub should_keep_probing : PathSet → Bool
should_keep_probing p = elim (best p) [
  | none ↦ true
  | some b ↦
      if not (is_direct b)
      then is_untested (state p udp_direct) || is_untested (state p tcp_direct)
      else false
]
