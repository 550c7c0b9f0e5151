-- ===== src/Net/Path/Tests.antt =====
-- The choice of a path, on one set of paths.
use fluxpeer.Prelude.{◌≡◌, refl, false}
use fluxpeer.Net.Path.{
  udp_direct, tcp_direct, tcp_relay, rank, is_direct, PathSet, new, state, mark_alive, mark_failed,
  best, find_alive, ladder, is_alive, is_untested, should_keep_probing,
}
use fluxpeer.Net.Path.Choice.{IsPathSet, new-IsPathSet, mark_alive-IsPathSet}

abbrev relayed : PathSet
relayed = mark_alive new tcp_relay

relayed-IsPathSet : IsPathSet relayed
relayed-IsPathSet = mark_alive-IsPathSet new tcp_relay new-IsPathSet

abbrev closed : PathSet
closed = mark_failed (mark_failed relayed udp_direct) tcp_direct

closed_stops : should_keep_probing closed ≡ false
unfolding should_keep_probing best find_alive ladder is_alive is_untested is_direct state
    mark_failed mark_alive new rank
closed_stops = refl
