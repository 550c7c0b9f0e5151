-- ===== src/Node/Exit/Tests.antt =====
-- A host on which no redirect is taken away.
use fluxpeer.Prelude.{ℕ, suc, Bool, true, false, [], ◌∷◌, none, Result, ok, err}
use fluxpeer.Prelude.Text.{codes}
use fluxpeer.Node.Apply.{ApplyError, other}
use fluxpeer.Node.Exit.{
  ExitEffect, default_del, default_add, bypass_del, bypass_add, Host, ExitProgress,
}

abbrev busy : ApplyError
busy = record { command = codes "ip" ∷ []; exit_code = none; stderr = codes "busy"; kind = other }

-- Its state is the number of the effects so far.
carry_out : ℕ → ExitEffect → ℕ × Result Bool ApplyError
carry_out n (default_del p) = (suc n, err busy)
carry_out n (bypass_add b) = (suc n, ok true)
carry_out n (bypass_del b) = (suc n, ok true)
carry_out n (default_add p) = (suc n, ok true)

abbrev stubborn : Host
stubborn = record {
  World = ℕ;
  Command = ℕ;
  effect = carry_out;
  guard_up = λ w pending. (suc w, 7 ∷ [], ok true);
  guard_down = λ w pending. (suc w, [], ok true);
}

abbrev halfway : ExitProgress stubborn
halfway = record {
  bypass = codes "10.0.0.1" ∷ [];
  defaults = codes "0.0.0.0/1" ∷ [];
  v6_blocked = true;
  v6_cleanup = 7 ∷ [];
}

abbrev nothing : ExitProgress stubborn
nothing = record { bypass = []; defaults = []; v6_blocked = false; v6_cleanup = [] }
