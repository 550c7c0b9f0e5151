-- ===== src/Node/Exit.antt =====
-- node/src/route.rs: how the routes of a full tunnel come up and go down. An effect on the host is
-- a step on its state, which is of any type; the commands that take the IPv6 guard away are of any
-- type too.
pub mod Cleanup
mod Tests
use fluxpeer.Prelude.{
  ℕ, Bool, true, false, not, ◌&&◌, ◌||◌, List, [], ◌∷◌, ◌++◌, Option, none, some, if◌then◌else◌,
  Result, ok, err,
}
use fluxpeer.Prelude.Text.{Text, codes}
use fluxpeer.Node.Apply.{ApplyError, all, display}

pub data ExitEffect : Type 0 where
  bypass_add : Text → ExitEffect
  bypass_del : Text → ExitEffect
  default_add : Text → ExitEffect
  default_del : Text → ExitEffect

-- What carries the effects out. The two effects of the guard are given the commands that would undo
-- it, and leave the ones that are still to be run.
pub record Host : Type 1 where
  pub World : Type 0
  pub Command : Type 0
  pub effect : World → ExitEffect → World × Result Bool ApplyError
  pub guard_up : World → List Command → World × List Command × Result Bool ApplyError
  pub guard_down : World → List Command → World × List Command × Result Bool ApplyError

unfoldable pub is_empty {ℓ} : {A : Type ℓ} → List A → Bool
is_empty [] = true
is_empty (x ∷ xs) = false

abbrev pub split_default : List Text
split_default = codes "0.0.0.0/1" ∷ codes "128.0.0.0/1" ∷ []

unfoldable pub with_rollback : ApplyError → Result (Unit {0}) ApplyError → ApplyError
with_rollback error (ok _) = error
with_rollback error (err cleanup) = record error {
  stderr = error.stderr ++ codes "; rollback: " ++ display cleanup;
}

module _ (host : Host) where
  open host use {World, Command, effect, guard_up, guard_down}

  pub record ExitProgress : Type 0 where
    pub bypass : List Text
    pub defaults : List Text
    pub v6_blocked : Bool
    pub v6_cleanup : List Command

  -- `retain`: each is taken away, and those where this fails stay, with the errors.
  unfoldable pub retain :
      (Text → ExitEffect)
      → World
      → List Text
      → World × List Text × List (Result (Unit {0}) ApplyError)
  retain del w [] = (w, [], [])
  retain del w (p ∷ ps) =
      let (w', r) = effect w (del p) in
      let rest = retain del w' ps in
      elim r [ ok _ ↦ rest | err e ↦ (rest.0, p ∷ rest.1, err e ∷ rest.2) ]

  unfoldable pub cleanup_guard :
      World → ExitProgress → World × ExitProgress × List (Result (Unit {0}) ApplyError)
  cleanup_guard w progress =
      if is_empty progress.v6_cleanup
      then (w, progress, [])
      else let (w', left, r) = guard_down w progress.v6_cleanup in
        elim r [
          | ok _ ↦ (w', record progress { v6_cleanup = left; v6_blocked = false }, [])
          | err e ↦ (w', record progress { v6_cleanup = left }, err e ∷ [])
        ]

  -- The bypasses stay until every redirect is gone.
  unfoldable pub cleanup_bypass :
      World → ExitProgress → World × ExitProgress × List (Result (Unit {0}) ApplyError)
  cleanup_bypass w progress =
      if is_empty progress.defaults && is_empty progress.v6_cleanup
      then (let (w', left, errors) = retain bypass_del w progress.bypass in
          (w', record progress { bypass = left }, errors))
      else (w, progress, [])

  unfoldable pub cleanup_exit_with :
      World → ExitProgress → World × ExitProgress × Result (Unit {0}) ApplyError
  cleanup_exit_with w progress =
      let a = retain default_del w progress.defaults in
      let b = cleanup_guard a.0 (record progress { defaults = a.1 }) in
      let c = cleanup_bypass b.0 b.1 in (c.0, c.1, all (a.2 ++ (b.2 ++ c.2)))

  -- The first failure ends the loop. A bypass that was there before is not ours.
  unfoldable pub add_bypass :
      World → ExitProgress → List Text → World × ExitProgress × Result (Unit {0}) ApplyError
  add_bypass w progress [] = (w, progress, ok tt)
  add_bypass w progress (b ∷ bs) =
      let (w', r) = effect w (bypass_add b) in
      elim r [
        | err e ↦ (w', progress, err e)
        | ok ours ↦
            add_bypass w'
              (if ours then record progress { bypass = progress.bypass ++ (b ∷ []) } else progress)
              bs
      ]

  unfoldable pub add_defaults :
      World → ExitProgress → List Text → World × ExitProgress × Result (Unit {0}) ApplyError
  add_defaults w progress [] = (w, progress, ok tt)
  add_defaults w progress (p ∷ ps) =
      let (w', r) = effect w (default_add p) in
      elim r [
        | err e ↦ (w', progress, err e)
        | ok _ ↦ add_defaults w' (record progress { defaults = progress.defaults ++ (p ∷ []) }) ps
      ]

  -- The guard, and then the redirects.
  unfoldable pub redirect :
      World → ExitProgress → World × ExitProgress × Result (Unit {0}) ApplyError
  redirect w progress =
      let (w', pending, r) = guard_up w progress.v6_cleanup in
      let p' = record progress { v6_cleanup = pending } in
      elim r [
        | err e ↦ (w', p', err e)
        | ok blocked ↦ add_defaults w' (record p' { v6_blocked = blocked }) split_default
      ]

  unfoldable pub bring_up :
      World → ExitProgress → List Text → World × ExitProgress × Result (Unit {0}) ApplyError
  bring_up w progress bypass =
      let added = add_bypass w progress bypass in
      elim added.2 [ err e ↦ (added.0, added.1, err e) | ok _ ↦ redirect added.0 added.1 ]

  unfoldable pub exit_up_with :
      World → ExitProgress → List Text → World × ExitProgress × Result Bool ApplyError
  exit_up_with w progress bypass =
      let before = cleanup_exit_with w progress in
      elim before.2 [
        | err e ↦ (before.0, before.1, err e)
        | ok _ ↦
            let up = bring_up before.0 before.1 bypass in
            elim up.2 [
              | ok _ ↦ (up.0, up.1, ok up.1.v6_blocked)
              | err error ↦
                  let rolled = cleanup_exit_with up.0 up.1 in
                  (rolled.0, rolled.1, err (with_rollback error rolled.2))
            ]
      ]
