-- ===== src/Actions/Execute/Hooks.antt =====
-- Hooks that name the file, after the move that took it away.
use avella.Common.{◌≡◌, ◌≢◌, refl, true, false, List, [], ◌∷◌, none, ok, err, arith, All}
use avella.Common.Text.{Text}
use avella.Actions.{Action, move, exec, scp, validate_zip, notify}
use avella.Actions.Execute.{Host, execute, notify_execute, runner}
use avella.Actions.Execute.Gone.{TakesAway, move_execute_gone}
use avella.Actions.Move.{move_execute}
use avella.Go.{Std}
use avella.Go.FilePath.{base, join}
use avella.Go.Os.{OsError, not_exist}
use avella.Rules.Engine.{CompiledRule}
use avella.Rules.Engine.Process.{fire, execute_rule, run_actions, run_hooks}
use avella.Template.{resolve_dest, new_file_data, has_placeholders}

-- A notification whose message has a placeholder.
abbrev pub IsTemplated : Action → Type 0
IsTemplated (notify message) = has_placeholders message ≡ true
IsTemplated (move dest) = ⊥
IsTemplated (exec cmd) = ⊥
IsTemplated (scp host dest pool delete) = ⊥
IsTemplated (validate_zip full) = ⊥

module _ (std : Std) (h : Host) (path : Text) (x : OsError) where
  notify_missing :
      (message : Text) (w : h.files.World)
      → has_placeholders message ≡ true
      → h.files.stat w path ≡ err x
      → ((notify_execute std h message path w).0 ≢ none)
        × ((notify_execute std h message path w).1 ≡ w)
  unfolding notify_execute resolve_dest new_file_data
  notify_missing message w templated gone = ground arith

  run_hooks_missing :
      (hooks : List Action) (w : h.files.World)
      → All IsTemplated hooks
      → h.files.stat w path ≡ err x
      → run_hooks std (runner std h) path hooks w ≡ w
  unfolding run_hooks execute
  run_hooks_missing [] w t gone = refl
  run_hooks_missing (notify m ∷ hooks) w t gone =
      let same = (notify_missing m w t.0 gone).1 in rw same (run_hooks_missing hooks w t.1 gone)
  run_hooks_missing (move dest ∷ hooks) w t gone = absurd t.0
  run_hooks_missing (exec cmd ∷ hooks) w t gone = absurd t.0
  run_hooks_missing (scp host dest pool delete ∷ hooks) w t gone = absurd t.0
  run_hooks_missing (validate_zip full ∷ hooks) w t gone = absurd t.0

hooks_fail :
    (std : Std) (h : Host) (path : Text) (x : OsError) (hooks : List Action) (w : h.files.World)
    → All IsTemplated hooks
    → h.files.stat w path ≡ err x
    → All (λ a. (execute std h a path w).0 ≢ none) hooks
unfolding execute
hooks_fail std h path x [] w t gone = tt
hooks_fail std h path x (notify m ∷ hooks) w t gone =
    ((notify_missing std h path x m w t.0 gone).0, hooks_fail std h path x hooks w t.1 gone)
hooks_fail std h path x (move dest ∷ hooks) w t gone = absurd t.0
hooks_fail std h path x (exec cmd ∷ hooks) w t gone = absurd t.0
hooks_fail std h path x (scp host dest pool delete ∷ hooks) w t gone = absurd t.0
hooks_fail std h path x (validate_zip full ∷ hooks) w t gone = absurd t.0

-- A rule that moves the file: if its one action succeeds, notifications with placeholders in
-- on_success never appear: Execute of each of them returns an error, since the file that it reads is
-- gone, and the world is as the move left it. The destination is not the file itself.
pub fire_move_notify :
    (std : Std) (h : Host) (laws : TakesAway h.files) (path tmpl dir : Text) (cr : CompiledRule std)
    (w : h.files.World)
    → cr.actions ≡ move tmpl ∷ []
    → All IsTemplated cr.on_success
    → resolve_dest std (h.files.stat w) tmpl path ≡ ok dir
    → join dir (base path) ≢ path
    → (fire std (runner std h) false path cr w).error ≡ none
    → let moved = move_execute h.files std tmpl path w in
      (moved.0 ≡ none)
      × ((fire std (runner std h) false path cr w).world ≡ moved.1)
      × All (λ a. (execute std h a path moved.1).0 ≢ none) cr.on_success
unfolding fire execute_rule run_actions execute
fire_move_notify std h laws path tmpl dir cr w only templated resolved away good =
    let moved = move_execute h.files std tmpl path w in
    let done : moved.0 ≡ none = ground (arith, only) in
    let gone = move_execute_gone h.files laws std tmpl path dir w resolved away done in
    (
      done,
      ground (
        arith,
        only,
        done,
        run_hooks_missing std h path not_exist cr.on_success moved.1 templated gone,
      ),
      hooks_fail std h path not_exist cr.on_success moved.1 templated gone,
    )
