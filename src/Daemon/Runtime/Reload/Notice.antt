-- ===== src/Daemon/Runtime/Reload/Notice.antt =====
-- main.go: the desktop notification by which reloadConfig tells how it ended. How osascript shows it
-- is not here.
use mathlib.Core.Path.{◌≡◌, refl}
use avella.Common.{
  ℕ, sym, ap, ◌∙◌, Bool, false, not, List, length, Result, ok, err, Result-cases, inl, inr, ◌==◌,
  ◌⊎◌,
}
use avella.Common.Text.{Text, texts_eq}
use avella.Config.{Config}
use avella.Config.Expand.{LoadError}
use avella.Daemon.Runtime.{Runtime, swap_engine}
use avella.Daemon.Runtime.Reload.{
  Prepared, ReloadError, prepare, install, reload_config, load_failed, engine_failed,
}
use avella.Go.{Std}
use avella.Rules.Engine.Compile.{new_engine, new_ssh}
use avella.Rules.Engine.Compile.Laws.{new_engine-length}

-- "Config reload failed: %v", or "Config reloaded (%d rules)", which may be followed by "; restart
-- required for watch dir changes".
pub data Notice : Type 0 where
  failed : ReloadError → Notice
  reloaded : (rules : ℕ) → (restart_required : Bool) → Notice

-- `!reflect.DeepEqual(cfg.Watch, watchDirs)`, for directories that there are
unfoldable pub watch_changed : List Text → Result LoadError Config → Bool
watch_changed dirs (err e) = false
watch_changed dirs (ok c) = not (c.watch == dirs)

module _ (std : Std) where
  -- The notice of a reload in a daemon that watches `dirs`.
  unfoldable pub reload_notice : List Text → ℕ → Result LoadError Config → Runtime std → Notice
  reload_notice dirs id loaded rt = elim (prepare std id rt.dry_run loaded) [
    | err x ↦ failed x
    | ok p ↦ reloaded (length p.rules) (watch_changed dirs loaded)
  ]

  -- The notice is true: it tells of a failure only if the daemon is as it was, and of a number of
  -- rules only if the engine that runs has so many, of the file that was loaded; it asks for a
  -- restart exactly if that file has other directories than those watched.
  reload_notice_true :
      (dirs : List Text) (id : ℕ) (loaded : Result LoadError Config) (rt : Runtime std)
      → ((x : ReloadError) × (reload_notice dirs id loaded rt ≡ failed x)
          × (reload_config std id loaded rt ≡ rt))
        ⊎ ((c : Config) × (loaded ≡ ok c)
            × (reload_notice dirs id loaded rt
                ≡ reloaded
                    (length (reload_config std id loaded rt).engine.rules)
                    (not (c.watch == dirs)))
            × (length (reload_config std id loaded rt).engine.rules ≡ length c.rules))
  unfolding reload_notice reload_config watch_changed prepare install swap_engine
  reload_notice_true dirs id (err x) rt = inl (load_failed x, refl, refl)
  reload_notice_true dirs id (ok c) rt =
      elim (Result-cases (new_engine std c.rules c.ignored (new_ssh c.ssh_hosts id) rt.dry_run)) [
        | inl (e, made) ↦
            let same =
              new_engine-length std c.rules c.ignored (new_ssh c.ssh_hosts id) rt.dry_run e made in
            let p : Prepared std = record {
              engine = e;
              pool = new_ssh c.ssh_hosts id;
              rules = c.rules;
            } in
            let swapped : reload_config std id (ok c) rt ≡ install std p rt =
              rw (made, reload_config) refl in
            let told : reload_notice dirs id (ok c) rt
                ≡ reloaded (length c.rules) (not (c.watch == dirs)) =
              rw (made, reload_notice) refl in
            let counted = ap (λ (x : Runtime std). length x.engine.rules) swapped ∙ same in
            inr
              (c, refl, told ∙ ap (λ n. reloaded n (not (c.watch == dirs))) (sym counted), counted)
        | inr (x, bad) ↦
            inl (engine_failed x, rw (bad, reload_notice) refl, rw (bad, reload_config) refl)
      ]
