-- ===== src/Daemon/Runtime/Reload/Laws.antt =====
-- Reloading: what it replaces, when it can fail, and the race with the dry-run toggle.
use mathlib.Core.Option.{some-injective}
use avella.Common.{
  ℕ, ◌++◌, Bool, Option, none, some, Result, ok, err, ◌≡◌, ◌≢◌, refl, ap, ◌∙◌, sym, map,
  Result-cases, ok-injective, inl, inr, ◌⊎◌,
}
use avella.Common.Text.{Text}
use avella.Config.{Config, MatchRule}
use avella.Config.Expand.{LoadError, load}
use avella.Config.Expand.Laws.{load-IsValidConfig}
use avella.Daemon.Runtime.{Runtime, set_dry_run, swap_engine, pools_of}
use avella.Daemon.Runtime.Reload.{
  Prepared, prepare, install, reload_config, Reloading, Step, prepares, installs, toggles,
}
use avella.Daemon.Tracker.{clear}
use avella.Go.{Std}
use avella.Go.Os.{HomeDir, Stat}
use avella.Rules.Engine.{Engine}
use avella.Rules.Engine.Compile.{new_engine, new_ssh}
use avella.Rules.Engine.Compile.Laws.{new_engine_valid, new_engine-dry_run}

-- The mode that the tray shows is the mode in which the engine runs.
abbrev pub InSync : (std : Std) → Runtime std → Type 0
InSync std rt = rt.dry_run ≡ rt.engine.dry_run

module _ (std : Std) where
  pub prepare-dry_run :
      (id : ℕ) (dry_run : Bool) (loaded : Result LoadError Config) (p : Prepared std)
      → prepare std id dry_run loaded ≡ ok p
      → p.engine.dry_run ≡ dry_run
  unfolding prepare
  prepare-dry_run id dry_run (err x) p h = cc
  prepare-dry_run id dry_run (ok c) p h =
      elim (Result-cases (new_engine std c.rules c.ignored (new_ssh c.ssh_hosts id) dry_run)) [
        | inl (e, made) ↦
            ap (λ (q : Prepared std). q.engine.dry_run)
              (sym (ok-injective (rw (made, prepare) at h)))
            ∙ new_engine-dry_run std c.rules c.ignored (new_ssh c.ssh_hosts id) dry_run e made
        | inr (x, failed) ↦ absurd (cc (rw (failed, prepare) at h))
      ]

  -- The tray and the engine agree, and a reload under way was prepared in the current mode.
  pub record IsSynced (s : Reloading std) : Type 0 where
    pub in_sync : InSync std s.runtime
    pub current : (p : Prepared std) → s.pending ≡ some p → p.engine.dry_run ≡ s.runtime.dry_run

  -- The tray and the engine stay in agreement through reloads and toggles, as long as the mode
  -- does not change while a reload is pending.
  Step-IsSynced :
      {s t : Reloading std}
      → Step std s t
      → (t.pending ≢ none → t.runtime.dry_run ≡ s.runtime.dry_run)
      → IsSynced s
      → IsSynced t
  unfolding install swap_engine set_dry_run
  Step-IsSynced (prepares s id loaded p idle made) quiet v = record {
    in_sync = v.in_sync;
    current = λ q e.
        ap (λ (x : Prepared std). x.engine.dry_run) (some-injective q p (sym e))
        ∙ prepare-dry_run id s.runtime.dry_run loaded p made;
  }
  Step-IsSynced (installs s p pending) quiet v = record {
    in_sync = sym (v.current p pending);
    current = λ q e. absurd (cc e);
  }
  Step-IsSynced (toggles s enabled) quiet v = record {
    in_sync = refl;
    current = λ q e. v.current q e ∙ sym (quiet (λ none_pending. cc));
  }

  -- A toggle between the two halves of a reload is lost on the new engine: it runs in the mode
  -- from before the toggle, while the daemon reports the mode that was asked for.
  pub toggle_lost :
      (id : ℕ) (loaded : Result LoadError Config) (rt : Runtime std) (p : Prepared std)
      (enabled : Bool)
      → prepare std id rt.dry_run loaded ≡ ok p
      → enabled ≢ rt.dry_run
      → let after = install std p (set_dry_run std enabled rt) in
        (after.dry_run ≡ enabled) × (after.engine.dry_run ≡ rt.dry_run) × ¬ InSync std after
  unfolding install swap_engine set_dry_run
  toggle_lost id loaded rt p enabled h differs =
      let old = prepare-dry_run id rt.dry_run loaded p h in
      (refl, old, λ same. differs (same ∙ old))

-- A reload whose file loads always succeeds: NewEngine has no error left to report. It installs an
-- engine in the current mode with the file's rules in order, adds the pool for its hosts, if it
-- has any, and forgets the processed files. A reload whose file does not load changes nothing.
pub reload_config_loaded :
    (std : Std) (read : Text → Option Config) (home : HomeDir) (stat : Stat) (path : Text) (id : ℕ)
    (rt : Runtime std)
    → let loaded = load std read home stat path in
      let after = reload_config std id loaded rt in
      ((x : LoadError) × (loaded ≡ err x) × (after ≡ rt))
      ⊎ ((c : Config) × (e : Engine std) × (loaded ≡ ok c)
          × (e.dry_run ≡ rt.dry_run)
          × (map {B = Text × MatchRule} (λ cr. (cr.name, cr.criteria)) e.rules
              ≡ map (λ r. (r.name, r.criteria)) c.rules)
          × (after ≡ record rt {
            engine = e;
            ssh_pools = rt.ssh_pools ++ pools_of (new_ssh c.ssh_hosts id);
            tracker = clear rt.tracker;
          }))
unfolding reload_config swap_engine
reload_config_loaded std read home stat path id rt =
    elim (Result-cases (load std read home stat path)) [
      | inr (x, failed) ↦ inl (x, failed, rw failed)
      | inl (c, e) ↦
          let v = load-IsValidConfig std read home stat path c e in
          let (engine, made, mode, names) = new_engine_valid std stat c id rt.dry_run v in
          inr (c, engine, e, mode, names, rw (e, made, reload_config, prepare))
    ]
