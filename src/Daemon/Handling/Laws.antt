-- ===== src/Daemon/Handling/Laws.antt =====
-- The sections of handlePath, alone and among other goroutines.
use avella.Common.{
  ℕ, ◌≡◌, refl, ap, ◌∙◌, true, none, ok, err, Result-cases, Bool-cases, inl, inr, arith,
  if◌then◌else◌,
}
use avella.Common.Text.{Text}
use avella.Daemon.Handling.{
  Point, called, wanted, found, asked, due, matched, finished, Handling, start, section, advance,
  Step, advances, toggles, swaps, resets, Steps, stop, go,
}
use avella.Go.Os.{FileInfo}
use avella.Daemon.Tracker.{should_process}
use avella.Rules.Engine.Process.{process, should_ignore}
use avella.Stabilizer.{should_skip}
use avella.Daemon.Runtime.{
  Runtime, Handled, unhandled, after_process, handle_path, set_dry_run, swap_engine,
}
use avella.Go.{Std}
use avella.Rules.Engine.{Engine, Runner, Moment}
use avella.Rules.Engine.Process.Laws.{process_dry}

module _ (std : Std) (r : Runner) where
  module _ (ignoring processing : ℕ → Moment) (path : Text) (rt : Runtime std) (w : r.World) where
    -- All sections one after the other.
    abbrev whole : Handling std r
    whole =
        let one = advance std r ignoring processing in
        one (one (one (one (one (one (start std r path rt w))))))

    one : Handling std r → Handling std r
    one = advance std r ignoring processing

    at : Point → Handling std r
    at p = record { runtime = rt; world = w; point = p }

    -- handlePath has returned.
    abbrev over : Handled std r → Handling std r
    over h = record { runtime = h.runtime; world = h.world; point = finished h.recent }

    finished-over : one (at (finished none)) ≡ over (unhandled std r rt w)
    unfolding one at advance unhandled
    finished-over = refl

    due-over :
        (info : FileInfo)
        → one (one (at (due path info)))
          ≡ over (after_process std r path info rt (process std r processing rt.engine path w))
    unfolding one at advance unhandled after_process
    due-over info = ground arith

    asked-over :
        (info : FileInfo)
        → one (one (one (at (asked path info rt.dry_run))))
          ≡ over (
              if should_process path info rt.dry_run rt.tracker
              then after_process std r path info rt (process std r processing rt.engine path w)
              else unhandled std r rt w)
    unfolding one at advance unhandled after_process
    asked-over info = elim (Bool-cases (should_process path info rt.dry_run rt.tracker)) [
      | inl is_due ↦ rw is_due (due-over info)
      | inr not_due ↦ rw not_due refl
    ]

    wanted-over :
        one (one (one (one (one (at (wanted path))))))
        ≡ over (elim (r.stat w path) [
          | err _ ↦ unhandled std r rt w
          | ok info ↦
              if should_process path info rt.dry_run rt.tracker
              then after_process std r path info rt (process std r processing rt.engine path w)
              else unhandled std r rt w
        ])
    unfolding one at advance unhandled
    wanted-over = elim (Result-cases (r.stat w path)) [
      | inl (info, there) ↦ rw there (asked-over info)
      | inr (x, missing) ↦ rw missing refl
    ]

    -- Without another goroutine, the sections do what handlePath does as a whole.
    whole-handle_path :
        let h = handle_path std r ignoring processing path rt w in
        whole ≡ record { runtime = h.runtime; world = h.world; point = finished h.recent }
    unfolding one at advance handle_path start unhandled
    whole-handle_path = elim (Bool-cases (should_skip std path)) [
      | inl skipped ↦ rw skipped refl
      | inr kept ↦ elim (Bool-cases (should_ignore std (r.stat w) ignoring rt.engine path)) [
        | inl ignored ↦ rw (kept, ignored) refl
        | inr noticed ↦ rw (kept, noticed) wanted-over
      ]
    ]

  -- The step leaves no engine in which actions would be executed.
  abbrev pub IsDry : {s t : Handling std r} → Step std r s t → Type 0
  IsDry (advances ignoring processing s) = Unit
  IsDry (toggles enabled s) = enabled ≡ true
  IsDry (swaps engine pool s) = engine.dry_run ≡ true
  IsDry (resets s) = Unit

  abbrev pub AllDry : {s t : Handling std r} → Steps std r s t → Type 0
  AllDry (stop s) = Unit
  AllDry (go st rest) = IsDry st × AllDry rest

  point-dry :
      (ignoring processing : ℕ → Moment) (p : Point) (s : Handling std r)
      → s.runtime.engine.dry_run ≡ true
      → ((section std r ignoring processing p s).world ≡ s.world)
        × ((section std r ignoring processing p s).runtime.engine ≡ s.runtime.engine)
  unfolding section
  point-dry ignoring processing (called path) s dry = (refl, refl)
  point-dry ignoring processing (wanted path) s dry = (refl, refl)
  point-dry ignoring processing (found path info) s dry = (refl, refl)
  point-dry ignoring processing (asked path info dry_run) s dry = (refl, refl)
  point-dry ignoring processing (due path info) s dry =
      (process_dry std r processing s.runtime.engine path s.world dry, refl)
  point-dry ignoring processing (matched path info result) s dry = (refl, refl)
  point-dry ignoring processing (finished result) s dry = (refl, refl)

  advance-dry :
      (ignoring processing : ℕ → Moment) (s : Handling std r)
      → s.runtime.engine.dry_run ≡ true
      → ((advance std r ignoring processing s).world ≡ s.world)
        × ((advance std r ignoring processing s).runtime.engine ≡ s.runtime.engine)
  unfolding advance
  advance-dry ignoring processing s dry = point-dry ignoring processing s.point s dry

  -- Once dry-run mode is on, nothing is executed, at whatever point of handling a file it was set,
  -- and however toggles that set it again, reloads that keep it and the sections of handlePath come
  -- in between.
  pub Steps-dry :
      {s t : Handling std r} (steps : Steps std r s t)
      → s.runtime.engine.dry_run ≡ true
      → AllDry steps
      → t.world ≡ s.world
  Steps-dry (stop s) dry all = refl
  Steps-dry (go (advances ignoring processing s) rest) dry all =
      let (same, kept) = advance-dry ignoring processing s dry in
      Steps-dry rest (ap (λ (e : Engine std). e.dry_run) kept ∙ dry) all.1 ∙ same
  Steps-dry (go (toggles enabled s) rest) dry all =
      Steps-dry rest (unfold set_dry_run in all.0) all.1
  Steps-dry (go (swaps engine pool s) rest) dry all =
      Steps-dry rest (unfold swap_engine in all.0) all.1
  Steps-dry (go (resets s) rest) dry all = Steps-dry rest dry all.1
