-- ===== src/Daemon/Tracker/Laws.antt =====
-- The tracker against the history of its calls.
use avella.Common.{
  Bool, true, false, not, ◌≡◌, refl, sym, ◌≢◌, ◌∙◌, Option, none, some, ◌==◌, List, [], ◌∷◌,
  if◌then◌else◌, arith, All, ◌⊎◌, ◌↔◌, Result, ok, err,
}
use avella.Common.Dict.{lookup, insert, retain, lookup-insert, lookup-retain}
use avella.Common.Int.{ℤ, int_eq}
use avella.Common.Text.{Text, text_eq}
use avella.Daemon.Tracker.{
  Tracker, ProcessedRecord, fingerprint_for, is_due, is_missing, should_process, mark_processed,
  prune, clear, new_process_tracker,
}
use avella.Go.Os.{FileInfo, Stat, OsError, not_exist, os_failure}

pub data Call : Type 0 where
  mark : (path : Text) (info : FileInfo) (dry_run : Bool) → Call
  prunes : (stat : Stat) → Call
  clears : Call

abbrev pub apply : Call → Option Tracker → Option Tracker
apply (mark path info dry_run) t = mark_processed path info dry_run t
apply (prunes stat) t = prune stat t
apply clears t = clear t

-- The tracker after a history, the latest call first.
abbrev pub after : List Call → Option Tracker
after [] = new_process_tracker
after (c ∷ earlier) = apply c (after earlier)

-- What a MarkProcessed recorded of a file.
pub record Mark : Type 0 where
  pub size : ℤ
  pub mod_time : ℤ
  pub was_dry : Bool

-- A Prune drops the record of a file that is not there; another error of os.Stat keeps it.
abbrev pub kept : Result OsError FileInfo → Option Mark → Option Mark
kept (err not_exist) m = none
kept (err os_failure) m = m
kept (ok info) m = m

-- The latest mark of a path that no later call dropped.
abbrev pub latest : Text → List Call → Option Mark
latest path [] = none
latest path (mark p info dry_run ∷ earlier) =
    if p == path
    then some (record { size = info.size; mod_time = info.mod_time; was_dry = dry_run })
    else latest path earlier
latest path (prunes stat ∷ earlier) = kept (stat path) (latest path earlier)
latest path (clears ∷ earlier) = none

-- When a file is to be processed: it has no mark, or it changed, or it was only dry-run and this is
-- not a dry run.
abbrev pub IsDue : Option Mark → FileInfo → Bool → Type 0
IsDue none info dry_run = Unit
IsDue (some m) info dry_run =
    (m.size ≢ info.size) ⊎ (m.mod_time ≢ info.mod_time) ⊎ ((m.was_dry ≡ true) × (dry_run ≡ false))

-- The record that the tracker holds for a mark.
abbrev recorded : Option Mark → Option ProcessedRecord
recorded none = none
recorded (some m) =
    some (record {
      fingerprint = record { size = m.size; mod_time = m.mod_time };
      dry_run = m.was_dry;
    })

recorded-kept :
    (found : Result OsError FileInfo) (m : Option Mark)
    → recorded (kept found m) ≡ (if not (is_missing found) then recorded m else none)
recorded-kept (err not_exist) m = refl
recorded-kept (err os_failure) m = refl
recorded-kept (ok info) m = refl

is_due-IsDue :
    (m : Option Mark) (info : FileInfo) (dry_run : Bool)
    → (is_due (recorded m) info dry_run ≡ true) ↔ IsDue m info dry_run
is_due-IsDue none info dry_run = (λ h. tt, λ due. refl)
is_due-IsDue (some m) info dry_run = (λ h. ground arith, λ due. ground arith)

-- The tracker that a history leaves, and what it holds of each path.
after-some :
    (calls : List Call)
    → (m : Tracker) × (after calls ≡ some m)
      × ((path : Text) → lookup path m ≡ recorded (latest path calls))
unfolding mark_processed prune clear lookup
after-some [] = ([], refl, λ path. refl)
after-some (mark p info dry_run ∷ earlier) =
    let (m, e, h) = after-some earlier in
    let rec : ProcessedRecord = record { fingerprint = fingerprint_for info; dry_run = dry_run } in
    (insert p rec m, rw e, λ path. lookup-insert p path rec m ∙ ground (arith, h path))
after-some (prunes stat ∷ earlier) =
    let (m, e, h) = after-some earlier in
    (
      retain (λ path. not (is_missing (stat path))) m,
      rw e,
      λ path.
          lookup-retain (λ path. not (is_missing (stat path))) path m
          ∙ rw (h path) (sym (recorded-kept (stat path) (latest path earlier))),
    )
after-some (clears ∷ earlier) = let (m, e, h) = after-some earlier in ([], rw e, λ path. refl)

-- Whatever calls were made, the tracker gives a file out for processing exactly if the path has no
-- mark that a Prune of the missing file or a Reset has not dropped, or the size or the modification
-- time differs from the latest such mark, or that is of a dry run and this is not one.
pub should_process-after :
    (calls : List Call) (path : Text) (info : FileInfo) (dry_run : Bool)
    → (should_process path info dry_run (after calls) ≡ true)
      ↔ IsDue (latest path calls) info dry_run
unfolding should_process
should_process-after calls path info dry_run =
    let (m, e, h) = after-some calls in
    rw (e, h path) (is_due-IsDue (latest path calls) info dry_run)

-- The call drops no record of the path, and makes none.
abbrev pub Keeps : Text → Call → Type 0
Keeps path (mark p info dry_run) = p ≢ path
Keeps path (prunes stat) = stat path ≢ err not_exist
Keeps path clears = ⊥

-- The tracker after further calls, the latest first.
abbrev pub since : List Call → Option Tracker → Option Tracker
since [] t = t
since (c ∷ earlier) t = apply c (since earlier t)

present : (found : Result OsError FileInfo) → found ≢ err not_exist → is_missing found ≡ false
present (ok info) h = refl
present (err not_exist) h = absurd (h refl)
present (err os_failure) h = refl

-- Such calls leave what the tracker holds of the path.
since-lookup :
    (path : Text) (later : List Call) (m : Tracker)
    → All (Keeps path) later
    → (m' : Tracker) × (since later (some m) ≡ some m') × (lookup path m' ≡ lookup path m)
unfolding mark_processed prune clear
since-lookup path [] m k = (m, refl, refl)
since-lookup path (mark p info dry_run ∷ later) m k =
    let (m', e, h) = since-lookup path later m k.1 in
    let rec : ProcessedRecord = record { fingerprint = fingerprint_for info; dry_run = dry_run } in
    (insert p rec m', rw e, lookup-insert p path rec m' ∙ ground (arith, h, k.0))
since-lookup path (prunes stat ∷ later) m k =
    let (m', e, h) = since-lookup path later m k.1 in
    (
      retain (λ path. not (is_missing (stat path))) m',
      rw e,
      lookup-retain (λ path. not (is_missing (stat path))) path m' ∙ rw (present (stat path) k.0) h,
    )
since-lookup path (clears ∷ later) m k = absurd k.0

-- A file that was processed is not due again while it does not change, whatever is done with other
-- files in between and however often the tracker is pruned while the file is there: a real run
-- counts in both modes, a dry run in dry-run mode only.
pub not_due_again :
    (path : Text) (info : FileInfo) (was_dry dry_run : Bool) (later : List Call)
    (t : Option Tracker)
    → t ≢ none
    → All (Keeps path) later
    → (was_dry ≡ true → dry_run ≡ true)
    → should_process path info dry_run (since later (mark_processed path info was_dry t)) ≡ false
unfolding should_process mark_processed
not_due_again path info was_dry dry_run later none held k mode = absurd (held refl)
not_due_again path info was_dry dry_run later (some t) held k mode =
    let rec : ProcessedRecord = record { fingerprint = fingerprint_for info; dry_run = was_dry } in
    let (m, e, h) = since-lookup path later (insert path rec t) k in
    rw (e, h, lookup-insert) (ground (arith, mode))
