-- ===== src/Daemon/Tracker.antt =====
-- sweep.go: processTracker, the files already processed. A nil tracker is `none`.
pub mod Laws
use avella.Common.{
  Bool, true, false, not, ◌&&◌, Option, none, some, Result, ok, err, ◌==◌, if◌then◌else◌, [],
}
use avella.Common.Dict.{Dict, lookup, insert, retain}
use avella.Common.Int.{ℤ, int_eq}
use avella.Common.Text.{Text, text_eq}
use avella.Go.Os.{FileInfo, Stat, OsError, not_exist, os_failure}

pub record FileFingerprint : Type 0 where
  pub size : ℤ
  pub mod_time : ℤ

pub record ProcessedRecord : Type 0 where
  pub fingerprint : FileFingerprint
  pub dry_run : Bool

abbrev pub Tracker : Type 0
Tracker = Dict Text ProcessedRecord

abbrev pub new_process_tracker : Option Tracker
new_process_tracker = some []

abbrev pub fingerprint_for : FileInfo → FileFingerprint
fingerprint_for info = record { size = info.size; mod_time = info.mod_time }

abbrev pub same_fingerprint : FileFingerprint → FileFingerprint → Bool
same_fingerprint a b = a.size == b.size && a.mod_time == b.mod_time

-- The decision on the record of a path, if it has one.
abbrev pub is_due : Option ProcessedRecord → FileInfo → Bool → Bool
is_due none info dry_run = true
is_due (some rec) info dry_run =
    if not (same_fingerprint rec.fingerprint (fingerprint_for info))
    then true
    else rec.dry_run && not dry_run

unfoldable pub should_process : Text → FileInfo → Bool → Option Tracker → Bool
should_process path info dry_run none = true
should_process path info dry_run (some t) = is_due (lookup path t) info dry_run

unfoldable pub mark_processed : Text → FileInfo → Bool → Option Tracker → Option Tracker
mark_processed path info dry_run none = none
mark_processed path info dry_run (some t) =
    some (insert path (record { fingerprint = fingerprint_for info; dry_run = dry_run }) t)

-- `errors.Is(err, os.ErrNotExist)`
abbrev pub is_missing : Result OsError FileInfo → Bool
is_missing (ok info) = false
is_missing (err not_exist) = true
is_missing (err os_failure) = false

unfoldable pub prune : Stat → Option Tracker → Option Tracker
prune stat none = none
prune stat (some t) = some (retain (λ path. not (is_missing (stat path))) t)

-- `Reset`. The method is called `clear` here, beside the timer's `reset`.
unfoldable pub clear : Option Tracker → Option Tracker
clear none = none
clear (some t) = some []
