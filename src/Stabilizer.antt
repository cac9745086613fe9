-- ===== src/Stabilizer.antt =====
-- stabilizer/stabilizer.go: ShouldSkip, and WaitStable over the polls that it makes.
pub mod Laws
pub mod Liveness
use avella.Common.{
  ℕ, zero, suc, Bool, true, false, List, [], ◌∷◌, Option, none, some, Result, ok, err, leb,
  contains, if◌then◌else◌, ◌==◌,
}
use avella.Common.Int.{ℤ, pos, negsuc, int_eq}
use avella.Common.Text.{Text, str, text_eq}
use avella.Go.{Std}
use avella.Go.FilePath.{ext}
use avella.Go.Os.{FileInfo, OsError, not_exist, os_failure}
use avella.Go.Strings.{to_lower}

abbrev pub skip_extensions : List Text
skip_extensions =
    str ".part" ∷ str ".tmp" ∷ str ".crdownload" ∷ str ".download" ∷ str ".kextraction" ∷ []

unfoldable pub should_skip : Std → Text → Bool
should_skip std path = contains skip_extensions (to_lower std.unicode_lower (ext path))

-- One round of the loop: whether the context was done at its start, what `os.Stat` returned, and
-- whether the wait for the interval ended by the context instead.
pub record Poll : Type 0 where
  pub done : Bool
  pub stat : Result OsError FileInfo
  pub interrupted : Bool

pub data WaitResult : Type 0 where
  stable : WaitResult
  cancelled : WaitResult
  file_removed : WaitResult
  stat_error : WaitResult

abbrev pub stat_result : OsError → WaitResult
stat_result not_exist = file_removed
stat_result os_failure = stat_error

-- `if checks < 1 { checks = 1 }`
unfoldable pub at_least_one : ℤ → ℕ
at_least_one (pos zero) = 1
at_least_one (pos (suc n)) = suc n
at_least_one (negsuc n) = 1

-- The loop, with `lastSize` and `stable`. `none`: still waiting after the given polls.
unfoldable pub wait_loop : ℕ → ℤ → ℕ → List Poll → Option WaitResult
wait_loop checks last count [] = none
wait_loop checks last count (p ∷ polls) = if p.done then some cancelled else elim p.stat [
  | err e ↦ some (stat_result e)
  | ok info ↦
      let same = info.size == last in
      let rest =
        wait_loop checks (if same then last else info.size) (if same then suc count else 0) polls in
      if same
      then (if leb checks (suc count)
          then some stable
          else if p.interrupted
          then some cancelled
          else rest)
      else if p.interrupted
      then some cancelled
      else rest
]

unfoldable pub wait_stable : ℤ → List Poll → Option WaitResult
unfolding wait_loop at_least_one
wait_stable checks polls = wait_loop (at_least_one checks) (negsuc 0) 0 polls
