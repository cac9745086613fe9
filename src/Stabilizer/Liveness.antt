-- ===== src/Stabilizer/Liveness.antt =====
-- WaitStable returns nil if the size settles.
use avella.Common.{
  ℕ, zero, suc, ◌+◌, ◌≤◌, ◌<◌, ◌≡◌, refl, inl, inr, false, List, [], ◌∷◌, ◌++◌, Option, some, ok,
  leb, if◌then◌else◌, ◌==◌, arith, Bool-cases, ◌∙◌, All,
}
use avella.Common.Int.{ℤ, negsuc, int_eq}
use avella.Go.Os.{FileInfo}
use avella.Stabilizer.{Poll, WaitResult, stable, at_least_one, wait_loop, wait_stable}
use avella.Stabilizer.Laws.{Saw, Run, at_least_one_pos}

-- Rounds in which the file was there and the context was not done.
abbrev pub Fine : Poll → Type 0
Fine p = (p.done ≡ false) × (p.interrupted ≡ false) × ((info : FileInfo) × (p.stat ≡ ok info))

-- A fine round goes on with a new count, unless it completes the count.
data FineRound (checks : ℕ) (o : Option WaitResult) (polls : List Poll) : ℤ → Type 0 where
  completes : {s : ℤ} → o ≡ some stable → FineRound checks o polls s
  goes_on :
      {s : ℤ} (count : ℕ)
      → count < checks
      → o ≡ wait_loop checks s count polls
      → FineRound checks o polls s

fine_round :
    (checks : ℕ) (last : ℤ) (count : ℕ) (p : Poll) (polls : List Poll) (s : ℤ)
    → 0 < checks
    → Fine p
    → Saw s p
    → FineRound checks (wait_loop checks last count (p ∷ polls)) polls s
unfolding wait_loop
fine_round checks last count p polls s some_check fine (live, (info, e, size)) =
    elim (Bool-cases (info.size == last)) [
      | inl same ↦ elim (Bool-cases (leb checks (suc count))) [
        | inl reached ↦ completes (ground (arith, fine.1))
        | inr short ↦ goes_on (suc count) (ground arith) (ground (arith, fine.1))
      ]
      | inr differs ↦ goes_on 0 some_check (ground (arith, fine.1))
    ]

-- A round that sees the last size once more.
same_round :
    (checks : ℕ) (s : ℤ) (count : ℕ) (p : Poll) (polls : List Poll)
    → Fine p
    → Saw s p
    → wait_loop checks s count (p ∷ polls)
      ≡ (if leb checks (suc count) then some stable else wait_loop checks s (suc count) polls)
unfolding wait_loop
same_round checks s count p polls fine (live, (info, e, size)) = ground (arith, fine.1)

wait_loop-row :
    (checks : ℕ) (s : ℤ) (count m : ℕ) (row : List Poll)
    → count < checks
    → checks ≤ count + m
    → All Fine row
    → Run m s row
    → wait_loop checks s count row ≡ some stable
wait_loop-row checks s count zero row lt le fine run = absurd (omega arith)
wait_loop-row checks s count (suc m) [] lt le fine run = absurd run
wait_loop-row checks s count (suc m) (p ∷ row) lt le fine run =
    same_round checks s count p row fine.0 run.0 ∙ elim (Bool-cases (leb checks (suc count))) [
      | inl reached ↦ rw reached
      | inr short ↦
          rw short
            (wait_loop-row checks s (suc count) m row (ground arith) (omega arith) fine.1 run.1)
    ]

row_goes_on :
    (checks : ℕ) (s : ℤ) (count : ℕ) (row : List Poll)
    → count < checks
    → All Fine row
    → Run checks s row
    → wait_loop checks s count row ≡ some stable
row_goes_on checks s count row lt fine run =
    wait_loop-row checks s count checks row lt (omega arith) fine run

wait_loop_live :
    (checks : ℕ) (last : ℤ) (count : ℕ) (before row : List Poll) (s : ℤ)
    → 0 < checks
    → All Fine before
    → All Fine row
    → Run (suc checks) s row
    → wait_loop checks last count (before ++ row) ≡ some stable
wait_loop_live checks last count [] [] s some_check fine fine_row run = absurd run
wait_loop_live checks last count [] (p ∷ row) s some_check fine fine_row run =
    elim (fine_round checks last count p row s some_check fine_row.0 run.0) [
      | completes e ↦ e
      | goes_on c lt e ↦ e ∙ row_goes_on checks s c row lt fine_row.1 run.1
    ]
wait_loop_live checks last count (p ∷ before) row s some_check fine fine_row run =
    let (live, _, (info, e)) = fine.0 in
    elim (fine_round checks last count p (before ++ row) info.size some_check fine.0
      (live, (info, e, refl))) [
        | completes e ↦ e
        | goes_on c lt e ↦
            e ∙ wait_loop_live checks info.size c before row s some_check fine.1 fine_row run
      ]

-- If no round of WaitStable finds the file missing, or os.Stat failing, or the context done, then a
-- row of equal sizes that is one longer than the checks (one at least) makes it return nil, in that
-- row or before it, whatever sizes the rounds before the row saw.
pub wait_stable_live :
    (checks : ℤ) (before row : List Poll) (s : ℤ)
    → All Fine before
    → All Fine row
    → Run (suc (at_least_one checks)) s row
    → wait_stable checks (before ++ row) ≡ some stable
unfolding wait_stable
wait_stable_live checks before row s fine fine_row run =
    wait_loop_live (at_least_one checks) (negsuc 0) 0 before row s (at_least_one_pos checks) fine
      fine_row run
