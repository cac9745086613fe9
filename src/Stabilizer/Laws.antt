-- ===== src/Stabilizer/Laws.antt =====
-- WaitStable returns nil only after enough equal sizes in a row.
use avella.Common.{
  ℕ, zero, suc, ◌+◌, ◌-◌, ◌≤◌, ◌<◌, ◌≡◌, ◌≢◌, refl, ◌⊎◌, inl, inr, false, List, [], ◌∷◌, Option,
  some, ok, leb, ◌==◌, arith, Bool-cases, subst, sym, ◌∙◌, All, Result-cases,
}
use avella.Common.Int.{ℤ, pos, negsuc, int_eq}
use avella.Go.Os.{FileInfo, OsError, not_exist, os_failure}
use avella.Stabilizer.{
  Poll, WaitResult, stable, cancelled, stat_result, at_least_one, wait_loop, wait_stable,
}

-- The round saw the file, at this size, and was not ended by the context before that.
abbrev pub Saw : ℤ → Poll → Type 0
Saw s p = (p.done ≡ false) × ((info : FileInfo) × (p.stat ≡ ok info) × (info.size ≡ s))

-- The first n rounds all saw the file at one size.
abbrev pub Run : ℕ → ℤ → List Poll → Type 0
Run zero s polls = Unit
Run (suc n) s [] = ⊥
Run (suc n) s (p ∷ polls) = Saw s p × Run n s polls

-- `os.Stat` of a regular file reports a size that is not negative.
abbrev pub SizeIsNatural : Poll → Type 0
SizeIsNatural p = (info : FileInfo) → p.stat ≡ ok info → (n : ℕ) × (info.size ≡ pos n)

-- Somewhere n + 1 rounds in a row saw the file at one size.
pub data Settles (n : ℕ) : List Poll → Type 0 where
  here : {polls : List Poll} (s : ℤ) → Run (suc n) s polls → Settles n polls
  later : {p : Poll} {polls : List Poll} → Settles n polls → Settles n (p ∷ polls)

-- What one round does: it ends the loop, sees the last size once more, or sees another.
data Round (checks : ℕ) (last : ℤ) (count : ℕ) (p : Poll) (polls : List Poll) : Type 0 where
  ends :
      (r : WaitResult)
      → r ≢ stable
      → wait_loop checks last count (p ∷ polls) ≡ some r
      → Round checks last count p polls
  enough :
      Saw last p
      → checks ≤ suc count
      → wait_loop checks last count (p ∷ polls) ≡ some stable
      → Round checks last count p polls
  again :
      Saw last p
      → suc count < checks
      → wait_loop checks last count (p ∷ polls) ≡ wait_loop checks last (suc count) polls
      → Round checks last count p polls
  other :
      (s : ℤ)
      → Saw s p
      → wait_loop checks last count (p ∷ polls) ≡ wait_loop checks s 0 polls
      → Round checks last count p polls

stat_result-ne-stable : (e : OsError) → stat_result e ≢ stable
stat_result-ne-stable not_exist h = cc
stat_result-ne-stable os_failure h = cc

module _ (checks : ℕ) (last : ℤ) (count : ℕ) (p : Poll) (polls : List Poll) where
  Round-seen :
      (info : FileInfo) → p.done ≡ false → p.stat ≡ ok info → Round checks last count p polls
  unfolding wait_loop
  Round-seen info live e = elim (Bool-cases (info.size == last)) [
    | inl same ↦ elim (Bool-cases (leb checks (suc count))) [
      | inl reached ↦ enough (live, (info, e, ground arith)) (ground arith) (ground arith)
      | inr short ↦ elim (Bool-cases p.interrupted) [
        | inl cut ↦ ends cancelled (λ h. cc) (ground arith)
        | inr waited ↦ again (live, (info, e, ground arith)) (ground arith) (ground arith)
      ]
    ]
    | inr differs ↦ elim (Bool-cases p.interrupted) [
      | inl cut ↦ ends cancelled (λ h. cc) (ground arith)
      | inr waited ↦ other info.size (live, (info, e, refl)) (ground arith)
    ]
  ]

  round : Round checks last count p polls
  unfolding wait_loop
  round = elim (Bool-cases p.done) [
    | inl done ↦ ends cancelled (λ h. cc) (ground arith)
    | inr live ↦ elim (Result-cases p.stat) [
      | inl (info, e) ↦ Round-seen info live e
      | inr (x, e) ↦ ends (stat_result x) (stat_result-ne-stable x) (ground arith)
    ]
  ]

not_stable :
    {o : Option WaitResult} (r : WaitResult) → r ≢ stable → o ≡ some r → o ≡ some stable → ⊥
not_stable r differs e h = differs (cc)

-- A round that sees another size starts the count over: what follows settles, or completes it.
restart :
    (checks n : ℕ) (s : ℤ) (p : Poll) (polls : List Poll)
    → suc n ≡ checks
    → Saw s p
    → Run (suc n) s polls ⊎ Settles checks polls
    → Settles checks (p ∷ polls)
restart checks n s p polls e saw (inl run) = here s (saw, subst (λ k. Run k s polls) e run)
restart checks n s p polls e saw (inr settles) = later settles

-- `k` more equal sizes are missing after the next one.
wait_loop_sound :
    (checks : ℕ) (last : ℤ) (count k : ℕ) (polls : List Poll)
    → count + suc k ≡ checks
    → wait_loop checks last count polls ≡ some stable
    → Run (suc k) last polls ⊎ Settles checks polls
wait_loop_sound checks last count k [] left h = absurd (unfold wait_loop in cc h)
wait_loop_sound checks last count zero (p ∷ polls) left h = elim (round checks last count p polls) [
  | ends r differs e ↦ absurd (not_stable r differs e h)
  | enough saw reached e ↦ inl (saw, tt)
  | again saw short e ↦ absurd (omega arith)
  | other s saw e ↦ inr (
      restart checks count s p polls (omega arith) saw
        (wait_loop_sound checks s 0 count polls (omega arith) (sym e ∙ h)))
]
wait_loop_sound checks last count (suc k) (p ∷ polls) left h =
    elim (round checks last count p polls) [
      | ends r differs e ↦ absurd (not_stable r differs e h)
      | enough saw reached e ↦ absurd (omega arith)
      | again saw short e ↦
          elim (wait_loop_sound checks last (suc count) k polls (omega arith) (sym e ∙ h)) [
            | inl run ↦ inl (saw, run)
            | inr settles ↦ inr (later settles)
          ]
      | other s saw e ↦ inr (
          restart checks (count + suc k) s p polls (omega arith) saw
            (wait_loop_sound checks s 0 (count + suc k) polls (omega arith) (sym e ∙ h)))
    ]

not-Saw_negative : (p : Poll) → SizeIsNatural p → ¬ Saw (negsuc 0) p
not-Saw_negative p natural (live, (info, e, s)) = let (n, natural_size) = natural info e in cc

not-Run_negative :
    (n : ℕ) (polls : List Poll) → All SizeIsNatural polls → ¬ Run (suc n) (negsuc 0) polls
not-Run_negative n [] natural run = run
not-Run_negative n (p ∷ polls) natural run = not-Saw_negative p natural.0 run.0

pub at_least_one_pos : (checks : ℤ) → 0 < at_least_one checks
unfolding at_least_one
at_least_one_pos (pos zero) = omega arith
at_least_one_pos (pos (suc n)) = omega arith
at_least_one_pos (negsuc n) = omega arith

-- WaitStable returns nil only if the file had one size in a row of rounds that has one more round
-- than the checks asked for (one at least), sizes being natural numbers.
pub wait_stable-sound :
    (checks : ℤ) (polls : List Poll)
    → All SizeIsNatural polls
    → wait_stable checks polls ≡ some stable
    → Settles (at_least_one checks) polls
unfolding wait_stable
wait_stable-sound checks polls natural h =
    let n = at_least_one checks - 1 in
    let whole : 0 + suc n ≡ at_least_one checks = omega (arith, at_least_one_pos checks) in
    elim (wait_loop_sound (at_least_one checks) (negsuc 0) 0 n polls whole h) [
      | inl run ↦ absurd (not-Run_negative n polls natural run)
      | inr settles ↦ settles
    ]
