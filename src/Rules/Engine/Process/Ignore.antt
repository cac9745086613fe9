-- ===== src/Rules/Engine/Process/Ignore.antt =====
-- ShouldIgnore is a question about the set of ignore rules.
use mathlib.Core.Logic.{∥∥₁_map, ∥∥₁_elim}
use mathlib.Core.List.{Mem, mem-cons_self, mem-cons_of_mem, eq-or-mem_of_mem-cons, not-mem-nil}
use mathlib.Core.Bool.{Bool-set}
use avella.Common.{
  sym, subst, ℕ, suc, ◌≡◌, ◌↔◌, refl, Bool, true, false, Bool-cases, List, [], ◌∷◌, ok,
  Result-cases, inl, inr, arith,
}
use avella.Common.Int.{ℤ}
use avella.Common.Text.{Text}
use avella.Go.{Std}
use avella.Go.Os.{FileInfo, Stat}
use avella.Rules.Engine.{CompiledIgnore, Engine, Moment}
use avella.Rules.Engine.Process.{ignored_by, should_ignore}
use avella.Rules.Match.{matches}
use avella.Rules.Match.Laws.{Meets, matches-iff-Meets}

same_Bool : (a b : Bool) → (a ≡ true → b ≡ true) → (b ≡ true → a ≡ true) → a ≡ b
same_Bool true b f g = sym (f refl)
same_Bool false true f g = g refl
same_Bool false false f g = refl

module _ (std : Std) (moments : ℕ → Moment) (now : ℤ) (still : (i : ℕ) → (moments i).now ≡ now)
    (path : Text) where
  -- Some ignore rule is met at the moment `now`.
  abbrev pub IsIgnored : FileInfo → List (CompiledIgnore std) → Type 0
  IsIgnored info cis =
      (ci : CompiledIgnore std) × Mem ci cis
      × Meets std path info ci.criteria ci.regex ci.min_age now

  ignored_by_listed :
      (info : FileInfo) (i : ℕ) (cis : List (CompiledIgnore std))
      → ignored_by std moments path info i cis ≡ true
      → ∥ IsIgnored info cis ∥₁
  unfolding ignored_by
  ignored_by_listed info i [] h = absurd (cc h)
  ignored_by_listed info i (ci ∷ rest) h =
      elim (Bool-cases (matches std path info ci.criteria ci.regex ci.min_age (moments i).now)) [
        | inl match ↦ ∣ (
          ci,
          mem-cons_self,
          (matches-iff-Meets std path info ci.criteria ci.regex ci.min_age now).0
              (rw (still i) at match),
        ) ∣₁
        | inr miss ↦
            ∥∥₁_map (ignored_by_listed info (suc i) rest (ground (arith, miss)))
              (λ (c, m, meets). (c, mem-cons_of_mem ci m, meets))
      ]

  listed_ignored_by :
      (info : FileInfo) (i : ℕ) (cis : List (CompiledIgnore std)) (ci : CompiledIgnore std)
      → Mem ci cis
      → Meets std path info ci.criteria ci.regex ci.min_age now
      → ignored_by std moments path info i cis ≡ true
  unfolding ignored_by
  listed_ignored_by info i [] ci m meets = absurd (not-mem-nil m)
  listed_ignored_by info i (c ∷ rest) ci m meets =
      ∥∥₁_elim (eq-or-mem_of_mem-cons m) (Bool-set _ _) (λ o. elim o [
        | inl same ↦
            let met =
              subst
                (λ (x : CompiledIgnore std). Meets std path info x.criteria x.regex x.min_age now)
                same meets in
            let match = (matches-iff-Meets std path info c.criteria c.regex c.min_age now).1 met in
            rw (still i, match) refl
        | inr behind ↦ ground (arith, listed_ignored_by info (suc i) rest ci behind meets)
      ])

  -- While the clock stands still, ShouldIgnore is true exactly if the file is there and some ignore
  -- rule is met.
  pub should_ignore_iff :
      (stat : Stat) (e : Engine std)
      → (should_ignore std stat moments e path ≡ true)
        ↔ ((info : FileInfo) × (stat path ≡ ok info) × ∥ IsIgnored info e.ignores ∥₁)
  unfolding should_ignore
  should_ignore_iff stat e = (
    λ h. elim (Result-cases (stat path)) [
      | inl (info, there) ↦
          (info, there, ignored_by_listed info 0 e.ignores (rw (there, should_ignore) at h))
      | inr (x, missing) ↦ absurd (cc (rw (missing, should_ignore) at h))
    ],
    λ (info, there, listed).
        rw (there, should_ignore)
          (∥∥₁_elim listed (Bool-set _ _)
            (λ (ci, m, meets). listed_ignored_by info 0 e.ignores ci m meets)),
  )

  -- Engines with the same ignore rules ignore the same files, in whatever order they were compiled.
  pub should_ignore_order :
      (stat : Stat) (a b : Engine std)
      → ((ci : CompiledIgnore std) → Mem ci a.ignores ↔ Mem ci b.ignores)
      → should_ignore std stat moments a path ≡ should_ignore std stat moments b path
  should_ignore_order stat a b same =
      let carry =
        λ (x y : Engine std)
            (step : (ci : CompiledIgnore std) → Mem ci x.ignores → Mem ci y.ignores)
            (h : should_ignore std stat moments x path ≡ true).
          let (info, there, listed) = (should_ignore_iff stat x).0 h in
          (should_ignore_iff stat y).1
            (info, there, ∥∥₁_map listed (λ (ci, m, meets). (ci, step ci m, meets))) in
      same_Bool _ _ (carry a b (λ ci. (same ci).0)) (carry b a (λ ci. (same ci).1))
