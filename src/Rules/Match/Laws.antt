-- ===== src/Rules/Match/Laws.antt =====
-- Matches is the conjunction of the criteria that are given.
use avella.Common.{
  ℕ, zero, suc, ◌-◌, ◌*◌, ◌%◌, ◌^◌, ◌≤◌, ◌<◌, ◌≡◌, ◌≢◌, refl, ap, ◌↔◌, Bool, true, false, Option,
  none, some, [], ◌∷◌, arith, inl, inr, ◌⊎◌, ◌&&◌, ◌==◌, Bool-cases, if◌then◌else◌,
}
use avella.Common.Int.{
  ℤ, pos, negsuc, ◌≤ℤ◌, ◌<ℤ◌, to_int64, to_int64_small, int_eq, ltb_ℤ, clamp_int64, ◌-ℤ◌,
}
use avella.Common.Text.{Text}
use avella.Config.{MatchRule}
use avella.Go.{Std}
use avella.Go.FilePath.{base}
use avella.Go.Os.{FileInfo}
use avella.Go.Strings.{equal_fold}
use avella.Template.{bare_ext}
use avella.Template.FileType.{classify_ext}
use avella.Rules.Match.{
  seconds, since, effective_min_age, has_type, matches, too_young, too_small, too_large,
  regex_fails, glob_fails, type_fails,
}

bounded_iff :
    (limit least most : ℤ)
    → ((ltb_ℤ (pos 0) limit && ltb_ℤ least most) ≡ false) ↔ (pos 0 <ℤ limit → most ≤ℤ least)
bounded_iff limit least most = (
  λ h p. ground arith,
  λ h. elim (Bool-cases (ltb_ℤ (pos 0) limit)) [
    | inl set ↦ ground (arith, h (ground arith))
    | inr unset ↦ rw unset
  ],
)

-- Where the limit on the age comes from: the parsed duration, or the seconds.
effective_min_age-cases :
    (rule : MatchRule) (min_age : ℤ)
    → ((effective_min_age rule min_age ≡ min_age)
        × ((min_age ≢ pos 0) ⊎ ¬ (pos 0 <ℤ rule.min_age_seconds)))
      ⊎ ((min_age ≡ pos 0)
          × (pos 0 <ℤ rule.min_age_seconds)
          × (effective_min_age rule min_age ≡ seconds rule.min_age_seconds))
unfolding effective_min_age
effective_min_age-cases rule min_age = elim (Bool-cases (min_age == pos 0)) [
  | inl unset ↦ elim (Bool-cases (ltb_ℤ (pos 0) rule.min_age_seconds)) [
    | inl given ↦ inr (ground arith, ground arith, ground arith)
    | inr missing ↦ inl (ground arith, inr (λ h. ground arith))
  ]
  | inr set ↦ inl (ground arith, inl (λ h. ground arith))
]

too_young_iff :
    (rule : MatchRule) (info : FileInfo) (min_age now : ℤ)
    → (too_young rule info min_age now ≡ false) ↔ (
        pos 0 <ℤ effective_min_age rule min_age
        → effective_min_age rule min_age ≤ℤ since now info.mod_time)
unfolding too_young
too_young_iff rule info min_age now =
    bounded_iff _ (since now info.mod_time) (effective_min_age rule min_age)

ℤ-cases : (z : ℤ) → ((n : ℕ) × (z ≡ pos n)) ⊎ ((n : ℕ) × (z ≡ negsuc n))
ℤ-cases (pos n) = inl (n, refl)
ℤ-cases (negsuc n) = inr (n, refl)

-- The criteria on the age of a file, of which one counts at most.
abbrev IsOld : MatchRule → ℤ → ℤ → Type 0
IsOld rule min_age old =
    (pos 0 <ℤ min_age → min_age ≤ℤ old)
    × ((n : ℕ)
        → min_age ≡ pos 0
        → rule.min_age_seconds ≡ pos n
        → pos 0 <ℤ to_int64 (n * 1_000_000_000)
        → to_int64 (n * 1_000_000_000) ≤ℤ old)

no_seconds : (n : ℕ) → pos 0 <ℤ to_int64 (n * 1_000_000_000) → 0 < n
unfolding to_int64
no_seconds zero h = absurd (omega arith)
no_seconds (suc n) h = omega arith

IsOld-iff :
    (rule : MatchRule) (min_age old : ℤ)
    → (pos 0 <ℤ effective_min_age rule min_age → effective_min_age rule min_age ≤ℤ old)
      ↔ IsOld rule min_age old
unfolding seconds
IsOld-iff rule min_age old = elim (effective_min_age-cases rule min_age) [
  | inl (own, other) ↦ rw own (
    λ h. (
      h,
      λ n unset given wraps. elim other [
        | inl set ↦ absurd (set unset)
        | inr missing ↦ absurd (missing (rw given (omega (arith, no_seconds n wraps))))
      ],
    ),
    λ h. h.0,
  )
  | inr (unset, given, own) ↦ elim (ℤ-cases rule.min_age_seconds) [
    | inl (n, e) ↦
        rw (own, e, seconds)
          (
            λ h. (λ p. absurd (ground arith), λ m unset' given' wraps. ground (arith, h)),
            λ h p. h.1 n unset refl p,
          )
    | inr (n, e) ↦ absurd (ground arith)
  ]
]

too_small_iff :
    (rule : MatchRule) (info : FileInfo)
    → (too_small rule info ≡ false) ↔ (pos 0 <ℤ rule.min_size → rule.min_size ≤ℤ info.size)
unfolding too_small
too_small_iff rule info = bounded_iff _ info.size rule.min_size

too_large_iff :
    (rule : MatchRule) (info : FileInfo)
    → (too_large rule info ≡ false) ↔ (pos 0 <ℤ rule.max_size → info.size ≤ℤ rule.max_size)
unfolding too_large
too_large_iff rule info = bounded_iff _ rule.max_size info.size

-- A ladder of rejections accepts exactly if no test does.
ladder_iff :
    (a b c d e f : Bool)
    → ((if a
          then false
          else if b
          then false
          else if c
          then false
          else if d
          then false
          else if e
          then false
          else if f
          then false
          else true)
        ≡ true)
      ↔ ((a ≡ false) × (b ≡ false) × (c ≡ false) × (d ≡ false) × (e ≡ false) × (f ≡ false))
ladder_iff a b c d e f = (λ h. ground arith, λ h. ground arith)

matches_parts :
    (std : Std) (path : Text) (info : FileInfo) (rule : MatchRule) (regex : Option std.Regexp)
    (min_age now : ℤ)
    → (matches std path info rule regex min_age now ≡ true) ↔ (
        (regex_fails std regex (base path) ≡ false)
        × (glob_fails std rule.filename_glob (base path) ≡ false)
        × (type_fails std path rule.file_type ≡ false)
        × (too_young rule info min_age now ≡ false)
        × (too_small rule info ≡ false)
        × (too_large rule info ≡ false))
unfolding matches
matches_parts std path info rule regex min_age now = ladder_iff _ _ _ _ _ _

module _ (std : Std) where
  -- The age of a file, which time.Since bounds to 64 bits.
  abbrev pub age : ℤ → FileInfo → ℤ
  age now info = clamp_int64 (now -ℤ info.mod_time)

  -- Every criterion that is given holds of the file. The seconds count if there is no other minimum
  -- age and their nanoseconds, which wrap to 64 bits, are positive.
  pub record Meets (path : Text) (info : FileInfo) (rule : MatchRule) (regex : Option std.Regexp)
      (min_age now : ℤ) : Type 0 where
    pub regex_holds : (re : std.Regexp) → regex ≡ some re → std.match_string re (base path) ≡ true
    pub glob_holds : rule.filename_glob ≢ [] → std.glob rule.filename_glob (base path) ≡ some true
    pub type_holds :
        rule.file_type ≢ []
        → equal_fold std.unicode_equal_fold (classify_ext std (bare_ext path)) rule.file_type ≡ true
    pub old_enough : pos 0 <ℤ min_age → min_age ≤ℤ age now info
    pub seconds_passed :
        (n : ℕ)
        → min_age ≡ pos 0
        → rule.min_age_seconds ≡ pos n
        → pos 0 <ℤ to_int64 (n * 1_000_000_000)
        → to_int64 (n * 1_000_000_000) ≤ℤ age now info
    pub large_enough : pos 0 <ℤ rule.min_size → rule.min_size ≤ℤ info.size
    pub small_enough : pos 0 <ℤ rule.max_size → info.size ≤ℤ rule.max_size

  regex_fails_iff :
      (regex : Option std.Regexp) (name : Text)
      → (regex_fails std regex name ≡ false)
        ↔ ((re : std.Regexp) → regex ≡ some re → std.match_string re name ≡ true)
  unfolding regex_fails
  regex_fails_iff none name = (λ _ re e. cc, λ _. refl)
  regex_fails_iff (some r) name = (λ h re e. ground arith, λ all. ground (arith, all r refl))

  glob_fails_iff :
      (pattern name : Text)
      → (glob_fails std pattern name ≡ false) ↔ (pattern ≢ [] → std.glob pattern name ≡ some true)
  unfolding glob_fails
  glob_fails_iff [] name = (λ _ set. absurd (set refl), λ _. refl)
  glob_fails_iff (c ∷ s) name = (λ h _. ground arith, λ h. ground (arith, h (λ e. cc)))

  type_fails_iff :
      (path t : Text) → (type_fails std path t ≡ false) ↔ (t ≢ [] → has_type std path t ≡ true)
  unfolding type_fails
  type_fails_iff path [] = (λ _ set. absurd (set refl), λ _. refl)
  type_fails_iff path (c ∷ s) = (λ h _. ground arith, λ h. ground (arith, h (λ e. cc)))

  -- Matches accepts a file exactly if it meets every criterion that is given: the regular
  -- expression and the glob on the base name, the type of the extension, a minimum age and the two
  -- bounds of the size. A minimum age that is not positive is none; `min_age_seconds` counts only if
  -- the other is zero and its nanoseconds, wrapped to 64 bits, are positive.
  pub matches-iff-Meets :
      (path : Text) (info : FileInfo) (rule : MatchRule) (regex : Option std.Regexp)
      (min_age now : ℤ)
      → (matches std path info rule regex min_age now ≡ true)
        ↔ Meets path info rule regex min_age now
  unfolding since has_type
  matches-iff-Meets path info rule regex min_age now =
      let re = regex_fails_iff regex (base path) in
      let gl = glob_fails_iff rule.filename_glob (base path) in
      let ty = type_fails_iff path rule.file_type in
      let old = IsOld-iff rule min_age (age now info) in
      let parts = matches_parts std path info rule regex min_age now in
      (
        λ h.
            let f = parts.0 h in
            record {
              regex_holds = re.0 f.0;
              glob_holds = gl.0 f.1;
              type_holds = ty.0 f.2;
              old_enough = (old.0 ((too_young_iff rule info min_age now).0 f.3)).0;
              seconds_passed = (old.0 ((too_young_iff rule info min_age now).0 f.3)).1;
              large_enough = (too_small_iff rule info).0 f.4;
              small_enough = (too_large_iff rule info).0 f.5;
            },
        λ m. parts.1 (
          re.1 m.regex_holds,
          gl.1 m.glob_holds,
          ty.1 m.type_holds,
          (too_young_iff rule info min_age now).1 (old.1 (m.old_enough, m.seconds_passed)),
          (too_small_iff rule info).1 m.large_enough,
          (too_large_iff rule info).1 m.small_enough,
        ),
      )

seconds_small : (n : ℕ) → n * 1_000_000_000 < 2 ^ 63 → seconds (pos n) ≡ pos (n * 1_000_000_000)
unfolding seconds
seconds_small n h = to_int64_small (n * 1_000_000_000) h

seconds_wrapped :
    (n : ℕ)
    → 2 ^ 63 ≤ n * 1_000_000_000 % 2 ^ 64
    → seconds (pos n) ≡ negsuc (2 ^ 64 - 1 - n * 1_000_000_000 % 2 ^ 64)
unfolding seconds to_int64
seconds_wrapped n h = ground arith

too_young_wrapped :
    (rule : MatchRule) (info : FileInfo) (n : ℕ) (now : ℤ)
    → rule.min_age_seconds ≡ pos n
    → 2 ^ 63 ≤ n * 1_000_000_000 % 2 ^ 64
    → too_young rule info (pos 0) now ≡ false
unfolding too_young effective_min_age
too_young_wrapped rule info n now e h = ground (arith, seconds_wrapped n h, ap seconds e)

-- A `min_age_seconds` whose nanoseconds wrap to a negative `int64` is no criterion: whether the
-- file matches depends neither on its age nor on the time of the check.
matches_age_wrapped :
    (std : Std) (path : Text) (info : FileInfo) (rule : MatchRule) (regex : Option std.Regexp)
    (n : ℕ) (now later mod_time : ℤ)
    → rule.min_age_seconds ≡ pos n
    → 2 ^ 63 ≤ n * 1_000_000_000 % 2 ^ 64
    → matches std path info rule regex (pos 0) now
      ≡ matches std path (record info { mod_time = mod_time }) rule regex (pos 0) later
unfolding matches
matches_age_wrapped std path info rule regex n now later mod_time e h = rw (
  too_young_wrapped rule info n now e h,
  too_young_wrapped rule (record info { mod_time = mod_time }) n later e h,
)
