-- ===== src/Rules/Engine/Process/Laws.antt =====
-- Which rule Process takes: the first, in the configured order, that matches and has actions.
use avella.Common.{
  ℕ, suc, Bool, true, false, ◌≡◌, ◌≢◌, refl, ◌⊎◌, inl, inr, List, [], ◌∷◌, some, ok, err, is_empty,
  if◌then◌else◌, arith, Bool-cases, ◌∙◌, ap, Result-cases,
}
use avella.Common.Text.{Text}
use avella.Go.{Std}
use avella.Go.Os.{FileInfo, OsError}
use avella.Rules.Engine.{CompiledRule, Engine, Runner, Moment, context_done, stat_failed}
use avella.Rules.Engine.Process.{Outcome, fire, process_rules, process, unmatched, execute_rule}
use avella.Rules.Match.{matches}

if_same {ℓ} : {A : Type ℓ} (b : Bool) (x : A) → (if b then x else x) ≡ x
if_same true x = refl
if_same false x = refl

empty-cases {ℓ} : {A : Type ℓ} (xs : List A) → (xs ≡ []) ⊎ (xs ≢ [])
empty-cases [] = inl refl
empty-cases (x ∷ xs) = inr (λ e. cc)

is_empty-eq-false {ℓ} : {A : Type ℓ} (xs : List A) → xs ≢ [] → is_empty xs ≡ false
is_empty-eq-false [] h = absurd (h refl)
is_empty-eq-false (x ∷ xs) h = refl

module _ (std : Std) (moments : ℕ → Moment) (path : Text) (info : FileInfo) where
  -- The loop goes past the rule in round i: the context is not done, and the rule does not match
  -- or has no actions.
  abbrev pub Passes : ℕ → CompiledRule std → Type 0
  Passes i cr =
      ((moments i).done ≡ false)
      × ((matches std path info cr.criteria cr.regex cr.min_age (moments i).now ≡ false)
          ⊎ (cr.actions ≡ []))

  -- The loop stops at the rule in round i, and fires it.
  abbrev pub Fires : ℕ → CompiledRule std → Type 0
  Fires i cr =
      ((moments i).done ≡ false)
      × (matches std path info cr.criteria cr.regex cr.min_age (moments i).now ≡ true)
      × (cr.actions ≢ [])

  -- The rule that the loop takes from round i on: the first that fires.
  pub data Selects (cr : CompiledRule std) : ℕ → List (CompiledRule std) → Type 0 where
    here : {i : ℕ} {rest : List (CompiledRule std)} → Fires i cr → Selects cr i (cr ∷ rest)
    later :
        {i : ℕ} {b : CompiledRule std} {rest : List (CompiledRule std)}
        → Passes i b
        → Selects cr (suc i) rest
        → Selects cr i (b ∷ rest)

  round-cases :
      (i : ℕ) (cr : CompiledRule std) → ((moments i).done ≡ true) ⊎ (Passes i cr ⊎ Fires i cr)
  round-cases i cr = elim (Bool-cases (moments i).done) [
    | inl done ↦ inl done
    | inr live ↦
        inr
          (elim (Bool-cases
            (matches std path info cr.criteria cr.regex cr.min_age (moments i).now)) [
              | inl match ↦ elim (empty-cases cr.actions) [
                | inl none_given ↦ inl (live, inr none_given)
                | inr given ↦ inr (live, match, given)
              ]
              | inr miss ↦ inl (live, inl miss)
            ])
  ]

module _ (std : Std) (r : Runner) (moments : ℕ → Moment) (dry_run : Bool) (path : Text)
    (info : FileInfo) (i : ℕ) (cr : CompiledRule std) (rest : List (CompiledRule std))
    (w : r.World) where
  process_rules-pass :
      Passes std moments path info i cr
      → process_rules std r moments dry_run path info i (cr ∷ rest) w
        ≡ process_rules std r moments dry_run path info (suc i) rest w
  unfolding process_rules
  process_rules-pass (live, inl miss) = rw (live, miss)
  process_rules-pass (live, inr none_given) = rw (live, none_given) (if_same _ _)

  process_rules-fire :
      Fires std moments path info i cr
      → process_rules std r moments dry_run path info i (cr ∷ rest) w ≡ fire std r dry_run path cr w
  unfolding process_rules
  process_rules-fire (live, match, given) = rw (live, match, is_empty-eq-false cr.actions given)

  process_rules-done :
      (moments i).done ≡ true
      → process_rules std r moments dry_run path info i (cr ∷ rest) w
        ≡ record { result = unmatched; error = some context_done; world = w }
  unfolding process_rules
  process_rules-done done = rw done

module _ (std : Std) (r : Runner) (moments : ℕ → Moment) (dry_run : Bool) (path : Text)
    (info : FileInfo) where
  process_rules-Selects :
      (cr : CompiledRule std) (i : ℕ) (rules : List (CompiledRule std)) (w : r.World)
      → Selects std moments path info cr i rules
      → process_rules std r moments dry_run path info i rules w ≡ fire std r dry_run path cr w
  process_rules-Selects cr i rules w (here {rest = rest} f) =
      process_rules-fire std r moments dry_run path info i cr rest w f
  process_rules-Selects cr i rules w (later {b = b} {rest = rest} p s) =
      process_rules-pass std r moments dry_run path info i b rest w p
      ∙ process_rules-Selects cr (suc i) rest w s

  process_rules-matched :
      (i : ℕ) (rules : List (CompiledRule std)) (w : r.World)
      → (process_rules std r moments dry_run path info i rules w).result.matched ≡ true
      → (cr : CompiledRule std) × Selects std moments path info cr i rules
  process_rules-matched i [] w h = absurd (unfold process_rules in cc h)
  process_rules-matched i (cr ∷ rest) w h = elim (round-cases std moments path info i cr) [
    | inl done ↦ absurd (
        cc (
          ap (λ (o : Outcome std r). o.result.matched)
            (process_rules-done std r moments dry_run path info i cr rest w done)))
    | inr (inl pass) ↦
        let e = process_rules-pass std r moments dry_run path info i cr rest w pass in
        let (cr', s) = process_rules-matched (suc i) rest w (rw e at h) in (cr', later pass s)
    | inr (inr fires) ↦ (cr, here fires)
  ]

  process_rules-world :
      (i : ℕ) (rules : List (CompiledRule std)) (w : r.World)
      → (process_rules std r moments dry_run path info i rules w).result.matched ≡ false
      → (process_rules std r moments dry_run path info i rules w).world ≡ w
  unfolding process_rules fire execute_rule
  process_rules-world i [] w h = refl
  process_rules-world i (cr ∷ rest) w h = ground (arith, process_rules-world (suc i) rest w)

  process_rules-dry :
      (i : ℕ) (rules : List (CompiledRule std)) (w : r.World)
      → dry_run ≡ true
      → (process_rules std r moments dry_run path info i rules w).world ≡ w
  unfolding process_rules fire
  process_rules-dry i [] w dry = refl
  process_rules-dry i (cr ∷ rest) w dry = ground (arith, process_rules-dry (suc i) rest w dry)

module _ (std : Std) (r : Runner) (moments : ℕ → Moment) (e : Engine std) (path : Text)
    (w : r.World) where
  process_stat :
      (info : FileInfo)
      → r.stat w path ≡ ok info
      → process std r moments e path w ≡ process_rules std r moments e.dry_run path info 0 e.rules w
  unfolding process
  process_stat info stat = rw (stat, process)

  process_stat_failed :
      (x : OsError)
      → r.stat w path ≡ err x
      → process std r moments e path w
        ≡ record { result = unmatched; error = some (stat_failed x); world = w }
  unfolding process
  process_stat_failed x stat = rw (stat, process)

  -- First match wins: Process does what the first rule that matches and has actions says, as long
  -- as the context is not done before it.
  pub process-Selects :
      (info : FileInfo) (cr : CompiledRule std)
      → r.stat w path ≡ ok info
      → Selects std moments path info cr 0 e.rules
      → process std r moments e path w ≡ fire std r e.dry_run path cr w
  process-Selects info cr stat s =
      rw (process_stat info stat)
        (process_rules-Selects std r moments e.dry_run path info cr 0 e.rules w s)

  -- If Process reports a match, the file exists, some rule is the first that matches and has
  -- actions, with the context not done before it, and Process returns that rule's outcome.
  process-matched :
      (process std r moments e path w).result.matched ≡ true
      → (info : FileInfo) × (cr : CompiledRule std) × (r.stat w path ≡ ok info)
        × Selects std moments path info cr 0 e.rules
        × (process std r moments e path w ≡ fire std r e.dry_run path cr w)
  process-matched h = elim (Result-cases (r.stat w path)) [
    | inl (info, stat) ↦
        let e₁ = process_stat info stat in
        let (cr, s) =
          process_rules-matched std r moments e.dry_run path info 0 e.rules w (rw e₁ at h) in
        (info, cr, stat, s, process-Selects info cr stat s)
    | inr (x, stat) ↦
        absurd (cc (ap (λ (o : Outcome std r). o.result.matched) (process_stat_failed x stat)))
  ]

  -- In dry-run mode no file makes Process change the world.
  pub process_dry : e.dry_run ≡ true → (process std r moments e path w).world ≡ w
  process_dry dry = elim (Result-cases (r.stat w path)) [
    | inl (info, stat) ↦
        rw (process_stat info stat)
          (process_rules-dry std r moments e.dry_run path info 0 e.rules w dry)
    | inr (x, stat) ↦ rw (process_stat_failed x stat)
  ]

  -- A file that no rule takes is left alone, whatever the mode and whatever the error.
  process_unmatched :
      (process std r moments e path w).result.matched ≡ false
      → (process std r moments e path w).world ≡ w
  process_unmatched h = elim (Result-cases (r.stat w path)) [
    | inl (info, stat) ↦
        let e₁ = process_stat info stat in
        rw e₁ (process_rules-world std r moments e.dry_run path info 0 e.rules w (rw e₁ at h))
    | inr (x, stat) ↦ rw (process_stat_failed x stat)
  ]
