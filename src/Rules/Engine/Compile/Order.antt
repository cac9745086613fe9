-- ===== src/Rules/Engine/Compile/Order.antt =====
-- The ignored files of a configuration are a map, over which a range goes in any order: the engine
-- is the same up to the order of its ignore rules.
use mathlib.Core.Bool.{Bool-set}
use mathlib.Core.List.{Mem, Mem-prop}
use mathlib.Core.Logic.{∥∥₁_elim}
use mathlib.Core.Quot
use mathlib.Core.Quot.{Quot, Quot-set}
use avella.Common.{
  ℕ, ◌≡◌, ◌↔◌, refl, sym, ap, ◌∙◌, subst, Bool, false, List, [], Option, ok, ok-injective,
  >>=-eq-ok, traverse,
}
use avella.Common.Errors.Members.{mem-traverse, traverse_mem, traverse_ok}
use avella.Common.Dict.{Dict}
use avella.Common.Int.{ℤ}
use avella.Common.Text.{Text}
use avella.Config.{IgnoreRule, Rule}
use avella.Go.{Std}
use avella.Go.Os.{Stat}
use avella.Rules.Engine.{CompiledIgnore, Engine, Moment}
use avella.Rules.Engine.Compile.{compile_rule, compile_ignore, new_engine}
use avella.Rules.Engine.Process.{should_ignore}
use avella.Rules.Engine.Process.Ignore.{should_ignore_order}

-- Two lists have the same members.
abbrev pub SameMembers : {A : Type 0} → List A → List A → Type 0
SameMembers {A} xs ys = (x : A) → Mem x xs ↔ Mem x ys

module _ (std : Std) where
  -- Ignore rules up to their order and to repetitions.
  abbrev pub IgnoreSet : Type 0
  IgnoreSet = Quot (SameMembers {A = CompiledIgnore std})

  abbrev pub ignore_set : Engine std → IgnoreSet
  ignore_set e = Quot.mk e.ignores

  compile_ignore_same :
      (i : ℕ) (x : Text × IgnoreRule) → compile_ignore std i x ≡ compile_ignore std 0 x
  unfolding compile_ignore
  compile_ignore_same i (name, ig) = refl

  compiled-SameMembers :
      (a b : Dict Text IgnoreRule) (xs ys : List (CompiledIgnore std))
      → SameMembers a b
      → traverse (compile_ignore std) 0 a ≡ ok xs
      → traverse (compile_ignore std) 0 b ≡ ok ys
      → (y : CompiledIgnore std) → Mem y xs
      → Mem y ys
  compiled-SameMembers a b xs ys same ea eb y m =
      ∥∥₁_elim (mem-traverse (compile_ignore std) compile_ignore_same 0 a xs y ea m) Mem-prop
        (λ (x, at, made).
          ∥∥₁_elim
            (traverse_mem (compile_ignore std) compile_ignore_same 0 b ys x eb ((same x).0 at))
            Mem-prop
            (λ (z, there, again). subst (λ c. Mem c ys) (ok-injective (sym again ∙ made)) there))

  compiles_too :
      (a b : Dict Text IgnoreRule) (xs : List (CompiledIgnore std))
      → SameMembers a b
      → traverse (compile_ignore std) 0 a ≡ ok xs
      → (ys : List (CompiledIgnore std)) × (traverse (compile_ignore std) 0 b ≡ ok ys)
  compiles_too a b xs same ea =
      traverse_ok (compile_ignore std) compile_ignore_same 0 b (λ x e m failed.
        ∥∥₁_elim (traverse_mem (compile_ignore std) compile_ignore_same 0 a xs x ea ((same x).1 m))
          (λ p q. absurd p) (λ (y, at, made). cc (sym made ∙ failed)))

  -- NewEngine succeeds or fails whatever the order of the map of ignored files, and where it
  -- succeeds, the engine has the same rules in the same order, the same mode, and the same set of
  -- ignore rules.
  new_engine_order :
      (rules : List Rule) (a b : Dict Text IgnoreRule) (pool : Option ℕ) (dry_run : Bool)
      (e : Engine std)
      → SameMembers a b
      → new_engine std rules a pool dry_run ≡ ok e
      → (e' : Engine std) × (new_engine std rules b pool dry_run ≡ ok e')
        × (e'.rules ≡ e.rules)
        × (e'.dry_run ≡ e.dry_run)
        × (ignore_set e' ≡ ignore_set e)
  unfolding new_engine
  new_engine_order rules a b pool dry_run e same made =
      let (crs, er, made') = >>=-eq-ok (traverse (compile_rule std pool) 0 rules) _ made in
      let (xs, ea, made'') = >>=-eq-ok (traverse (compile_ignore std) 0 a) _ made' in
      let (ys, eb) = compiles_too a b xs same ea in
      let back : SameMembers b a = λ x. ((same x).1, (same x).0) in
      (
        record { rules = crs; ignores = ys; dry_run = dry_run },
        rw (er, eb),
        ap (λ (c : Engine std). c.rules) (ok-injective made''),
        ap (λ (c : Engine std). c.dry_run) (ok-injective made''),
        Quot.sound (λ c. (
          compiled-SameMembers b a ys xs back eb ea c,
          compiled-SameMembers a b xs ys same ea eb c,
        ))
            ∙ ap ignore_set (ok-injective made''),
      )

  -- What ShouldIgnore asks of the set, while the clock stands still.
  unfoldable pub ignores :
      (moments : ℕ → Moment) (now : ℤ)
      → ((i : ℕ) → (moments i).now ≡ now)
      → Stat
      → Text
      → IgnoreSet
      → Bool
  ignores moments now still stat path =
      Quot.lift Bool-set
        (λ cis.
          should_ignore std stat moments (record { rules = []; ignores = cis; dry_run = false })
            path)
        (λ xs ys same. should_ignore_order std moments now still path stat _ _ same)

  -- ShouldIgnore is a function of the set of ignore rules.
  should_ignore-ignores :
      (moments : ℕ → Moment) (now : ℤ) (still : (i : ℕ) → (moments i).now ≡ now) (stat : Stat)
      (path : Text) (e : Engine std)
      → should_ignore std stat moments e path ≡ ignores moments now still stat path (ignore_set e)
  unfolding ignores should_ignore
  should_ignore-ignores moments now still stat path e = refl

  -- In whatever order a range goes over the map of ignored files when NewEngine is called, the
  -- engine that it returns ignores the same files, while the clock stands still.
  pub new_engine-should_ignore :
      (moments : ℕ → Moment) (now : ℤ) (still : (i : ℕ) → (moments i).now ≡ now) (stat : Stat)
      (path : Text) (rules : List Rule) (a b : Dict Text IgnoreRule) (pool : Option ℕ)
      (dry_run : Bool) (e : Engine std)
      → SameMembers a b
      → new_engine std rules a pool dry_run ≡ ok e
      → (e' : Engine std) × (new_engine std rules b pool dry_run ≡ ok e')
        × (should_ignore std stat moments e' path ≡ should_ignore std stat moments e path)
  new_engine-should_ignore moments now still stat path rules a b pool dry_run e same made =
      let (e', made', _, _, set) = new_engine_order rules a b pool dry_run e same made in
      (
        e',
        made',
        should_ignore-ignores moments now still stat path e'
            ∙ ap (ignores moments now still stat path) set
            ∙ sym (should_ignore-ignores moments now still stat path e),
      )
