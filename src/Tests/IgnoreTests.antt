-- ===== src/Tests/IgnoreTests.antt =====
-- Tests of the ignore rules and of the file types, and their theorems for one file.
use mathlib.Core.List.{
  Mem, Mem-prop, mem-cons_self, mem-cons_of_mem, eq-or-mem_of_mem-cons, not-mem-nil,
}
use mathlib.Core.Logic.{∥∥₁_elim}
use avella.Common.{sym, subst, inl, inr}
use avella.Common.Dict.{Dict}
use avella.Config.{IgnoreRule}
use avella.Rules.Engine.Compile.{new_engine, compile_min_age}
use avella.Rules.Engine.Compile.Order.{new_engine-should_ignore}
use avella.Common.{◌≡◌, ◌↔◌, refl, true, [], ◌∷◌, none, ok, All, contains, false}
use avella.Common.Int.{pos}
use avella.Common.Text.{Text, str, text_eq}
use avella.Go.Os.{FileInfo}
use avella.Rules.Engine.{CompiledIgnore, Engine}
use avella.Rules.Engine.Process.{should_ignore}
use avella.Rules.Engine.Process.Ignore.{IsIgnored, should_ignore_iff}
use avella.Template.FileType.{classify_ext, type_other}
use avella.Template.FileType.Table.{tables, IsIn, low, classify_ext-tables}
use avella.Tests.{go, film, disk, calm, any_file, engine}

abbrev parts : CompiledIgnore go
parts = record {
  name = str "parts";
  criteria = record any_file { filename_glob = str "a.mkv" };
  regex = none;
  min_age = pos 0;
}

abbrev ignoring : Engine go
ignoring = record engine { ignores = parts ∷ [] }

should_ignore_iff_example : (should_ignore go disk calm ignoring film ≡ true) ↔ (
    (info : FileInfo) × (disk film ≡ ok info)
    × ∥ IsIgnored go calm (pos 2_000_000_000) (λ i. refl) film info ignoring.ignores ∥₁)
should_ignore_iff_example =
    should_ignore_iff go calm (pos 2_000_000_000) (λ i. refl) film disk ignoring

classify_ext-tables_example :
    All (λ entry. (classify_ext go (str "MKV") ≡ entry.0) ↔ IsIn go (str "MKV") entry) tables
    × ((classify_ext go (str "MKV") ≡ type_other)
        ↔ All (λ entry. contains entry.1 (low go (str "MKV")) ≡ false) tables)
classify_ext-tables_example = classify_ext-tables go (str "MKV")

abbrev in_order : Dict Text IgnoreRule
in_order =
    (str "parts", record { criteria = record any_file { filename_glob = str "a.mkv" } })
    ∷ (str "large", record { criteria = record any_file { min_size = pos 1000 } })
    ∷ []

abbrev swapped : Dict Text IgnoreRule
swapped =
    (str "large", record { criteria = record any_file { min_size = pos 1000 } })
    ∷ (str "parts", record { criteria = record any_file { filename_glob = str "a.mkv" } })
    ∷ []

swap_mem : {A : Type 0} (a b x : A) → Mem x (a ∷ b ∷ []) → Mem x (b ∷ a ∷ [])
swap_mem a b x m = ∥∥₁_elim (eq-or-mem_of_mem-cons m) Mem-prop (λ o. elim o [
  | inl first ↦ subst (λ y. Mem y (b ∷ a ∷ [])) (sym first) (mem-cons_of_mem b mem-cons_self)
  | inr behind ↦ ∥∥₁_elim (eq-or-mem_of_mem-cons behind) Mem-prop (λ p. elim p [
    | inl second ↦ subst (λ y. Mem y (b ∷ a ∷ [])) (sym second) mem-cons_self
    | inr none_left ↦ absurd (not-mem-nil none_left)
  ])
])

abbrev compiled : Engine go
compiled = record {
  rules = [];
  ignores =
      parts
      ∷ record {
        name = str "large";
        criteria = record any_file { min_size = pos 1000 };
        regex = none;
        min_age = pos 0;
      }
      ∷ [];
  dry_run = false;
}

compiles : new_engine go [] in_order none false ≡ ok compiled
unfolding new_engine compile_min_age
compiles = refl

new_engine-should_ignore_example :
    (e : Engine go) × (new_engine go [] swapped none false ≡ ok e)
    × (should_ignore go disk calm e film ≡ should_ignore go disk calm compiled film)
new_engine-should_ignore_example =
    new_engine-should_ignore go calm (pos 2_000_000_000) (λ i. refl) disk film [] in_order swapped
      none false compiled (λ x. (swap_mem _ _ x, swap_mem _ _ x)) compiles
