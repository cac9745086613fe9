-- ===== src/Common/Text.antt =====
-- Go strings as their bytes.
use Prim.Native.Char.{code}
use Prim.Native.Nat.{ℕ}
use Prim.Native.String.{String}
use mathlib.Core.List.{List, [], ◌∷◌}
use native.Mathlib.Decide.{ℕ_discrete}
use avella.Common.Tests.{Eq}

abbrev pub Text : Type 0
Text = List ℕ

-- A literal of ASCII characters.
abbrev pub str : String → Text
str String.[] = []
str (String.◌∷◌ c s) = code c ∷ str s

Text-discrete : Discrete Text
Text-discrete = hlevel ℕ_discrete

-- Shut in proofs, where a split on `s == t` yields the equation or its negation.
instance unfoldable pub text_eq : Eq Text
unfolding Text-discrete
text_eq = record { dec = Text-discrete }

Texts-discrete : Discrete (List Text)
Texts-discrete = hlevel Text-discrete

instance unfoldable pub texts_eq : Eq (List Text)
unfolding Texts-discrete Text-discrete
texts_eq = record { dec = Texts-discrete }
