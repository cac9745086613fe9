-- ===== src/Common/Errors.antt =====
-- A Go result `(A, error)`: a value, or an error of the component's own type.
pub mod Members
use mathlib.Core.Path.{◌≡◌, refl}
use mathlib.Core.Logic.{◌⊎◌, inl, inr}
use mathlib.Core.List.{List, [], ◌∷◌, map}
use mathlib.Core.Option.{Option, none, some}
use Prim.Native.Nat.{ℕ, suc}
use avella.Common.Lists.{All}

pub data Result {ℓ} (E : Type 0) (A : Type ℓ) : Type ℓ where
  ok : A → Result E A
  err : E → Result E A

-- Both compute on a result that is known.
infixl 5 ◌>>=◌ ◌>>◌
abbrev pub ◌>>=◌ {ℓ κ} :
    {E : Type 0} {A : Type ℓ} {B : Type κ} → Result E A → (A → Result E B) → Result E B
err e >>= rest = err e
ok x >>= rest = rest x

abbrev pub ◌>>◌ {ℓ} : {E : Type 0} {B : Type ℓ} → Result E (Unit {0}) → Result E B → Result E B
m >> k = m >>= λ _. k

abbrev pub map_error {ℓ} : {E F : Type 0} {A : Type ℓ} → (E → F) → Result E A → Result F A
map_error f (ok a) = ok a
map_error f (err e) = err (f e)

abbrev pub or_fail {ℓ} : {E : Type 0} {A : Type ℓ} → Option A → E → Result E A
or_fail none e = err e
or_fail (some a) e = ok a

pub Result-cases {ℓ} :
    {E : Type 0} {A : Type ℓ} (r : Result E A) → ((a : A) × (r ≡ ok a)) ⊎ ((e : E) × (r ≡ err e))
Result-cases (ok a) = inl (a, refl)
Result-cases (err e) = inr (e, refl)

-- Inversion of a step that succeeded: what it returned, and what the rest made of it.
pub >>=-eq-ok {ℓ κ} :
    {E : Type 0} {A : Type ℓ} {C : Type κ} (r : Result E A) (rest : A → Result E C) {c : C}
    → (r >>= rest) ≡ ok c
    → (x : A) × (r ≡ ok x) × (rest x ≡ ok c)
>>=-eq-ok (err e) rest done = cc
>>=-eq-ok (ok x) rest done = (x, refl, done)

pub ok-injective {ℓ} :
    {E : Type 0} {A : Type ℓ} {a b : A} → ◌≡◌ {A = Result E A} (ok a) (ok b) → a ≡ b
ok-injective h = cc

-- A loop that turns each element, up to the first error. `i` is the first element's index.
unfoldable pub traverse {ℓ κ} :
    {E : Type 0} {A : Type ℓ} {B : Type κ} → (ℕ → A → Result E B) → ℕ → List A → Result E (List B)
traverse f i [] = ok []
traverse f i (x ∷ xs) = do y ← f i x; ys ← traverse f (suc i) xs; ok (y ∷ ys)

module _ {ℓ κ} {E : Type 0} {A : Type ℓ} {B : Type κ} (f : ℕ → A → Result E B) where
  -- What every element keeps, the lists keep.
  pub traverse-map {ν} :
      {C : Type ν} (g : B → C) (h : A → C)
      → ((i : ℕ) (a : A) (b : B) → f i a ≡ ok b → g b ≡ h a)
      → (i : ℕ) (xs : List A) (ys : List B) → traverse f i xs ≡ ok ys
      → map g ys ≡ map h xs
  unfolding traverse
  traverse-map g h keep i [] ys e = rw (← ok-injective e)
  traverse-map g h keep i (x ∷ xs) ys e =
      let (y, ey, e') = >>=-eq-ok (f i x) _ e in
      let (ys', es, e'') = >>=-eq-ok (traverse f (suc i) xs) _ e' in
      rw (← ok-injective e'') (cc (keep i x y ey, traverse-map g h keep (suc i) xs ys' es))

  -- A loop over elements that all succeed succeeds.
  pub traverse_total {ν} :
      (P : A → Type ν)
      → ((i : ℕ) (a : A) → P a → (b : B) × (f i a ≡ ok b))
      → (i : ℕ) (xs : List A) → All P xs
      → (ys : List B) × (traverse f i xs ≡ ok ys)
  unfolding traverse
  traverse_total P step i [] h = ([], refl)
  traverse_total P step i (x ∷ xs) h =
      let (y, ey) = step i x h.0 in
      let (ys, es) = traverse_total P step (suc i) xs h.1 in (y ∷ ys, rw (ey, es))
