-- ===== src/Common/Lists.antt =====
-- Lists measured by native numbers, under the library's names, and predicates on them.
use Prim.Native.Nat.{ℕ, zero, suc, ◌+◌, ◌≤◌, min}
use mathlib.Core.Path.{◌≡◌, refl}
use mathlib.Core.Bool.{Bool, true, false, ◌||◌}
use avella.Common.Tests.{contains, nat_eq}
use mathlib.Core.List.{List, [], ◌∷◌, ◌++◌}
use native.Mathlib.Omega.{arith}

module _ {ℓ} {A : Type ℓ} where
  abbrev pub is_empty : List A → Bool
  is_empty [] = true
  is_empty (x ∷ xs) = false

  abbrev pub length : List A → ℕ
  length [] = 0
  length (x ∷ xs) = suc (length xs)

  abbrev pub take : ℕ → List A → List A
  take zero xs = []
  take (suc n) [] = []
  take (suc n) (x ∷ xs) = x ∷ take n xs

  abbrev pub drop : ℕ → List A → List A
  drop zero xs = xs
  drop (suc n) [] = []
  drop (suc n) (x ∷ xs) = drop n xs

  pub length-append : (xs ys : List A) → length (xs ++ ys) ≡ length xs + length ys
  length-append [] ys = omega arith
  length-append (x ∷ xs) ys = omega (arith, length-append xs ys)

  pub length-take : (n : ℕ) (xs : List A) → length (take n xs) ≡ min n (length xs)
  length-take zero xs = omega arith
  length-take (suc n) [] = omega arith
  length-take (suc n) (x ∷ xs) = omega (arith, length-take n xs)

-- Every element satisfies the predicate.
abbrev pub All {ℓ κ} : {A : Type ℓ} → (A → Type κ) → List A → Type κ
All P [] = Unit
All P (x ∷ xs) = P x × All P xs

-- An element in the middle of a list is taken out, and put in.
pub All-parts {ℓ κ} :
    {A : Type ℓ} (P : A → Type κ) (before after : List A) (x : A)
    → All P (before ++ x ∷ after)
    → P x × All P (before ++ after)
All-parts P [] after x h = h
All-parts P (y ∷ before) after x h =
    let (p, rest) = All-parts P before after x h.1 in (p, (h.0, rest))

pub All-join {ℓ κ} :
    {A : Type ℓ} (P : A → Type κ) (before after : List A) (x : A)
    → P x
    → All P (before ++ after)
    → All P (before ++ x ∷ after)
All-join P [] after x p h = (p, h)
All-join P (y ∷ before) after x p h = (h.0, All-join P before after x p h.1)

module _ {ℓ} {A : Type ℓ} where
  pub take_all : (n : ℕ) (xs : List A) → length xs ≤ n → take n xs ≡ xs
  take_all zero [] h = refl
  take_all zero (x ∷ xs) h = absurd (omega arith)
  take_all (suc n) [] h = refl
  take_all (suc n) (x ∷ xs) h = rw (take_all n xs (omega arith))

  take-take_of_le : (m n : ℕ) (ys : List A) → m ≤ n → take m (take n ys) ≡ take m ys
  take-take_of_le zero n ys h = refl
  take-take_of_le (suc m) zero ys h = absurd (omega arith)
  take-take_of_le (suc m) (suc n) [] h = refl
  take-take_of_le (suc m) (suc n) (y ∷ ys) h = rw (take-take_of_le m n ys (omega arith))

  take-append_take_of_le :
      (m n : ℕ) (xs ys : List A) → m ≤ n → take m (xs ++ take n ys) ≡ take m (xs ++ ys)
  take-append_take_of_le m n [] ys h = take-take_of_le m n ys h
  take-append_take_of_le zero n (x ∷ xs) ys h = refl
  take-append_take_of_le (suc m) n (x ∷ xs) ys h =
      rw (take-append_take_of_le m n xs ys (omega arith))

  pub take-append_take : (n : ℕ) (xs ys : List A) → take n (xs ++ take n ys) ≡ take n (xs ++ ys)
  take-append_take n xs ys = take-append_take_of_le n n xs ys (omega arith)

pub contains-append :
    (xs ys : List ℕ) (c : ℕ) → contains (xs ++ ys) c ≡ (contains xs c || contains ys c)
contains-append [] ys c = refl
contains-append (x ∷ xs) ys c = ground (arith, contains-append xs ys c)
