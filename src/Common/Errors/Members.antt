-- ===== src/Common/Errors/Members.antt =====
-- A loop over a list as a question about its members, for a step that does not depend on the index.
use mathlib.Core.Path.{◌≡◌, refl, sym, ap, ◌∙◌, subst}
use mathlib.Core.Logic.{inl, inr, ∥∥₁_map, ∥∥₁_elim, ∥∥₁_prop}
use mathlib.Core.List.{
  List, [], ◌∷◌, Mem, mem-cons_self, mem-cons_of_mem, eq-or-mem_of_mem-cons, not-mem-nil,
}
use Prim.Native.Nat.{ℕ, suc}
use avella.Common.Lists.{length}
use avella.Common.Errors.{Result, ok, err, Result-cases, >>=-eq-ok, ok-injective, traverse}

module _ {E A B : Type 0} (f : ℕ → A → Result E B) (same : (i : ℕ) (x : A) → f i x ≡ f 0 x) where
  -- Every result comes from a member.
  pub mem-traverse :
      (i : ℕ) (xs : List A) (ys : List B) (y : B)
      → traverse f i xs ≡ ok ys
      → Mem y ys
      → ∥ ((x : A) × Mem x xs × (f 0 x ≡ ok y)) ∥₁
  unfolding traverse
  mem-traverse i [] ys y e m = absurd (not-mem-nil (subst (Mem y) (sym (ok-injective e)) m))
  mem-traverse i (x ∷ xs) ys y e m =
      let (z, ez, e') = >>=-eq-ok (f i x) _ e in
      let (zs, es, e'') = >>=-eq-ok (traverse f (suc i) xs) _ e' in
      ∥∥₁_elim (eq-or-mem_of_mem-cons (subst (Mem y) (sym (ok-injective e'')) m)) ∥∥₁_prop (λ o.
        elim o [
          | inl first ↦ ∣ (x, mem-cons_self, sym (same i x) ∙ ez ∙ ap ok (sym first)) ∣₁
          | inr behind ↦
              ∥∥₁_map (mem-traverse (suc i) xs zs y es behind)
                (λ (w, at, made). (w, mem-cons_of_mem x at, made))
        ])

  -- Every member gives a result.
  pub traverse_mem :
      (i : ℕ) (xs : List A) (ys : List B) (x : A)
      → traverse f i xs ≡ ok ys
      → Mem x xs
      → ∥ ((y : B) × Mem y ys × (f 0 x ≡ ok y)) ∥₁
  unfolding traverse
  traverse_mem i [] ys x e m = absurd (not-mem-nil m)
  traverse_mem i (w ∷ xs) ys x e m =
      let (z, ez, e') = >>=-eq-ok (f i w) _ e in
      let (zs, es, e'') = >>=-eq-ok (traverse f (suc i) xs) _ e' in
      ∥∥₁_elim (eq-or-mem_of_mem-cons m) ∥∥₁_prop (λ o. elim o [
        | inl first ↦ ∣ (
          z,
          subst (Mem z) (ok-injective e'') mem-cons_self,
          ap (f 0) first ∙ sym (same i w) ∙ ez,
        ) ∣₁
        | inr behind ↦
            ∥∥₁_map (traverse_mem (suc i) xs zs x es behind)
              (λ (y, at, made). (y, subst (Mem y) (ok-injective e'') (mem-cons_of_mem z at), made))
      ])

  -- If no member fails, the loop succeeds.
  pub traverse_ok :
      (i : ℕ) (xs : List A)
      → ((x : A) (e : E) → Mem x xs → f 0 x ≡ err e → ⊥)
      → (ys : List B) × (traverse f i xs ≡ ok ys)
  unfolding traverse
  traverse_ok i [] none_fails = ([], refl)
  traverse_ok i (x ∷ xs) none_fails = elim (Result-cases (f i x)) [
    | inl (y, made) ↦
        let (ys, rest) = traverse_ok (suc i) xs (λ w e m. none_fails w e (mem-cons_of_mem x m)) in
        (y ∷ ys, rw (made, rest))
    | inr (e, failed) ↦ absurd (none_fails x e mem-cons_self (sym (same i x) ∙ failed))
  ]

pub length-traverse :
    {E A B : Type 0} (f : ℕ → A → Result E B) (i : ℕ) (xs : List A) (ys : List B)
    → traverse f i xs ≡ ok ys
    → length ys ≡ length xs
unfolding traverse
length-traverse f i [] ys e = ap length (sym (ok-injective e))
length-traverse f i (x ∷ xs) ys e =
    let (z, ez, e') = >>=-eq-ok (f i x) _ e in
    let (zs, es, e'') = >>=-eq-ok (traverse f (suc i) xs) _ e' in
    ap length (sym (ok-injective e'')) ∙ ap suc (length-traverse f (suc i) xs zs es)
