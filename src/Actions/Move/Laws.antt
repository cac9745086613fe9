-- ===== src/Actions/Move/Laws.antt =====
-- What is left of a file after a move.
use avella.Common.{
  ◌≡◌, ◌≢◌, refl, sym, ap, ◌∙◌, true, Bool-cases, Option, none, some, ok, arith, ◌⊎◌, inl, inr,
}
use avella.Common.Text.{Text}
use avella.Actions.Move.{
  Files, IsLawful, Renaming, renamed, link_error, rename_failed, MoveError, not_renamed, copy_file,
  copy_and_remove, move_to, move_execute,
}
use avella.Go.{Std}
use avella.Go.FilePath.{base, join}
use avella.Template.{resolve_dest}

-- The path holds the contents at its destination, or there was an error and the source holds it.
abbrev pub IsKept : (f : Files) (path dest c : Text) → Option MoveError × f.World → Type 0
IsKept f path dest c o =
    (f.content o.1 dest ≡ some c) ⊎ ((o.0 ≢ none) × (f.content o.1 path ≡ some c))

module _ (f : Files) (laws : IsLawful f) (path dest : Text) (away : dest ≢ path) where
  -- The source stays whatever happens, and the copy is whole if it succeeds.
  copy_file-content :
      (w : f.World)
      → let o = copy_file f path dest w in
        (f.content o.1 path ≡ f.content w path)
        × (o.0 ≡ true → f.content o.1 dest ≡ f.content w path)
  unfolding copy_file
  copy_file-content w =
      let w₁ = (f.create dest w).1 in
      let w₂ = (f.copy path dest w₁).1 in
      ground (
        arith,
        laws.create_keeps dest path w away,
        laws.copy_keeps path dest path w₁ away,
        laws.copy_copies path dest w₁,
        laws.close_keeps dest path w₂,
        laws.close_keeps dest dest w₂,
      )

  copy_and_remove-IsKept :
      (w : f.World) (c : Text)
      → f.content w path ≡ some c
      → IsKept f path dest c (copy_and_remove f path dest w)
  unfolding copy_and_remove
  copy_and_remove-IsKept w c held =
      let (stays, whole) = copy_file-content w in
      elim (Bool-cases (copy_file f path dest w).0) [
        | inl copied ↦ rw copied (
            inl (
              laws.remove_keeps path dest (copy_file f path dest w).1 (λ e. away (sym e))
              ∙ whole copied
              ∙ held))
        | inr failed ↦ rw failed (inr ((λ e. cc e), stays ∙ held))
      ]

  move_to-IsKept :
      (w : f.World) (c : Text)
      → f.content w path ≡ some c
      → IsKept f path dest c (move_to f path dest w)
  unfolding move_to
  move_to-IsKept w c held = go (f.rename path dest w) refl
    where
      go :
          (o : Renaming × f.World)
          → f.rename path dest w ≡ o
          → IsKept f path dest c (elim o.0 [
            | renamed ↦ (none, o.1)
            | link_error ↦ copy_and_remove f path dest o.1
            | rename_failed ↦ (some not_renamed, o.1)
          ])
      go (renamed, w₁) e = inl (
          sym (ap (λ (o : Renaming × f.World). f.content o.1 dest) e)
          ∙ laws.rename_moves path dest w (ap (λ (o : Renaming × f.World). o.0) e)
          ∙ held)
      go (link_error, w₁) e = copy_and_remove-IsKept w₁ c (
          sym (ap (λ (o : Renaming × f.World). f.content o.1 path) e)
          ∙ laws.rename_keeps path dest path w (λ x. cc (x, ap (λ (o : Renaming × f.World). o.0) e))
          ∙ held)
      go (rename_failed, w₁) e = inr (
        (λ x. cc x),
        sym (ap (λ (o : Renaming × f.World). f.content o.1 path) e)
            ∙ laws.rename_keeps path dest path w
                (λ x. cc (x, ap (λ (o : Renaming × f.World). o.0) e))
            ∙ held,
      )

-- A file that is moved is never lost: whichever call fails, either its destination holds what the
-- file held, or Execute returns an error and the source still holds it. The calls are lawful, and
-- the destination is not the file itself.
pub move_execute-IsKept :
    (f : Files) (laws : IsLawful f) (std : Std) (tmpl path dir c : Text) (w : f.World)
    → resolve_dest std (f.stat w) tmpl path ≡ ok dir
    → join dir (base path) ≢ path
    → f.content w path ≡ some c
    → IsKept f path (join dir (base path)) c (move_execute f std tmpl path w)
unfolding move_execute
move_execute-IsKept f laws std tmpl path dir c w resolved away held =
    let w₁ = (f.mkdir_all dir w).1 in
    let there = laws.mkdir_keeps dir path w ∙ held in
    elim (Bool-cases (f.mkdir_all dir w).0) [
      | inl made ↦
          rw (resolved, made, move_execute)
            (move_to-IsKept f laws path (join dir (base path)) away w₁ c there)
      | inr failed ↦ rw (resolved, failed, move_execute) (inr ((λ e. cc e), there))
    ]
