-- ===== src/Actions/Upload/Laws.antt =====
-- What is left of a file after an upload.
use avella.Common.{
  ◌≡◌, refl, ◌∙◌, Bool, true, false, Bool-cases, Option, none, some, ok, arith, ◌⊎◌, inl, inr, ℕ,
  Option-cases,
}
use avella.Common.Int.{ℤ, int_eq}
use avella.Common.Text.{Text}
use avella.Actions.Move.{Files}
use avella.Actions.Upload.{
  Remote, IsFaithful, UploadError, transfer, upload_sized, upload_file, after_upload, end_session,
  in_session, scp_execute,
}
use avella.Go.{Std}
use avella.Go.FilePath.{base, join}
use avella.Template.{resolve_dest}

module _ (f : Files) (r : Remote f) (laws : IsFaithful f r) (host remote path : Text) where
  -- The source is untouched, and the remote file is whole if no error is returned.
  abbrev Uploaded : f.World → Bool × f.World → Type 0
  Uploaded w o =
      (f.content o.1 path ≡ f.content w path)
      × (o.0 ≡ true → r.remote_content o.1 host remote ≡ f.content w path)

  transfer-Uploaded :
      (size : ℤ) (w : f.World)
      → r.source_size w path ≡ some size
      → Uploaded w (transfer f r host remote path size w)
  unfolding transfer
  transfer-Uploaded size w sized =
      let w₁ = (r.copy_remote path host remote w).1 in
      (
        laws.close_keeps host remote path w₁ ∙ laws.copy_keeps path host remote path w,
        λ good.
            laws.close_flushes host remote w₁ (ground arith)
            ∙ laws.copy_whole path host remote size w sized (ground arith),
      )

  upload_sized-Uploaded :
      (size : ℤ) (w : f.World)
      → r.source_size w path ≡ some size
      → Uploaded w (upload_sized f r host remote path size w)
  unfolding upload_sized
  upload_sized-Uploaded size w sized = elim (Bool-cases (r.create_remote host remote w).0) [
    | inl created ↦
        let w₁ = (r.create_remote host remote w).1 in
        let kept = laws.create_keeps host remote path w in
        let (stays, whole) =
          transfer-Uploaded size w₁ (laws.create_size host remote path w ∙ sized) in
        rw created ((stays ∙ kept, λ good. whole good ∙ kept))
    | inr failed ↦ rw failed ((laws.create_keeps host remote path w, λ good. absurd (cc good)))
  ]

module _ (f : Files) (r : Remote f) (laws : IsFaithful f r) (host dir path : Text) where
  upload_file-Uploaded :
      (w : f.World)
      → Uploaded f r laws host (join dir (base path)) path w (upload_file f r host dir path w)
  unfolding upload_file
  upload_file-Uploaded w = elim (Bool-cases (f.can_open w path)) [
    | inr shut ↦ rw shut ((refl, λ good. absurd (cc good)))
    | inl opens ↦ elim (Option-cases (r.source_size w path)) [
      | inl unknown ↦ rw (opens, unknown) ((refl, λ good. absurd (cc good)))
      | inr (size, sized) ↦
          rw (opens, sized)
            (upload_sized-Uploaded f r laws host (join dir (base path)) path size w sized)
    ]
  ]

-- The file is here or whole on the host, on the host if there was no error, and here if it was
-- not to be deleted.
pub record IsUploaded (f : Files) (r : Remote f) (host remote path c : Text) (delete : Bool)
    (o : Option UploadError × f.World) : Type 0 where
  pub somewhere : (f.content o.1 path ≡ some c) ⊎ (r.remote_content o.1 host remote ≡ some c)
  pub arrived : o.0 ≡ none → r.remote_content o.1 host remote ≡ some c
  pub kept : delete ≡ false → f.content o.1 path ≡ some c

module _ (f : Files) (r : Remote f) (laws : IsFaithful f r) (host remote path c : Text) where
  after_upload-IsUploaded :
      (delete : Bool) (o : Bool × f.World)
      → f.content o.1 path ≡ some c
      → (o.0 ≡ true → r.remote_content o.1 host remote ≡ some c)
      → IsUploaded f r host remote path c delete (after_upload f r delete path o)
  unfolding after_upload
  after_upload-IsUploaded delete (false, w) here there = record {
    somewhere = inl here;
    arrived = λ e. absurd (cc e);
    kept = λ _. here;
  }
  after_upload-IsUploaded false (true, w) here there = record {
    somewhere = inl here;
    arrived = λ _. there refl;
    kept = λ _. here;
  }
  after_upload-IsUploaded true (true, w) here there =
      let arrived = laws.remove_keeps_remote path host remote w ∙ there refl in
      record { somewhere = inr arrived; arrived = λ _. arrived; kept = λ e. absurd (cc e) }

  end_session-IsUploaded :
      (delete : Bool) (e : Option UploadError) (w : f.World)
      → IsUploaded f r host remote path c delete (e, w)
      → IsUploaded f r host remote path c delete (end_session f r host e w)
  unfolding end_session
  end_session-IsUploaded delete (some e) w u =
      let here = laws.session_keeps host path w in
      record {
        somewhere = elim u.somewhere [
          | inl stays ↦ inl (here ∙ stays)
          | inr there ↦ inr (laws.session_keeps_remote host remote w ∙ there)
        ];
        arrived = λ x. absurd (cc x);
        kept = λ d. here ∙ u.kept d;
      }
  end_session-IsUploaded delete none w u =
      let there = laws.session_keeps_remote host remote w ∙ u.arrived refl in
      record {
        somewhere = inr there;
        arrived = λ _. there;
        kept = λ d. laws.session_keeps host path w ∙ u.kept d;
      }

-- An upload never loses the file: afterwards it is at its path or whole on the host. If Execute
-- returns nil it is whole on the host, and without delete_source it is at its path in any case.
-- The calls of the session are faithful.
pub scp_execute-IsUploaded :
    (f : Files) (r : Remote f) (laws : IsFaithful f r) (std : Std) (host dest path dir c : Text)
    (pool : ℕ) (delete : Bool) (w : f.World)
    → resolve_dest std (f.stat w) dest path ≡ ok dir
    → f.content w path ≡ some c
    → IsUploaded f r host
        (join dir (base path))
        path
        c
        delete
        (scp_execute f r std host dest pool delete path w)
unfolding scp_execute in_session
scp_execute-IsUploaded f r laws std host dest path dir c pool delete w resolved held =
    let w₁ = (r.connect pool host w).1 in
    let here = laws.connect_keeps pool host path w ∙ held in
    elim (Bool-cases (r.connect pool host w).0) [
      | inr failed ↦
          rw (resolved, failed, scp_execute)
            (record { somewhere = inl here; arrived = λ e. absurd (cc e); kept = λ _. here })
      | inl connected ↦
          let o = upload_file f r host dir path w₁ in
          let (stays, whole) = upload_file-Uploaded f r laws host dir path w₁ in
          let done =
            after_upload-IsUploaded f r laws host (join dir (base path)) path c delete o
              (stays ∙ here) (λ good. whole good ∙ here) in
          rw (resolved, connected, scp_execute)
            (end_session-IsUploaded f r laws host (join dir (base path)) path c delete
              (after_upload f r delete path o).0 (after_upload f r delete path o).1 done)
    ]
