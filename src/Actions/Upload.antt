-- ===== src/Actions/Upload.antt =====
-- actions/scp.go: Execute and uploadFile, over the file operations and an SFTP session.
pub mod Laws
use avella.Common.{
  ◌≡◌, ◌≢◌, Bool, true, false, not, ◌&&◌, Option, none, some, ok, err, if◌then◌else◌, ◌==◌, ℕ,
}
use avella.Common.Int.{ℤ, int_eq}
use avella.Common.Text.{Text}
use avella.Actions.Move.{Files}
use avella.Go.{Std}
use avella.Go.FilePath.{base, join}
use avella.Template.{TemplateError, resolve_dest}

-- The calls of a session. A Boolean says whether the call returned nil. What a cancelled context
-- does to a session, by the goroutine that closes it, shows in the results of these calls.
pub record Remote (f : Files) : Type 0 where
  -- `Pool.SFTP`, for the pool of an identity
  pub connect : ℕ → Text → f.World → Bool × f.World
  pub close_session : Text → f.World → Bool × f.World
  -- the size that `Stat` of the open source reports
  pub source_size : f.World → Text → Option ℤ
  pub create_remote : Text → Text → f.World → Bool × f.World
  -- `io.Copy` of a source to a host's path: whether it returned nil, and the bytes written
  pub copy_remote : Text → Text → Text → f.World → (Bool × ℤ) × f.World
  pub close_remote : Text → Text → f.World → Bool × f.World
  -- `ctx.Err() != nil`
  pub cancelled : f.World → Bool
  -- what a host's path holds, for the laws only
  pub remote_content : f.World → Text → Text → Option Text

pub data UploadError : Type 0 where
  resolve_failed : TemplateError → UploadError
  connect_failed upload_cancelled upload_failed delete_failed close_failed : UploadError

module _ (f : Files) (r : Remote f) where
  -- The copy to a remote file that was created: its close counts, then the size, then the close
  -- of the source.
  unfoldable pub transfer : Text → Text → Text → ℤ → f.World → Bool × f.World
  transfer host remote path size w =
      let ((copied, written), w₁) = r.copy_remote path host remote w in
      let (closed, w₂) = r.close_remote host remote w₁ in
      (copied && closed && written == size && f.close_read path w₂, w₂)

  unfoldable pub upload_sized : Text → Text → Text → ℤ → f.World → Bool × f.World
  unfolding transfer
  upload_sized host remote path size w =
      let (created, w₁) = r.create_remote host remote w in
      if created then transfer host remote path size w₁ else (false, w₁)

  unfoldable pub upload_file : Text → Text → Text → f.World → Bool × f.World
  unfolding upload_sized
  upload_file host dir path w =
      if not (f.can_open w path) then (false, w) else elim (r.source_size w path) [
        | none ↦ (false, w)
        | some size ↦ upload_sized host (join dir (base path)) path size w
      ]

  -- The deferred close of the session, whose error is reported if there is no other.
  unfoldable pub end_session : Text → Option UploadError → f.World → Option UploadError × f.World
  end_session host (some e) w = (some e, (r.close_session host w).1)
  end_session host none w =
      let (closed, w₁) = r.close_session host w in (if closed then none else some close_failed, w₁)

  unfoldable pub delete_source : Bool → Text → f.World → Option UploadError × f.World
  delete_source true path w =
      let (removed, w₁) = f.remove path w in (if removed then none else some delete_failed, w₁)
  delete_source false path w = (none, w)

  -- What follows the upload, in the session.
  unfoldable pub after_upload : Bool → Text → Bool × f.World → Option UploadError × f.World
  unfolding delete_source
  after_upload delete path (true, w) = delete_source delete path w
  after_upload delete path (false, w) =
      (some (if r.cancelled w then upload_cancelled else upload_failed), w)

  unfoldable pub in_session : Text → Text → Bool → Text → f.World → Option UploadError × f.World
  unfolding upload_file end_session after_upload
  in_session host dir delete path w =
      let (e, w₁) = after_upload delete path (upload_file host dir path w) in end_session host e w₁

  unfoldable pub scp_execute :
      Std → Text → Text → ℕ → Bool → Text → f.World → Option UploadError × f.World
  unfolding in_session
  scp_execute std host dest pool delete path w = elim (resolve_dest std (f.stat w) dest path) [
    | err e ↦ (some (resolve_failed e), w)
    | ok dir ↦
        let (connected, w₁) = r.connect pool host w in
        if connected then in_session host dir delete path w₁ else (some connect_failed, w₁)
  ]

-- What the calls do to the contents of files, here and on the hosts.
pub record IsFaithful (f : Files) (r : Remote f) : Type 0 where
  pub connect_keeps :
      (pool : ℕ) (host p : Text) (w : f.World)
      → f.content (r.connect pool host w).1 p ≡ f.content w p
  pub create_keeps :
      (host remote p : Text) (w : f.World)
      → f.content (r.create_remote host remote w).1 p ≡ f.content w p
  pub copy_keeps :
      (path host remote p : Text) (w : f.World)
      → f.content (r.copy_remote path host remote w).1 p ≡ f.content w p
  -- A copy that returns nil and wrote as many bytes as the source has is whole.
  pub copy_whole :
      (path host remote : Text) (size : ℤ) (w : f.World)
      → r.source_size w path ≡ some size
      → (r.copy_remote path host remote w).0 ≡ (true, size)
      → r.remote_content (r.copy_remote path host remote w).1 host remote ≡ f.content w path
  pub create_size :
      (host remote path : Text) (w : f.World)
      → r.source_size (r.create_remote host remote w).1 path ≡ r.source_size w path
  pub close_keeps :
      (host remote p : Text) (w : f.World)
      → f.content (r.close_remote host remote w).1 p ≡ f.content w p
  -- The close flushes the last writes: if it returns nil, nothing is missing.
  pub close_flushes :
      (host remote : Text) (w : f.World)
      → (r.close_remote host remote w).0 ≡ true
      → r.remote_content (r.close_remote host remote w).1 host remote
        ≡ r.remote_content w host remote
  pub session_keeps :
      (host p : Text) (w : f.World) → f.content (r.close_session host w).1 p ≡ f.content w p
  pub session_keeps_remote :
      (host remote : Text) (w : f.World)
      → r.remote_content (r.close_session host w).1 host remote ≡ r.remote_content w host remote
  pub remove_keeps_remote :
      (path host remote : Text) (w : f.World)
      → r.remote_content (f.remove path w).1 host remote ≡ r.remote_content w host remote
