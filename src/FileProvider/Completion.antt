-- ===== src/FileProvider/Completion.antt =====
-- What ends an upload (src/mnema/file_provider/api.py: complete_upload;
-- src/mnema/file_provider/service.py: reconcile_sealing_uploads and reap_expired_uploads). The two
-- sessions of `complete_upload` run one after the other.
pub mod Caught
pub mod Settled
pub mod Reaped
use mnema.Prelude.{
  ℕ, ◌+◌, Bool, true, false, not, ◌&&◌, ◌||◌, Option, none, some, List, [], ◌∷◌, map, find, keep_if,
  ltb, leb, ◌==◌, if◌then◌else◌, String, DateTime,
}
use mnema.Security.Redaction.{mapping, end, field, str}
use mnema.Runtime.Errors.{
  Error, runtime_error, Result, ok, err, is_value_error, is_os_error, is_runtime_error,
}
use mnema.Runtime.Files.{FilePath, Node, regular, Files, write}
use mnema.Domain.States.{ArchiveState, manual_review, state_eq}
use mnema.Jobs.Models.FileProvider.{
  FileProviderUpload, FileProviderUploadStatus, open_, sealing, sealed, failed, upload_status_eq,
}
use mnema.Jobs.StateService.{Ledger, transition_item}
use mnema.FileProvider.Auth.{update_first}
use mnema.FileProvider.Items.{mark_upload_failed}
use mnema.FileProvider.Uploads.{
  Site, Server, is_upload, is_archive, upload_path, Reply, reply, refused, raised,
}
use mnema.FileProvider.Sealing.{with_status, seal_upload}

-- `except (ValueError, OSError, RuntimeError)`
abbrev pub is_caught : Error → Bool
is_caught e = is_value_error e || is_os_error e || is_runtime_error e

abbrev pub set_status : FileProviderUploadStatus → String → Server → Server
set_status status id s = record s {
  uploads = update_first (is_upload id) (with_status status) s.uploads;
}

-- The second session of `complete_upload`.
unfoldable pub finish : Site → DateTime → String → Server → Reply (String × String) × Server
finish site now upload_id s = elim (find (is_upload upload_id) s.uploads) [
  | none ↦ (refused 409 (site.error_text (runtime_error "upload disappeared while sealing")), s)
  | some u ↦
      let (answer, s') = seal_upload site now u s in
      elim answer [
        | ok archive ↦ (reply (u.item_id, "processing"), s')
        | err e ↦ (if is_caught e then refused 409 (site.error_text e) else raised e, s')
      ]
]

-- `complete_upload`: its answer holds `itemId` and `status`.
unfoldable pub complete_upload :
    Site → DateTime → String → Server → Reply (String × String) × Server
unfolding finish
complete_upload site now upload_id s = elim (find (is_upload upload_id) s.uploads) [
  | none ↦ (refused 404 "upload not found", s)
  | some u ↦
      if upload_status_eq u.status sealed
      then (reply (u.item_id, "processing"), s)
      else if not (upload_status_eq u.status open_) || not (u.received_size == u.expected_size)
      then (refused 409 "upload is incomplete", s)
      else finish site now upload_id (set_status sealing upload_id s)
]

-- The handler of `reconcile_sealing_uploads`.
unfoldable pub give_up : DateTime → String → Server → Server
give_up now upload_id s = elim (find (is_upload upload_id) s.uploads) [
  | none ↦ s
  | some u ↦ record (set_status failed upload_id s) {
    tables = mark_upload_failed now u.item_id "seal_failed" s.tables;
  }
]

-- One turn of its loop: whether an upload was recovered. An error that the handler does not name ends
-- the loop.
unfoldable pub reconcile_one : Site → DateTime → String → Server → Result Bool × Server
unfolding give_up
reconcile_one site now upload_id s = elim (find (is_upload upload_id) s.uploads) [
  | none ↦ (ok false, s)
  | some u ↦
      let (answer, s') = seal_upload site now u s in
      elim answer [
        | ok archive ↦ (ok true, s')
        | err e ↦ if is_caught e then (ok false, give_up now upload_id s') else (err e, s')
      ]
]

unfoldable pub reconcile_all : Site → DateTime → List String → Server → Result ℕ × Server
unfolding reconcile_one
reconcile_all site now [] s = (ok 0, s)
reconcile_all site now (id ∷ ids) s =
    let (answer, s') = reconcile_one site now id s in
    let (rest, s'') = reconcile_all site now ids s' in
    elim answer [
      | err e ↦ (err e, s')
      | ok recovered ↦ elim rest [
        | err e ↦ (err e, s'')
        | ok n ↦ (ok (if recovered then n + 1 else n), s'')
      ]
    ]

abbrev pub is_sealing : FileProviderUpload → Bool
is_sealing u = upload_status_eq u.status sealing

-- `reconcile_sealing_uploads`
unfoldable pub reconcile_sealing_uploads : Site → DateTime → Server → Result ℕ × Server
unfolding reconcile_all
reconcile_sealing_uploads site now s =
    reconcile_all site now (map (λ u. u.id) (keep_if is_sealing s.uploads)) s

-- `if path.is_file() and not path.is_symlink(): path.unlink(...)`
abbrev pub unlink_file : FilePath → Option Node → Files → Files
unlink_file path (some (regular bytes)) files = write path none files
unlink_file path _ files = files

-- The archive item of an upload that is reaped. `none` is the exception `InvalidTransition`.
unfoldable pub review : Site → ℕ → List Ledger → Option (List Ledger)
review site id archives = elim (find (is_archive id) archives) [
  | none ↦ some archives
  | some l ↦
      if state_eq l.item.state manual_review
      then some archives
      else elim (transition_item site.re l manual_review "upload-reaper"
          (mapping (field "reason" (str "upload expired before completion") end))) [
            | none ↦ none
            | some l' ↦ some (update_first (is_archive id) (λ _. l') archives)
          ]
]

-- One expired upload, in the session of them all.
unfoldable pub reap_one : Site → DateTime → FileProviderUpload → Server → Result (Unit {0}) × Server
unfolding review
reap_one site now u s = elim (upload_path site s.files u.id) [
  | err e ↦ (err e, s)
  | ok path ↦
      let files = unlink_file path (s.files path) s.files in
      elim (review site u.archive_item_id s.archives) [
        | none ↦ (err Error.invalid_transition, record s { files = files })
        | some archives ↦ (
          ok tt,
          record (set_status failed u.id s) {
            files = files;
            archives = archives;
            tables = mark_upload_failed now u.item_id "upload_expired" s.tables;
          },
        )
      ]
]

unfoldable pub reap_all : Site → DateTime → List FileProviderUpload → Server → Result ℕ × Server
unfolding reap_one
reap_all site now [] s = (ok 0, s)
reap_all site now (u ∷ us) s =
    let (reaped, s') = reap_one site now u s in
    let (rest, s'') = reap_all site now us s' in
    elim reaped [
      | err e ↦ (err e, s')
      | ok done ↦ elim rest [ err e ↦ (err e, s'') | ok n ↦ (ok (n + 1), s'') ]
    ]

abbrev pub is_overdue : DateTime → FileProviderUpload → Bool
is_overdue now u = upload_status_eq u.status open_ && leb u.expires_at now

-- `reap_expired_uploads`: an exception rolls the rows of the whole session back.
unfoldable pub reap_expired_uploads : Site → DateTime → Server → Result ℕ × Server
unfolding reap_all
reap_expired_uploads site now s =
    let (answer, s') = reap_all site now (keep_if (is_overdue now) s.uploads) s in
    elim answer [ ok n ↦ (ok n, s') | err e ↦ (err e, record s { files = s'.files }) ]
