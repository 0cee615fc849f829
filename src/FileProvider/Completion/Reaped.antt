-- ===== src/FileProvider/Completion/Reaped.antt =====
-- What `reap_expired_uploads` (service.py) leaves of the uploads.
use mnema.Prelude.{List, [], ◌∷◌, if◌then◌else◌, DateTime}
use mnema.Jobs.Models.FileProvider.{FileProviderUpload, FileProviderUploadStatus}
use mnema.FileProvider.Auth.{update_first}
use mnema.FileProvider.Uploads.{is_upload}
use mnema.FileProvider.Sealing.{with_status}
use mnema.FileProvider.Completion.{is_overdue}

-- The uploads after these have failed.
fail_all : List FileProviderUpload → List FileProviderUpload → List FileProviderUpload
fail_all [] xs = xs
fail_all (u ∷ us) xs =
    fail_all us (update_first (is_upload u.id) (with_status FileProviderUploadStatus.failed) xs)

abbrev pub reaped : DateTime → FileProviderUpload → FileProviderUpload
reaped now u = if is_overdue now u then with_status FileProviderUploadStatus.failed u else u
