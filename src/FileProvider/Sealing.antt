-- ===== src/FileProvider/Sealing.antt =====
-- Sealing an upload (src/mnema/file_provider/service.py: seal_upload). An exception leaves the rows as
-- they were, and the files as the failed call left them.
pub mod Moved
pub mod Sealed
use Prim.Native.String.{◌++◌ as str_append}
use mnema.Prelude.{
  ℕ, ◌+◌, Bool, true, false, not, ◌&&◌, ◌||◌, Option, none, some, List, [], ◌∷◌, ◌++◌, map, length,
  find, keep_if, ltb, leb, ◌==◌, if◌then◌else◌, is_some, String, str_eq, DateTime,
}
use mnema.Security.Redaction.{Value, mapping, end, field, str, num}
use mnema.Runtime.Errors.{
  Error, value_error, runtime_error, os_error, Result, ok, err, is_value_error, is_os_error,
  is_runtime_error,
}
use mnema.Runtime.Files.{
  FilePath, Content, Node, regular, symlink, directory, Files, exists, is_symlink, has_size, write,
  replace,
}
use mnema.Domain.States.{local_staged, manual_review, state_eq}
use mnema.Domain.Workflow.{no_details}
use mnema.Jobs.Models.Archive.{ArchiveItem}
use mnema.Jobs.Models.Work.{Job}
use mnema.Jobs.Models.FileProvider.{
  FileProviderItem, FileProviderUpload, FileProviderUploadStatus, open_, sealing, sealed, failed,
  upload_status_eq,
}
use mnema.Jobs.StateService.{Ledger, transition_item}
use mnema.Jobs.Queue.{enqueue}
use mnema.Adapters.FileOps.{Host, partial_path}
use mnema.FileProvider.Auth.{update_first}
use mnema.FileProvider.Items.{Tables, has_id, get, record_change, mark_upload_failed}
use mnema.FileProvider.Uploads.{
  Site, Server, is_upload, is_archive, upload_path, Reply, reply, refused, raised,
}

-- `path.is_file()`, which follows a link.
abbrev pub is_file : Option Node → Bool
is_file (some (regular bytes)) = true
is_file (some symlink) = true
is_file _ = false

-- The empty file that no request body made.
unfoldable pub make_empty : FilePath → ℕ → Files → Files
make_empty source expected_size files =
    if expected_size == 0 && not (exists (files source))
    then write source (some (regular [])) files
    else files

abbrev pub hash_differs : Option String → String → Bool
hash_differs none checksum = false
hash_differs (some expected) checksum = not (str_eq checksum expected)

-- The tests on the candidate, and its checksum.
unfoldable pub check_candidate : Host → FileProviderUpload → Option Node → Result String
check_candidate host u (some (regular bytes)) =
    if not (length bytes == u.expected_size)
    then err (value_error "upload file is incomplete")
    else if hash_differs u.expected_sha256 (host.sha256 bytes)
    then err (value_error "upload SHA-256 does not match")
    else ok (host.sha256 bytes)
check_candidate host u _ = err (value_error "upload file is incomplete")

-- `source.unlink(missing_ok=True)`
unfoldable pub discard_source : FilePath → Option Node → Files → Result (Unit {0}) × Files
discard_source source (some (directory n)) files = (err os_error, files)
discard_source source _ files = (ok tt, write source none files)

-- From `if destination.exists()` to the rows.
unfoldable pub put_staged : FilePath → FilePath → ℕ → Files → Result (Unit {0}) × Files
unfolding discard_source
put_staged source destination expected_size files =
    if exists (files destination)
    then if is_symlink (files destination) || not (has_size (files destination) expected_size)
      then (err (runtime_error "staging collision requires manual review"), files)
      else discard_source source (files source) files
    else (ok tt, replace source destination files)

abbrev pub candidate_of : FilePath → FilePath → Files → FilePath
candidate_of source destination files = if is_file (files source) then source else destination

-- The file part of `seal_upload`: the checksum, where no exception is raised.
unfoldable pub seal_files :
    Host → FilePath → FilePath → FileProviderUpload → Files → Result String × Files
unfolding make_empty check_candidate put_staged
seal_files host source destination u files =
    let files' = make_empty source u.expected_size files in
    elim (check_candidate host u (files' (candidate_of source destination files'))) [
      | err e ↦ (err e, files')
      | ok checksum ↦
          let (placed, files'') = put_staged source destination u.expected_size files' in
          elim placed [ err e ↦ (err e, files'') | ok done ↦ (ok checksum, files'') ]
    ]

-- The rows of an archive item that is staged.
abbrev pub with_checksum : String → Ledger → Ledger
with_checksum checksum l = record l { item = record (l.item) { plaintext_sha256 = some checksum } }

unfoldable pub upload_payload : ℕ → String → Value
upload_payload archive_id item_id =
    mapping
      (field "archive_item_id" (num archive_id) (field "file_provider_item_id" (str item_id) end))

abbrev pub with_status : FileProviderUploadStatus → FileProviderUpload → FileProviderUpload
with_status status u = record u { status = status }

abbrev pub with_content : String → FileProviderItem → FileProviderItem
with_content checksum i = record i { content_version = checksum }

-- The row part of `seal_upload`, on the rows that the session found.
unfoldable pub seal_rows :
    Site → DateTime → String → FileProviderUpload → Ledger → Server → Result ArchiveItem × Server
unfolding upload_payload
seal_rows site now checksum u archive s =
    elim (transition_item site.re (with_checksum checksum archive) local_staged "file-provider"
      no_details) [
        | none ↦ (err Error.invalid_transition, s)
        | some l ↦ elim (get u.item_id s.tables) [
          | none ↦ (err (runtime_error "File Provider item is missing"), s)
          | some item ↦
              let tables = record (s.tables) {
                items = update_first (has_id u.item_id) (with_content checksum) s.tables.items;
              } in
              (
                ok l.item,
                record s {
                  uploads = update_first (is_upload u.id) (with_status sealed) s.uploads;
                  archives = update_first (is_archive u.archive_item_id) (λ _. l) s.archives;
                  jobs =
                      (enqueue (site.job_key s.jobs) now s.jobs "archive_upload" "file_provider"
                        (upload_payload l.item.id item.id) (str_append "file-provider-upload:" u.id)
                        5).1;
                  tables = (record_change now item.id "UPSERT" tables).1;
                },
              )
        ]
      ]

-- `seal_upload`
unfoldable pub seal_upload :
    Site → DateTime → FileProviderUpload → Server → Result ArchiveItem × Server
unfolding seal_files seal_rows
seal_upload site now u s = elim (upload_path site s.files u.id) [
  | err e ↦ (err e, s)
  | ok source ↦
      if not (upload_status_eq u.status sealing)
      then (err (value_error "upload is not ready to seal"), s)
      else elim (find (is_archive u.archive_item_id) s.archives) [
        | none ↦ (err (runtime_error "upload archive item is missing"), s)
        | some archive ↦
            let destination = partial_path site.str_of site.staging_root archive.item.id in
            let (checked, files) = seal_files site.host source destination u s.files in
            elim checked [
              | err e ↦ (err e, record s { files = files })
              | ok checksum ↦ seal_rows site now checksum u archive (record s { files = files })
            ]
      ]
]
