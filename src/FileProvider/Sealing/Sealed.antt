-- ===== src/FileProvider/Sealing/Sealed.antt =====
-- What a successful seal (service.py: seal_upload) leaves, and what it does after a crash that lost its
-- rows and kept its files.
use Prim.Native.String.{◌++◌ as str_append}
use mnema.Prelude.{
  ◌≡◌, ap, ◌∙◌, true, false, none, some, length, find, String, str_eq_iff, is_some, DateTime, arith,
  Bool-cases, Option-cases, inl, inr,
}
use mnema.Runtime.Errors.{ok, Result-cases}
use mnema.Runtime.Files.{FilePath, path_eq, Content, regular, Files, exists}
use mnema.Domain.States.{local_staged}
use mnema.Jobs.Models.Archive.{ArchiveItem}
use mnema.Jobs.Models.FileProvider.{FileProviderUpload, sealing, sealed, upload_status_eq}
use mnema.Jobs.StateService.{Ledger, transition_item}
use mnema.Jobs.Queue.Table.{has_key, enqueue-find}
use mnema.Adapters.FileOps.{partial_path, check_staged}
use mnema.FileProvider.Uploads.{Site, Server, is_upload, is_archive, upload_path}
use mnema.FileProvider.Items.{get}
use mnema.FileProvider.Auth.{update_first}
use mnema.Domain.Workflow.{no_details}
use mnema.FileProvider.Sealing.{
  hash_differs, seal_files, seal_rows, seal_upload, with_checksum, with_status, upload_payload,
}
use mnema.FileProvider.Sealing.Moved.{moved, vacated, seal_files-inv, seal_files_again}

abbrev pub job_name : FileProviderUpload → String
job_name u = str_append "file-provider-upload:" u.id

transition_item_item :
    (site : Site) (l : Ledger) {l' : Ledger}
    → transition_item site.re l local_staged "file-provider" no_details ≡ some l'
    → l'.item ≡ record (l.item) { state = local_staged }
unfolding transition_item
transition_item_item site l {l'} h = ground arith

pub seal_rows-inv :
    (site : Site) (now : DateTime) (checksum : String) (u : FileProviderUpload) (archive : Ledger)
    (s : Server) {a : ArchiveItem} {s' : Server}
    → seal_rows site now checksum u archive s ≡ (ok a, s')
    → (a ≡ record (archive.item) { plaintext_sha256 = some checksum; state = local_staged })
      × (s'.files ≡ s.files)
      × (s'.uploads ≡ update_first (is_upload u.id) (with_status sealed) s.uploads)
      × (is_some (find (has_key (job_name u)) s'.jobs) ≡ true)
unfolding seal_rows
seal_rows-inv site now checksum u archive s {a} {s'} h =
    elim (Option-cases (
      transition_item site.re (with_checksum checksum archive) local_staged "file-provider"
        no_details)) [
          | inl refused ↦ absurd (ground arith)
          | inr (l, moved) ↦ elim (Option-cases (get u.item_id s.tables)) [
            | inl missing ↦ absurd (ground arith)
            | inr (item, there) ↦ (
              ground (
                arith,
                transition_item_item site (with_checksum checksum archive) {l' = l} moved,
              ),
              ground arith,
              ground arith,
              ground (
                arith,
                enqueue-find (site.job_key s.jobs) now s.jobs "archive_upload" "file_provider"
                    (upload_payload l.item.id item.id) (job_name u) 5,
              ),
            )
          ]
        ]

module _ (site : Site) (now : DateTime) (u : FileProviderUpload) (s : Server) (source : FilePath)
    (archive : Ledger) (located : upload_path site s.files u.id ≡ ok source)
    (found : find (is_archive u.archive_item_id) s.archives ≡ some archive) where
  abbrev pub target : FilePath
  target = partial_path site.str_of site.staging_root archive.item.id

  seal_upload-inv :
      {a : ArchiveItem} {s' : Server}
      → seal_upload site now u s ≡ (ok a, s')
      → (checksum : String) × (files : Files) × (upload_status_eq u.status sealing ≡ true)
        × (seal_files site.host source target u s.files ≡ (ok checksum, files))
        × (seal_rows site now checksum u archive (record s { files = files }) ≡ (ok a, s'))
  unfolding seal_upload
  seal_upload-inv {a} {s'} h = elim (Bool-cases (upload_status_eq u.status sealing)) [
    | inr other ↦ absurd (ground arith)
    | inl ready ↦ elim (Result-cases (seal_files site.host source target u s.files).0) [
      | inl (e, failed) ↦ absurd (ground arith)
      | inr (checksum, checked) ↦ (
        checksum,
        (seal_files site.host source target u s.files).1,
        ready,
        ground arith,
        ground arith,
      )
    ]
  ]

  -- Where no file stands at the staging path, which is not the path of the upload: a seal that succeeds
  -- leaves there the bytes of the declared size, whose hash it records and which has the declared value
  -- if there is one; they pass the tests of `commit_staged`; nothing is left at the upload's path; the
  -- item is LOCAL_STAGED and the job that archives it is queued.
  pub seal_upload_stages :
      {a : ArchiveItem} {s' : Server}
      → path_eq target source ≡ false
      → exists (s.files target) ≡ false
      → seal_upload site now u s ≡ (ok a, s')
      → (bytes : Content) × (s'.files target ≡ some (regular bytes))
        × (length bytes ≡ u.expected_size)
        × (hash_differs u.expected_sha256 (site.host.sha256 bytes) ≡ false)
        × (a ≡ record (archive.item) {
          plaintext_sha256 = some (site.host.sha256 bytes);
          state = local_staged;
        })
        × (check_staged site.host (s'.files target) (site.host.sha256 bytes) u.expected_size
            ≡ ok tt)
        × (s'.files source ≡ none)
        × (is_some (find (has_key (job_name u)) s'.jobs) ≡ true)
  unfolding check_staged
  seal_upload_stages {a} {s'} apart free h =
      let (checksum, files, ready, checked, rows) = seal_upload-inv {a = a} {s' = s'} h in
      let (bytes, there, sized, hash, agrees, moved_files) =
        seal_files-inv site.host source target u s.files apart free {checksum = checksum}
          {files' = files} checked in
      let (item, same_files, sealed_rows, queued) =
        seal_rows-inv site now checksum u archive (record s { files = files }) {a = a} {s' = s'}
          rows in
      let at_target : s'.files target ≡ some (regular bytes) =
        ap (λ f. f target) (same_files ∙ moved_files)
        ∙ moved site.host source target u s.files apart free bytes there in
      (
        bytes,
        at_target,
        sized,
        agrees,
        ground (arith, item, hash),
        ground
            (arith, at_target, sized, str_eq_iff (site.host.sha256 bytes) (site.host.sha256 bytes)),
        ap (λ f. f source) (same_files ∙ moved_files)
            ∙ vacated site.host source target u s.files apart free,
        queued,
      )

  -- A seal that succeeded and whose rows were lost, as where the process was killed before its session was
  -- committed, is repeated with the same result from the files that it left: no bytes are lost, and
  -- nothing is done twice. Moving a file is taken to leave the upload's path where it was.
  pub seal_upload_again :
      {a : ArchiveItem} {s' : Server}
      → path_eq target source ≡ false
      → exists (s.files target) ≡ false
      → upload_path site s'.files u.id ≡ ok source
      → seal_upload site now u s ≡ (ok a, s')
      → seal_upload site now u (record s { files = s'.files }) ≡ (ok a, s')
  unfolding seal_upload
  seal_upload_again {a} {s'} apart free located' h =
      let (checksum, files, ready, checked, rows) = seal_upload-inv {a = a} {s' = s'} h in
      let (bytes, there, sized, hash, agrees, moved_files) =
        seal_files-inv site.host source target u s.files apart free {checksum = checksum}
          {files' = files} checked in
      let (item, same_files, sealed_rows, queued) =
        seal_rows-inv site now checksum u archive (record s { files = files }) {a = a} {s' = s'}
          rows in
      let again =
        seal_files_again site.host source target u s'.files bytes apart
          (ap (λ f. f source) (same_files ∙ moved_files)
            ∙ vacated site.host source target u s.files apart free)
          (ap (λ f. f target) (same_files ∙ moved_files)
            ∙ moved site.host source target u s.files apart free bytes there)
          sized agrees in
      ground (arith, again, hash, same_files, rows)

pub seal_upload-ok :
    (site : Site) (now : DateTime) (u : FileProviderUpload) (s : Server) {a : ArchiveItem}
    {s' : Server}
    → seal_upload site now u s ≡ (ok a, s')
    → s'.uploads ≡ update_first (is_upload u.id) (with_status sealed) s.uploads
unfolding seal_upload
seal_upload-ok site now u s {a} {s'} h = elim (Result-cases (upload_path site s.files u.id)) [
  | inl (e, bad) ↦ absurd (ground arith)
  | inr (source, located) ↦ elim (Option-cases (find (is_archive u.archive_item_id) s.archives)) [
    | inl missing ↦ absurd (ground arith)
    | inr (archive, found) ↦
        let (checksum, files, ready, checked, rows) =
          seal_upload-inv site now u s source archive located found {a = a} {s' = s'} h in
        (seal_rows-inv site now checksum u archive (record s { files = files }) {a = a} {s' = s'}
          rows).2
  ]
]
