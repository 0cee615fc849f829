-- ===== src/FileProvider/Completion/Caught.antt =====
-- The exceptions of `seal_upload` (service.py).
use mnema.Prelude.{
  ℕ, ◌≡◌, true, Option, none, some, find, String, DateTime, arith, Option-cases, inl, inr,
}
use mnema.Runtime.Errors.{Error, err, Result-cases}
use mnema.Runtime.Files.{FilePath, Node, regular, symlink, directory, Files}
use mnema.Domain.States.{local_staged}
use mnema.Domain.Workflow.{no_details}
use mnema.Jobs.Models.FileProvider.{FileProviderUpload}
use mnema.Jobs.StateService.{transition_item}
use mnema.Adapters.FileOps.{Host, partial_path}
use mnema.FileProvider.Items.{get}
use mnema.FileProvider.Uploads.{Site, Server, is_archive, upload_path}
use mnema.FileProvider.Sealing.{
  make_empty, check_candidate, discard_source, put_staged, candidate_of, seal_files, seal_rows,
  seal_upload, with_checksum,
}
use mnema.FileProvider.Completion.{is_caught}

-- Every exception of `seal_upload` is one that its callers name, and leaves the rows.
upload_path-caught :
    (site : Site) (files : Files) (id : String) {e : Error}
    → upload_path site files id ≡ err e
    → is_caught e ≡ true
unfolding upload_path
upload_path-caught site files id {e} h = ground arith

check_candidate-caught :
    (host : Host) (u : FileProviderUpload) (node : Option Node) {e : Error}
    → check_candidate host u node ≡ err e
    → is_caught e ≡ true
unfolding check_candidate
check_candidate-caught host u none {e} h = ground arith
check_candidate-caught host u (some symlink) {e} h = ground arith
check_candidate-caught host u (some (directory n)) {e} h = ground arith
check_candidate-caught host u (some (regular bytes)) {e} h = ground arith

discard_source-caught :
    (source : FilePath) (node : Option Node) (files : Files) {e : Error}
    → (discard_source source node files).0 ≡ err e
    → is_caught e ≡ true
unfolding discard_source
discard_source-caught source none files {e} h = ground arith
discard_source-caught source (some symlink) files {e} h = ground arith
discard_source-caught source (some (directory n)) files {e} h = ground arith
discard_source-caught source (some (regular bytes)) files {e} h = ground arith

put_staged-caught :
    (source destination : FilePath) (size : ℕ) (files : Files) {e : Error}
    → (put_staged source destination size files).0 ≡ err e
    → is_caught e ≡ true
unfolding put_staged
put_staged-caught source destination size files {e} h =
    ground (arith, discard_source-caught source (files source) files {e = e})

seal_files-caught :
    (host : Host) (source destination : FilePath) (u : FileProviderUpload) (files : Files)
    {e : Error}
    → (seal_files host source destination u files).0 ≡ err e
    → is_caught e ≡ true
unfolding seal_files
seal_files-caught host source destination u files {e} h =
    let made = make_empty source u.expected_size files in
    elim (Result-cases (check_candidate host u (made (candidate_of source destination made)))) [
      | inl (e', bad) ↦ ground (
        arith,
        check_candidate-caught host u (made (candidate_of source destination made)) {e = e'},
      )
      | inr (c, checked) ↦
          elim (Result-cases (put_staged source destination u.expected_size made).0) [
            | inl (e', bad) ↦
                ground (arith, put_staged-caught source destination u.expected_size made {e = e'})
            | inr (d, placed) ↦ absurd (ground arith)
          ]
    ]

pub seal_upload-err :
    (site : Site) (now : DateTime) (u : FileProviderUpload) (s : Server) {e : Error} {s' : Server}
    → seal_upload site now u s ≡ (err e, s')
    → (is_caught e ≡ true) × (s'.uploads ≡ s.uploads)
unfolding seal_upload seal_rows
seal_upload-err site now u s {e} {s'} h = elim (Result-cases (upload_path site s.files u.id)) [
  | inl (e', bad) ↦ (ground (arith, upload_path-caught site s.files u.id {e = e'}), ground arith)
  | inr (source, located) ↦ elim (Option-cases (find (is_archive u.archive_item_id) s.archives)) [
    | inl missing ↦ (ground arith, ground arith)
    | inr (archive, found) ↦
        let target = partial_path site.str_of site.staging_root archive.item.id in
        elim (Result-cases (seal_files site.host source target u s.files).0) [
          | inl (e', bad) ↦ (
            ground (arith, seal_files-caught site.host source target u s.files {e = e'}),
            ground arith,
          )
          | inr (checksum, checked) ↦
              elim (Option-cases (
                transition_item site.re (with_checksum checksum archive) local_staged
                  "file-provider" no_details)) [
                    | inl refused ↦ (ground arith, ground arith)
                    | inr (l, moved) ↦ elim (Option-cases (get u.item_id s.tables)) [
                      | inl missing ↦ (ground arith, ground arith)
                      | inr (item, there) ↦ (ground arith, ground arith)
                    ]
                  ]
        ]
  ]
]
