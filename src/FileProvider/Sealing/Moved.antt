-- ===== src/FileProvider/Sealing/Moved.antt =====
-- Where the bytes of a sealed upload are (service.py: seal_upload), and what sealing again after a crash
-- finds.
use mnema.Prelude.{
  ◌≡◌, refl, sym, ap, ◌∙◌, false, Option, none, some, [], ◌∷◌, length, String, arith, Bool-cases,
  inl, inr,
}
use mnema.Runtime.Errors.{ok, Result-cases}
use mnema.Runtime.Files.{
  FilePath, path_eq, path_eq_refl, path_eq_sound, Content, Node, regular, symlink, directory, Files,
  exists, write, replace,
}
use mnema.Jobs.Models.FileProvider.{FileProviderUpload}
use mnema.Adapters.FileOps.{Host}
use mnema.FileProvider.Sealing.{
  is_file, make_empty, hash_differs, check_candidate, discard_source, put_staged, candidate_of,
  seal_files,
}

check_candidate-inv :
    (host : Host) (u : FileProviderUpload) (node : Option Node) {checksum : String}
    → check_candidate host u node ≡ ok checksum
    → (bytes : Content) × (node ≡ some (regular bytes))
      × (length bytes ≡ u.expected_size)
      × (checksum ≡ host.sha256 bytes)
      × (hash_differs u.expected_sha256 (host.sha256 bytes) ≡ false)
unfolding check_candidate
check_candidate-inv host u none {checksum} h = absurd (ground arith)
check_candidate-inv host u (some symlink) {checksum} h = absurd (ground arith)
check_candidate-inv host u (some (directory n)) {checksum} h = absurd (ground arith)
check_candidate-inv host u (some (regular bytes)) {checksum} h =
    (bytes, refl, ground arith, ground arith, ground arith)

module _ (host : Host) (source destination : FilePath) (u : FileProviderUpload) (files : Files)
    (apart : path_eq destination source ≡ false) (free : exists (files destination) ≡ false) where
  abbrev pub made : Files
  made = make_empty source u.expected_size files

  apart_again : path_eq source destination ≡ false
  apart_again = elim (Bool-cases (path_eq source destination)) [
    | inr other ↦ other
    | inl same ↦ absurd (
        ground (
          arith,
          path_eq_refl destination,
          ap (path_eq destination) (path_eq_sound source destination same),
        ))
  ]

  made_elsewhere : made destination ≡ files destination
  unfolding make_empty
  made_elsewhere = ground arith

  pub moved :
      (bytes : Content)
      → made source ≡ some (regular bytes)
      → replace source destination made destination ≡ some (regular bytes)
  unfolding make_empty
  moved bytes h = ground (arith, path_eq_refl destination, path_eq_sound source destination)

  pub vacated : replace source destination made source ≡ none
  unfolding make_empty
  vacated = ground (arith, path_eq_refl source, path_eq_refl destination, apart_again)

  put_staged_free :
      put_staged source destination u.expected_size made ≡ (ok tt, replace source destination made)
  unfolding put_staged
  put_staged_free = ground (arith, made_elsewhere)

  candidate_source :
      {bytes : Content}
      → made (candidate_of source destination made) ≡ some (regular bytes)
      → made source ≡ some (regular bytes)
  candidate_source {bytes} h = elim (Bool-cases (is_file (made source))) [
    | inl yes' ↦ ground arith
    | inr no' ↦ absurd (ground (arith, made_elsewhere))
  ]

  seal_files_checked :
      {checksum : String}
      → check_candidate host u (made (candidate_of source destination made)) ≡ ok checksum
      → seal_files host source destination u files ≡ (ok checksum, replace source destination made)
  unfolding seal_files
  seal_files_checked {checksum} h = ground (arith, put_staged_free)

  pub seal_files-inv :
      {checksum : String} {files' : Files}
      → seal_files host source destination u files ≡ (ok checksum, files')
      → (bytes : Content) × (made source ≡ some (regular bytes))
        × (length bytes ≡ u.expected_size)
        × (checksum ≡ host.sha256 bytes)
        × (hash_differs u.expected_sha256 (host.sha256 bytes) ≡ false)
        × (files' ≡ replace source destination made)
  unfolding seal_files
  seal_files-inv {checksum} {files'} h =
      elim (Result-cases (check_candidate host u (made (candidate_of source destination made)))) [
        | inl (e, failed) ↦ absurd (ground arith)
        | inr (c, checked) ↦
            let (bytes, there, sized, hash, agrees) =
              check_candidate-inv host u (made (candidate_of source destination made))
                {checksum = c} checked in
            let same = sym h ∙ seal_files_checked {checksum = c} checked in
            (
              bytes,
              candidate_source {bytes = bytes} there,
              sized,
              ground (arith, same),
              agrees,
              ap (λ r. r.1) same,
            )
      ]

write-none :
    (path : FilePath) (node : Option Node) (files : Files)
    → files path ≡ none
    → write path none (write path node files) ≡ files
write-none path node files h = λ i p. at p i
  where
    at : (p : FilePath) → write path none (write path node files) p ≡ files p
    at p = elim (Bool-cases (path_eq p path)) [
      | inl same ↦ ground (arith, ap files (path_eq_sound p path same))
      | inr other ↦ ground arith
    ]

-- Bytes that were moved are found again.
pub seal_files_again :
    (host : Host) (source destination : FilePath) (u : FileProviderUpload) (files : Files)
    (bytes : Content)
    → path_eq destination source ≡ false
    → files source ≡ none
    → files destination ≡ some (regular bytes)
    → length bytes ≡ u.expected_size
    → hash_differs u.expected_sha256 (host.sha256 bytes) ≡ false
    → seal_files host source destination u files ≡ (ok (host.sha256 bytes), files)
unfolding seal_files make_empty check_candidate put_staged discard_source
seal_files_again host source destination u files [] apart gone there sized agrees =
    ground (arith, path_eq_refl source, write-none source (some (regular [])) files gone)
seal_files_again host source destination u files (b ∷ bytes) apart gone there sized agrees =
    ground (
      arith,
      path_eq_refl source,
      write-none source none files gone,
      write-none source (files source) files gone,
    )
