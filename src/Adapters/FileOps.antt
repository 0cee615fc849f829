-- ===== src/Adapters/FileOps.antt =====
-- Committing a staged file to active storage (src/mnema/adapters/nas/fileops.py). SHA-256 is a
-- function of a file's bytes that the caller gives. Creating parent directories, moving a file, setting
-- its times and syncing its directory can fail; but for the move they leave no trace in the files.
pub mod Commit
use Prim.Native.String.{◌++◌ as str_append, slice}
use mnema.Prelude.{
  ℕ, ◌≡◌, Bool, true, false, not, ◌&&◌, ◌||◌, Option, none, some, List, [], ◌∷◌, ◌++◌, length, ◌==◌,
  if◌then◌else◌, is_none, String, str_eq,
}
use mnema.Runtime.Errors.{Error, value_error, file_not_found, os_error, Result, ok, err}
use mnema.Runtime.Files.{
  FilePath, Content, Node, regular, symlink, directory, Files, exists, is_symlink, content,
  has_size, is_relative_to, write, replace,
}
use mnema.Domain.Storage.{Pathlib, safe_relative_path, resolve_beneath}

-- Python's `pathlib` and `hashlib`, and what the operating system answers.
pub record Host : Type 0 where
  pub lib : Pathlib
  pub sha256 : Content → String
  pub mkdir : FilePath → Result (Unit {0})  -- `mkdir` of the parents of a path
  pub rename : FilePath → FilePath → Result (Unit {0})  -- `os.replace`: an error changes nothing
  pub settle : FilePath → Result (Unit {0})  -- `os.utime` and `fsync_directory`, after the move

pub record CommitReceipt : Type 0 where
  pub path : FilePath
  pub size : ℕ
  pub sha256 : String
  pub transformed_from : Option String

-- `sha256_file`, on a name that is a regular file: a missing file and a directory are `OSError`s.
unfoldable pub sha256_file : Host → Option Node → Result String
sha256_file host (some (regular bytes)) = ok (host.sha256 bytes)
sha256_file host (some symlink) = err os_error
sha256_file host (some (directory n)) = err os_error
sha256_file host none = err file_not_found

abbrev pub hash_is : Result String → String → Bool
hash_is (ok s) expected = str_eq s expected
hash_is (err e) expected = false

-- `partial_path`
unfoldable pub partial_path : (ℕ → String) → FilePath → ℕ → FilePath
partial_path str_of staging_root archive_item_id =
    staging_root ++ str_append (str_of archive_item_id) ".partial" ∷ []

-- `final.with_name(...)`
unfoldable pub with_last : (String → String) → FilePath → FilePath
with_last rename [] = []
with_last rename (name ∷ []) = rename name ∷ []
with_last rename (part ∷ next ∷ parts) = part ∷ with_last rename (next ∷ parts)

unfoldable pub collision_path : Host → FilePath → String → FilePath
unfolding with_last
collision_path host final sha256 =
    with_last
      (λ name.
        str_append (host.lib.stem name)
          (str_append ".mnema-" (str_append (slice sha256 0 12) (host.lib.suffix name))))
      final

abbrev pub done : Files → FilePath → ℕ → String → Option String → Result CommitReceipt × Files
done files path size sha256 from =
    (ok (record { path = path; size = size; sha256 = sha256; transformed_from = from }), files)

-- The move of the staged file, and what comes after it.
unfoldable pub move_to :
    Host → Files → FilePath → FilePath → ℕ → String → Option String → Result CommitReceipt × Files
move_to host files staged final expected_size expected_sha256 from =
    elim (host.rename staged final) [
      | err e ↦ (err e, files)
      | ok moved ↦ elim (host.settle final) [
        | err e ↦ (err e, replace staged final files)
        | ok settled ↦ done (replace staged final files) final expected_size expected_sha256 from
      ]
    ]

-- The branch of a name that is taken by another file.
unfoldable pub commit_beside :
    Host
    → Files
    → FilePath
    → FilePath
    → FilePath
    → String
    → String
    → ℕ
    → Result CommitReceipt × Files
unfolding collision_path move_to
commit_beside host files staged active_root final relative_path expected_sha256 expected_size =
    let beside = collision_path host final expected_sha256 in
    if not (is_relative_to (host.lib.resolve files beside) (host.lib.resolve files active_root))
    then (err (value_error "collision path escapes active root"), files)
    else move_to host files staged beside expected_size expected_sha256 (some relative_path)

-- The branch of a name that exists. A directory of the expected size is an `OSError` when it is read.
unfoldable pub commit_over :
    Host
    → Files
    → FilePath
    → FilePath
    → FilePath
    → String
    → String
    → ℕ
    → Node
    → Result CommitReceipt × Files
unfolding sha256_file
commit_over host files staged active_root final relative_path expected_sha256 expected_size found =
    if is_symlink (some found)
    then (err (value_error "destination collision is a symlink"), files)
    else elim (has_size (some found) expected_size) [
      | false ↦
          commit_beside host files staged active_root final relative_path expected_sha256
            expected_size
      | true ↦ elim (sha256_file host (some found)) [
        | err e ↦ (err e, files)
        | ok hash ↦
            if str_eq hash expected_sha256
            then done (write staged none files) final expected_size expected_sha256 none
            else commit_beside host files staged active_root final relative_path expected_sha256
                expected_size
      ]
    ]

-- `commit_staged` from the resolution of the target on.
unfoldable pub commit_at :
    Host
    → Files
    → FilePath
    → FilePath
    → FilePath
    → String
    → String
    → ℕ
    → Result CommitReceipt × Files
unfolding move_to
commit_at host files staged active_root final relative_path expected_sha256 expected_size =
    elim (files final) [
      | none ↦ move_to host files staged final expected_size expected_sha256 none
      | some found ↦
          commit_over host files staged active_root final relative_path expected_sha256
            expected_size found
    ]

-- The tests on the staged file.
unfoldable pub check_staged : Host → Option Node → String → ℕ → Result (Unit {0})
unfolding sha256_file
check_staged host (some (regular bytes)) expected_sha256 expected_size =
    if not (length bytes == expected_size)
    then err (value_error "staged size does not match source metadata")
    else if not (str_eq (host.sha256 bytes) expected_sha256)
    then err (value_error "staged hash does not match download receipt")
    else ok tt
check_staged host _ expected_sha256 expected_size =
    err (value_error "staged object must be a regular non-symlink file")

-- `commit_staged`
unfoldable pub commit_staged :
    Host → Files → FilePath → FilePath → String → String → ℕ → Result CommitReceipt × Files
commit_staged host files staged active_root relative_path expected_sha256 expected_size =
    elim (safe_relative_path host.lib relative_path) [
      | err e ↦ (err e, files)
      | ok rel ↦ elim (check_staged host (files staged) expected_sha256 expected_size) [
        | err e ↦ (err e, files)
        | ok checked ↦ elim (resolve_beneath host.lib files active_root relative_path false) [
          | err e ↦ (err e, files)
          | ok final ↦ elim (host.mkdir final) [
            | err e ↦ (err e, files)
            | ok made ↦
                commit_at host files staged active_root final relative_path expected_sha256
                  expected_size
          ]
        ]
      ]
    ]
