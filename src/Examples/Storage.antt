-- ===== src/Examples/Storage.antt =====
-- A commit of the staged photograph, and its name below the root of active storage.
use mnema.Prelude.{◌≡◌, refl, false, none, some, [], ◌∷◌, ◌++◌}
use mnema.Runtime.Errors.{os_error, err}
use mnema.Runtime.Files.{is_symlink, replace}
use mnema.Domain.Storage.{safe_relative_path, meets_symlink, resolve_below, resolve_beneath}
use mnema.Domain.Storage.Beneath.{resolve_beneath_link_free}
use mnema.Adapters.FileOps.{
  Host, CommitReceipt, move_to, sha256_file, check_staged, commit_at, commit_staged,
}
use mnema.Adapters.FileOps.Commit.{commit_success, IsCommitted}
use mnema.Examples.Data.{host, lib, files, archived_files, active_root, staged, photo}

abbrev receipt : CommitReceipt
receipt = record { path = photo; size = 2; sha256 = "hash"; transformed_from = none }

commit_success_example : IsCommitted host files (replace staged photo files) staged "hash" 2 receipt
unfolding commit_staged commit_at move_to check_staged sha256_file resolve_beneath
    safe_relative_path resolve_below
commit_success_example =
    commit_success host files staged active_root "photo" "hash" 2 {r = receipt}
      {files' = replace staged photo files} refl refl refl

-- A host on which the directory cannot be synced.
abbrev failing : Host
failing = record host { settle = λ path. err os_error }

resolve_beneath_link_free_example :
    (lib.resolve_strict archived_files (active_root ++ (lib.parse "photo").parts) ≡ some photo)
    × (is_symlink (archived_files (active_root ++ ([] ++ "photo" ∷ []))) ≡ false)
unfolding resolve_beneath safe_relative_path resolve_below meets_symlink
resolve_beneath_link_free_example =
    resolve_beneath_link_free lib archived_files active_root "photo" {base = active_root}
      {path = photo} [] "photo" [] refl refl refl
