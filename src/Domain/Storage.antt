-- ===== src/Domain/Storage.antt =====
-- Paths that must stay beneath a root (src/mnema/domain/storage.py).
pub mod Beneath
use mnema.Prelude.{
  ℕ, ◌≡◌, refl, Bool, true, false, not, ◌&&◌, ◌||◌, Option, none, some, List, [], ◌∷◌, ◌++◌, any,
  ◌==◌, if◌then◌else◌, String, str_eq,
}
use mnema.Runtime.Errors.{Error, unsafe_path, file_not_found, Result, ok, err}
use mnema.Runtime.Files.{FilePath, is_relative_to, Files, is_symlink}

-- What `pathlib` makes of a text, the stem and suffix of a name, and how the operating system resolves links: `none` is the
-- `FileNotFoundError` of a strict resolution.
pub record PurePath : Type 0 where
  pub is_absolute : Bool
  pub parts : List String

pub record Pathlib : Type 0 where
  pub parse : String → PurePath
  pub stem : String → String
  pub suffix : String → String
  pub resolve : Files → FilePath → FilePath
  pub resolve_strict : Files → FilePath → Option FilePath

abbrev pub is_unsafe : String → Bool
is_unsafe part = str_eq part "" || str_eq part "." || str_eq part ".."

abbrev pub is_nil : List String → Bool
is_nil [] = true
is_nil (part ∷ parts) = false

-- `safe_relative_path`
unfoldable pub safe_relative_path : Pathlib → String → Result (List String)
safe_relative_path lib value =
    let candidate = lib.parse value in
    if candidate.is_absolute || is_nil candidate.parts
    then err (unsafe_path "path must be non-empty and relative")
    else if any is_unsafe candidate.parts
    then err (unsafe_path "path contains unsafe segment")
    else ok candidate.parts

-- The loop over `rel.parts`: is a prefix of the path below `current` a link?
unfoldable pub meets_symlink : Files → FilePath → List String → Bool
meets_symlink files current [] = false
meets_symlink files current (part ∷ parts) =
    is_symlink (files (current ++ part ∷ [])) || meets_symlink files (current ++ part ∷ []) parts

abbrev pub resolve_as : Pathlib → Bool → Files → FilePath → Option FilePath
resolve_as lib true files path = lib.resolve_strict files path
resolve_as lib false files path = some (lib.resolve files path)

unfoldable pub resolve_below : Pathlib → Files → FilePath → List String → Bool → Result FilePath
unfolding meets_symlink
resolve_below lib files root rel must_exist = elim (resolve_as lib must_exist files (root ++ rel)) [
  | none ↦ err file_not_found
  | some resolved ↦
      if not (is_relative_to resolved root)
      then err (unsafe_path "path escapes configured root")
      else if must_exist && meets_symlink files root rel
      then err (unsafe_path "symlinks are not allowed")
      else ok resolved
]

-- `resolve_beneath`
unfoldable pub resolve_beneath : Pathlib → Files → FilePath → String → Bool → Result FilePath
unfolding safe_relative_path resolve_below
resolve_beneath lib files root relative must_exist = elim (lib.resolve_strict files root) [
  | none ↦ err file_not_found
  | some root_resolved ↦ elim (safe_relative_path lib relative) [
    | err e ↦ err e
    | ok rel ↦ resolve_below lib files root_resolved rel must_exist
  ]
]

pub record StorageIdentity : Type 0 where
  pub path : FilePath
  pub device_id : ℕ
  pub filesystem_uuid : Option String

-- An absent or empty text is false.
abbrev pub is_given : Option String → Bool
is_given none = false
is_given (some s) = not (str_eq s "")

abbrev pub uuid_eq : Option String → Option String → Bool
uuid_eq none none = true
uuid_eq (some a) (some b) = str_eq a b
uuid_eq _ _ = false

-- `storage_is_separate`
unfoldable pub storage_is_separate : StorageIdentity → StorageIdentity → Bool
storage_is_separate active backup =
    if is_given active.filesystem_uuid && is_given backup.filesystem_uuid
    then not (uuid_eq active.filesystem_uuid backup.filesystem_uuid)
    else not (active.device_id == backup.device_id)
