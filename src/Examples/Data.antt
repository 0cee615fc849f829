-- ===== src/Examples/Data.antt =====
-- The values that the examples share.
use mnema.Prelude.{true, false, Option, none, some, [], ◌∷◌, str_eq, if◌then◌else◌, days}
use mnema.Security.Redaction.{Patterns}
use mnema.Runtime.Errors.{ok}
use mnema.Runtime.Files.{FilePath, path_eq, regular, directory, Files}
use mnema.Runtime.Session.{World, Session}
use mnema.Config.Settings.{SourcePolicy}
use mnema.Domain.States.{ArchiveState}
use mnema.Domain.Source.{SourceObject}
use mnema.Domain.Storage.{Pathlib}
use mnema.Domain.Protocols.{Adapters, Workflow}
use mnema.Jobs.Models.Archive.{ArchiveItem}
use mnema.Jobs.StateService.{Ledger}
use mnema.Adapters.FileOps.{Host}

abbrev pub re : Patterns
re = record {
  sensitive = λ key. str_eq key "token";
  bearer_sub = λ text. if str_eq text "Bearer abc" then "Bearer [REDACTED]" else text;
}

abbrev pub find_node : Files → FilePath → Option FilePath
find_node files path = elim (files path) [ none ↦ none | some node ↦ some path ]

abbrev pub lib : Pathlib
lib = record {
  parse = λ text. record { is_absolute = false; parts = text ∷ [] };
  stem = λ name. name;
  suffix = λ name. "";
  resolve = λ files path. path;
  resolve_strict = find_node;
}

abbrev pub host : Host
host = record {
  lib = lib;
  sha256 = λ bytes. "hash";
  mkdir = λ path. ok tt;
  rename = λ from to. ok tt;
  settle = λ path. ok tt;
}

abbrev pub active_root : FilePath
active_root = "active" ∷ []

abbrev pub staged : FilePath
staged = "staging" ∷ "7.partial" ∷ []

abbrev pub photo : FilePath
photo = "active" ∷ "photo" ∷ []

abbrev pub files : Files
files path =
    if path_eq path active_root
    then some (directory 1)
    else if path_eq path staged
    then some (regular (1 ∷ 2 ∷ []))
    else none

abbrev pub archived_files : Files
archived_files path =
    if path_eq path active_root
    then some (directory 1)
    else if path_eq path photo
    then some (regular (1 ∷ 2 ∷ []))
    else none

abbrev pub policy : SourcePolicy
policy = record {
  included_directories = [];
  excluded_directories = [];
  included_globs = [];
  excluded_globs = [];
  minimum_file_size = 1;
  maximum_file_size = some 10;
  archive_after_days = 1;
  stability_window_hours = 1;
  quarantine_days = 30;
  dry_run = false;
  manual_approval = true;
  deletion_enabled = true;
}

abbrev pub source_object : SourceObject
source_object = record {
  source_id = "p1";
  relative_path = "photo";
  size = 2;
  modified_at = 0;
  version = "v1";
}

abbrev pub item_in : ArchiveState → ArchiveItem
item_in state = record {
  id = 7;
  source_provider = "local";
  source_identifier = "p1";
  original_path = "photo";
  original_size = 2;
  original_modified_at = 0;
  source_version = "v1";
  state = state;
  plaintext_sha256 = none;
  nas_path = none;
  nas_verified_at = none;
  kopia_snapshot_id = none;
  kopia_verified_at = none;
  remote_provider = none;
  remote_bucket = none;
  remote_object_identifier = none;
  encryption_mode = none;
  remote_size = none;
  remote_checksum = none;
  uploaded_at = none;
  remote_verified_at = none;
  remote_verification_method = none;
  cold_archived_at = none;
  quarantine_expires_at = none;
  deletion_timestamp = none;
  restore_test_status = none;
}

abbrev pub rows_in : ArchiveState → Ledger
rows_in state = record { item = item_in state; events = [] }

-- Adapters that succeed; the download leaves the staged file in place.
abbrev pub adapters : Adapters (Unit {0})
adapters = record {
  capabilities =
      λ w. (ok (record { can_delete = true; supports_cursor = true; stable_versions = true }), w);
  stat = λ id w. (ok source_object, w);
  download = λ id path w.
      (ok (record { source_id = id; bytes_written = 2; sha256 = "hash"; version = "v1" }), w);
  delete = λ id version w.
      (ok (record { source_id = id; expected_version = version; confirmed_absent = true }), w);
  snapshot = λ path key w. (ok (record { snapshot_id = "k1" }), w);
  verify_backup = λ receipt sha256 w. (ok true, w);
  upload = λ path name key w. (
    ok (record {
      provider = "s3";
      bucket = "b";
      object_identifier = "o";
      encryption_mode = "age";
      remote_size = 3;
      remote_checksum = none;
    }),
    w,
  );
  verify_cold = λ receipt sha256 w. (ok true, w);
  archive_verified = λ receipt w. (ok tt, w);
}

abbrev pub wf : Workflow (Unit {0})
wf = record {
  re = re;
  host = host;
  str_of = λ n. "7";
  text_of = λ path. "photo";
  path_of = λ text. photo;
  error_name = λ e. "OSError";
  adapters = adapters;
  active_root = active_root;
  staging_root = "staging" ∷ [];
  policy = policy;
  source_provider = "local";
  source_is_active = false;
}

abbrev pub world : World (Unit {0})
world = record { files = files; clock = days 2; ext = tt }

abbrev pub session_in : ArchiveState → Session (Unit {0})
session_in state = record { world = world; ledger = rows_in state; saved = rows_in state }
