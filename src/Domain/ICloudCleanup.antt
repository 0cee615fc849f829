-- ===== src/Domain/ICloudCleanup.antt =====
-- `ICloudCleanupService` (src/mnema/domain/icloud_cleanup.py): its rows, the evidence that an asset is
-- archived, and the records of what it does. Its client (src/mnema/adapters/sources/icloud_control.py)
-- is a parameter, and so are the two hashes of JSON texts and the tokens of identifiers, which are made
-- by base64 and a regular expression.
pub mod Selection
pub mod Planning
pub mod Candidates
pub mod Bounds
pub mod Execution
pub mod Vetting
pub mod Approval
pub mod Marks
pub mod Outcomes
use mnema.Prelude.{
  ℕ, ◌+◌, ◌*◌, ◌/◌, Bool, true, false, not, ◌&&◌, ◌||◌, Option, none, some, List, [], ◌∷◌, ◌++◌,
  map, length, all, any, find, max, ltb, leb, ◌==◌, if◌then◌else◌, is_some, String, str_eq,
  DateTime, days,
}
use mnema.Security.Redaction.{Value}
use mnema.Runtime.Errors.{Error, Result}
use mnema.Runtime.Files.{FilePath, Node, Files, content, has_size, is_symlink}
use mnema.Runtime.Session.{World}
use mnema.Config.Settings.{Percent}
use mnema.Runtime.Floats.{float, quotient, times, over, of_percent, truncated}
use mnema.Domain.States.{quarantined, archived, member}
use mnema.Domain.Removal.{given}
use mnema.Domain.Protocols.{Call}
use mnema.Jobs.Models.Archive.{ArchiveItem, AuditEvent}
use mnema.Jobs.Models.Work.{RuntimeSetting}
use mnema.Jobs.Models.Cloud.{ICloudAsset, ICloudCleanupManifest, ICloudQuotaObservation}
use mnema.Adapters.FileOps.{Host, sha256_file, hash_is}
use mnema.FileProvider.Auth.{update_first}
use mnema.Policies.Deletion.{DeletionFacts}

pub record ICloudQuota : Type 0 where
  pub used_bytes : ℕ
  pub quota_bytes : ℕ

pub record ICloudRemoteAsset : Type 0 where
  pub apple_asset_id : String
  pub asset_record_name : String
  pub change_tag : String
  pub created_at : DateTime
  pub size_bytes : ℕ
  pub favorite : Bool
  pub expected_components : ℕ

-- The protocol `ICloudControlClient`.
pub record ICloudControlClient (Ext : Type 0) : Type 0 where
  pub quota : Call Ext ICloudQuota
  pub assets : Call Ext (List ICloudRemoteAsset)
  pub delete_to_recently_deleted : String → String → String → Call Ext Bool

-- One entry of `evidence`.
pub record Evidence : Type 0 where
  pub archive_item_id : ℕ
  pub plaintext_sha256 : Option String
  pub kopia_snapshot_id : Option String
  pub remote_object_identifier : Option String
  pub remote_checksum : Option String

-- One of the assets of `canonical`, and `canonical`.
pub record PlannedAsset : Type 0 where
  pub apple_asset_id : String
  pub asset_record_name : String
  pub change_tag : String
  pub size_bytes : ℕ
  pub evidence_digest : String

pub record Canonical : Type 0 where
  pub created_at : DateTime
  pub used_bytes : ℕ
  pub quota_bytes : ℕ
  pub assets : List PlannedAsset

-- The settings that the service reads, with the hashes of JSON texts, `Path` of a text, the name of an
-- exception's type, `_asset_token`, `_tokens` of the last part of an identifier, and SQL's order of texts.
pub record Cleaner (Ext : Type 0) : Type 0 where
  pub client : ICloudControlClient Ext
  pub host : Host
  pub path_of : String → FilePath
  pub error_name : Error → String
  pub evidence_hash : List Evidence → String
  pub manifest_hash : Canonical → String
  pub asset_token : String → String
  pub tokens : String → List String
  pub text_leb : String → String → Bool
  pub icloud_capacity_relief_enabled : Bool
  pub icloud_deletion_milestone_approved : Bool
  pub icloud_cleanup_trigger_percent : Percent
  pub icloud_cleanup_target_percent : Percent
  pub icloud_cleanup_quarantine_days : ℕ
  pub icloud_cleanup_max_assets : ℕ
  pub icloud_cleanup_max_quota_percent : Percent

pub record Rows : Type 0 where
  pub assets : List ICloudAsset
  pub manifests : List ICloudCleanupManifest
  pub observations : List ICloudQuotaObservation
  pub settings : List RuntimeSetting
  pub events : List AuditEvent

-- A database session: `commit` saves the rows, and an exception that leaves the session's block loses
-- the others.
pub record CleanupSession (Ext : Type 0) : Type 0 where
  pub world : World Ext
  pub rows : Rows
  pub saved : Rows

-- `quota.used_percent < trigger` of a quota that is not zero, and `int(quota_bytes * p / 100)`.
abbrev pub is_below : ICloudQuota → Percent → Bool
is_below quota trigger =
    ltb (times (quotient quota.used_bytes quota.quota_bytes) (float 100)) (of_percent trigger)

abbrev pub part_of : ℕ → Percent → ℕ
part_of quota_bytes p = truncated (over (times (float quota_bytes) (of_percent p)) 100)

abbrev pub insert_evidence : ArchiveItem → List ArchiveItem → List ArchiveItem
insert_evidence i [] = i ∷ []
insert_evidence i (j ∷ items) = if leb i.id j.id then i ∷ j ∷ items else j ∷ insert_evidence i items

-- `sorted(..., key=lambda value: value.archive_item_id)`, by a key that no two components share.
abbrev pub sorted : List ArchiveItem → List ArchiveItem
sorted [] = []
sorted (i ∷ items) = insert_evidence i (sorted items)

abbrev pub evidence_of : ArchiveItem → Evidence
evidence_of i = record {
  archive_item_id = i.id;
  plaintext_sha256 = i.plaintext_sha256;
  kopia_snapshot_id = i.kopia_snapshot_id;
  remote_object_identifier = i.remote_object_identifier;
  remote_checksum = i.remote_checksum;
}

abbrev pub passed : Option DateTime → ℕ → DateTime → Bool
passed none wait now = false
passed (some t) wait now = leb (t + wait) now

abbrev pub is_text : Option String → String → Bool
is_text none text = false
is_text (some t) text = str_eq t text

module _ {Ext : Type 0} (c : Cleaner Ext) where
  -- `_evidence_digest`
  unfoldable pub evidence_digest : ICloudAsset → String
  evidence_digest asset = c.evidence_hash (map evidence_of (sorted asset.components))

  -- The file at a recorded path, no link itself: whether it has the size and the hash.
  unfoldable pub holds : Files → Option String → ℕ → Option String → Bool
  unfolding sha256_file
  holds files none size sha = false
  holds files (some t) size none = false
  holds files (some t) size (some sha) =
      let path = c.path_of t in
      let node = files (c.host.lib.resolve files path) in
      not (is_symlink (files path))
      && is_some (content node)
      && has_size node size
      && hash_is (sha256_file c.host node) sha

  -- The tests of `_eligible` on one component.
  unfoldable pub component_eligible : Files → DateTime → ArchiveItem → Bool
  unfolding holds
  component_eligible files now i =
      member i.state (quarantined ∷ archived ∷ [])
      && is_some i.kopia_verified_at
      && is_some i.kopia_snapshot_id
      && is_some i.remote_verified_at
      && is_text i.remote_provider "scaleway-glacier"
      && is_some i.remote_bucket
      && is_some i.remote_object_identifier
      && is_some i.encryption_mode
      && is_some i.remote_size
      && passed i.quarantine_expires_at 0 now
      && passed i.cold_archived_at (days c.icloud_cleanup_quarantine_days) now
      && holds files i.nas_path i.original_size i.plaintext_sha256

  -- `_eligible`
  unfoldable pub asset_eligible : Files → DateTime → ICloudAsset → Bool
  unfolding component_eligible
  asset_eligible files now asset =
      not asset.favorite
      && not (is_some asset.remotely_deleted_at)
      && length asset.components == asset.expected_components
      && all (component_eligible files now) asset.components

  abbrev latest : List ArchiveItem → Option DateTime
  latest [] = none
  latest (i ∷ items) = elim i.cold_archived_at [
    | none ↦ latest items
    | some t ↦ elim (latest items) [ none ↦ some t | some u ↦ some (max t u) ]
  ]

  abbrev or_default : DateTime → Option DateTime → DateTime
  or_default t none = t
  or_default t (some u) = u

  -- The file that `Path(item.nas_path)` leads to, where the column holds a text.
  abbrev file_of : Files → ArchiveItem → Option Node
  file_of files i = elim (given i.nas_path) [
    | none ↦ none
    | some t ↦ files (c.host.lib.resolve files (c.path_of t))
  ]

  abbrev hash_of : Files → ArchiveItem → Option String → Bool
  hash_of files i none = false
  hash_of files i (some sha) = hash_is (sha256_file c.host (file_of files i)) sha

  -- `_deletion_facts`, which is called on an eligible asset only: its files exist, so `stat` does not raise.
  unfoldable pub asset_facts : Files → ICloudAsset → Bool → DateTime → DeletionFacts
  unfolding sha256_file
  asset_facts files asset gates_ready now =
      let items = asset.components in
      record {
        local_exists = all (λ i. is_some (content (file_of files i))) items;
        local_size_matches = all (λ i. has_size (file_of files i) i.original_size) items;
        local_sha256_exists = all (λ i. is_some (given i.plaintext_sha256)) items;
        local_sha256_matches = all (λ i. hash_of files i i.plaintext_sha256) items;
        kopia_verified = all (λ i. is_some i.kopia_verified_at) items;
        remote_verified = all (λ i. is_some i.remote_verified_at) items;
        quarantine_expires_at =
            some
              (or_default (now + days 3650) (latest items) + days c.icloud_cleanup_quarantine_days);
        source_exists = true;
        source_unchanged = true;
        source_identity_matches = true;
        active_disk_healthy = gates_ready;
        backup_disk_healthy = gates_ready;
        storage_devices_differ = gates_ready;
        sqlite_integrity_healthy = gates_ready;
        remote_available = gates_ready;
        global_deletion_enabled = gates_ready;
        source_deletion_enabled = c.icloud_capacity_relief_enabled;
        safety_lock = not gates_ready;
        manual_approval_required = true;
        manual_approval_granted = true;
      }

abbrev pub key_is : String → RuntimeSetting → Bool
key_is key s = str_eq s.key key

-- `_set_runtime`
unfoldable pub set_runtime : String → String → Rows → Rows
set_runtime key value rows =
    if any (key_is key) rows.settings
    then record rows {
      settings = update_first (key_is key) (λ s. record s { value = value }) rows.settings;
    }
    else record rows { settings = rows.settings ++ record { key = key; value = value } ∷ [] }

-- `_audit`
unfoldable pub audit : String → Option ℕ → Value → Rows → Rows
audit event_type archive_item_id details rows = record rows {
  events =
      rows.events
      ++ record {
        archive_item_id = archive_item_id;
        event_type = event_type;
        from_state = none;
        to_state = none;
        actor = "icloud-cleanup";
        details = details;
      }
        ∷ [];
}
