-- ===== src/Jobs/Models/Cloud.antt =====
-- The iCloud tables of models.py. An asset holds its components' archive items, which the ORM
-- reaches through `ICloudAssetComponent`; a manifest holds its entries in the order of `position`. The
-- asset of an entry is found by its id.
use mnema.Prelude.{ℕ, Bool, Option, List, String, DateTime, ◌==◌}
use mnema.Jobs.Models.Archive.{ArchiveItem}

pub data ICloudCleanupStatus : Type 0 where
  pending_approval executing completed partial manual_review expired : ICloudCleanupStatus

abbrev pub cleanup_status_index : ICloudCleanupStatus → ℕ
cleanup_status_index pending_approval = 0
cleanup_status_index executing = 1
cleanup_status_index completed = 2
cleanup_status_index partial = 3
cleanup_status_index manual_review = 4
cleanup_status_index expired = 5

abbrev pub cleanup_status_eq : ICloudCleanupStatus → ICloudCleanupStatus → Bool
cleanup_status_eq s t = cleanup_status_index s == cleanup_status_index t

pub record ICloudAsset : Type 0 where
  pub id : ℕ
  pub apple_asset_id : String
  pub asset_record_name : String
  pub change_tag : String
  pub created_at_remote : DateTime
  pub original_size : ℕ
  pub favorite : Bool
  pub library : String
  pub expected_components : ℕ
  pub last_seen_at : DateTime
  pub remotely_deleted_at : Option DateTime
  pub components : List ArchiveItem

pub record ICloudCleanupEntry : Type 0 where
  pub icloud_asset_id : ℕ
  pub position : ℕ
  pub apple_asset_id : String
  pub asset_record_name : String
  pub change_tag : String
  pub size_bytes : ℕ
  pub evidence_digest : String
  pub completed_at : Option DateTime

pub record ICloudCleanupManifest : Type 0 where
  pub id : ℕ
  pub status : ICloudCleanupStatus
  pub digest : String
  pub used_bytes : ℕ
  pub quota_bytes : ℕ
  pub target_bytes : ℕ
  pub planned_bytes : ℕ
  pub expires_at : DateTime
  pub approved_at : Option DateTime
  pub completed_at : Option DateTime
  pub failure_reason : Option String
  pub entries : List ICloudCleanupEntry

pub record ICloudQuotaObservation : Type 0 where
  pub used_bytes : ℕ
  pub quota_bytes : ℕ
  pub observed_at : DateTime
