-- ===== src/Jobs/Models/Archive.antt =====
-- `ArchiveItem` and `AuditEvent` of models.py. The enumerations are `StrEnum`s, so the columns
-- that hold a state's value hold the state here.
use mnema.Prelude.{ℕ, Option, String, DateTime}
use mnema.Security.Redaction.{Value}
use mnema.Domain.States.{ArchiveState}

pub record ArchiveItem : Type 0 where
  pub id : ℕ
  pub source_provider : String
  pub source_identifier : String
  pub original_path : String
  pub original_size : ℕ
  pub original_modified_at : DateTime
  pub source_version : String
  pub state : ArchiveState
  pub plaintext_sha256 : Option String
  pub nas_path : Option String
  pub nas_verified_at : Option DateTime
  pub kopia_snapshot_id : Option String
  pub kopia_verified_at : Option DateTime
  pub remote_provider : Option String
  pub remote_bucket : Option String
  pub remote_object_identifier : Option String
  pub encryption_mode : Option String
  pub remote_size : Option ℕ
  pub remote_checksum : Option String
  pub uploaded_at : Option DateTime
  pub remote_verified_at : Option DateTime
  pub remote_verification_method : Option String
  pub cold_archived_at : Option DateTime
  pub quarantine_expires_at : Option DateTime
  pub deletion_timestamp : Option DateTime
  pub restore_test_status : Option String

pub record AuditEvent : Type 0 where
  pub archive_item_id : Option ℕ
  pub event_type : String
  pub from_state : Option ArchiveState
  pub to_state : Option ArchiveState
  pub actor : String
  pub details : Value
