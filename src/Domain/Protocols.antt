-- ===== src/Domain/Protocols.antt =====
-- The adapters that `ArchiveWorkflow` calls, by the protocols of src/mnema/domain/source.py,
-- src/mnema/adapters/backup/base.py and src/mnema/adapters/cold_storage/base.py, and the fields of
-- the workflow itself (src/mnema/domain/workflow.py).
use mnema.Prelude.{ℕ, Bool, Option, String}
use mnema.Security.Redaction.{Patterns}
use mnema.Runtime.Errors.{Error, Result}
use mnema.Runtime.Files.{FilePath}
use mnema.Runtime.Session.{World}
use mnema.Config.Settings.{SourcePolicy}
use mnema.Domain.Source.{SourceCapabilities, SourceObject, DownloadReceipt, DeleteReceipt}
use mnema.Adapters.FileOps.{Host}

pub record BackupReceipt : Type 0 where
  pub snapshot_id : String

pub record ColdReceipt : Type 0 where
  pub provider : String
  pub bucket : String
  pub object_identifier : String
  pub encryption_mode : String
  pub remote_size : ℕ
  pub remote_checksum : Option String

abbrev pub Call : Type 0 → Type 0 → Type 0
Call Ext A = World Ext → Result A × World Ext

-- The protocols `SourceAdapter`, `VersionedBackup` and `ColdStorage`, as `archive` and the deletion
-- use them. A call may change the world also where it raises.
pub record Adapters (Ext : Type 0) : Type 0 where
  pub capabilities : Call Ext SourceCapabilities
  pub stat : String → Call Ext SourceObject
  pub download : String → FilePath → Call Ext DownloadReceipt
  pub delete : String → String → Call Ext DeleteReceipt
  pub snapshot : FilePath → String → Call Ext BackupReceipt
  pub verify_backup : BackupReceipt → String → Call Ext Bool
  pub upload : FilePath → String → String → Call Ext ColdReceipt
  pub verify_cold : ColdReceipt → String → Call Ext Bool
  pub archive_verified : ColdReceipt → Call Ext (Unit {0})

-- The fields that `ArchiveWorkflow.__init__` sets, with Python's own functions: `str` of a number,
-- a path as a text, a text as a path and the name of an exception's type.
pub record Workflow (Ext : Type 0) : Type 0 where
  pub re : Patterns
  pub host : Host
  pub str_of : ℕ → String
  pub text_of : FilePath → String
  pub path_of : String → FilePath
  pub error_name : Error → String
  pub adapters : Adapters Ext
  pub active_root : FilePath
  pub staging_root : FilePath
  pub policy : SourcePolicy
  pub source_provider : String
  pub source_is_active : Bool
