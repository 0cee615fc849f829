-- ===== src/Jobs/Models/FileProvider.antt =====
-- The File Provider tables of models.py.
use mnema.Prelude.{ℕ, Bool, Option, String, DateTime, ◌==◌}

pub data FileProviderItemKind : Type 0 where
  file folder : FileProviderItemKind

pub data FileProviderItemStatus : Type 0 where
  ready processing failed : FileProviderItemStatus

abbrev pub item_status_index : FileProviderItemStatus → ℕ
item_status_index ready = 0
item_status_index processing = 1
item_status_index failed = 2

abbrev pub item_status_eq : FileProviderItemStatus → FileProviderItemStatus → Bool
item_status_eq s t = item_status_index s == item_status_index t

pub record FileProviderItem : Type 0 where
  pub id : String
  pub parent_id : Option String
  pub name : String
  pub kind : FileProviderItemKind
  pub status : FileProviderItemStatus
  pub archive_item_id : Option ℕ
  pub size : ℕ
  pub content_type : String
  pub content_version : String
  pub metadata_version : ℕ
  pub error_message : Option String
  pub modified_at : DateTime

pub record FileProviderChange : Type 0 where
  pub sequence : ℕ
  pub item_id : String
  pub operation : String

pub data FileProviderUploadStatus : Type 0 where
  open_ sealing sealed failed : FileProviderUploadStatus

abbrev pub upload_status_index : FileProviderUploadStatus → ℕ
upload_status_index open_ = 0
upload_status_index sealing = 1
upload_status_index sealed = 2
upload_status_index failed = 3

abbrev pub upload_status_eq : FileProviderUploadStatus → FileProviderUploadStatus → Bool
upload_status_eq s t = upload_status_index s == upload_status_index t

pub record FileProviderUpload : Type 0 where
  pub id : String
  pub item_id : String
  pub archive_item_id : ℕ
  pub expected_size : ℕ
  pub received_size : ℕ
  pub expected_sha256 : Option String
  pub status : FileProviderUploadStatus
  pub expires_at : DateTime

pub record FileProviderPairingCode : Type 0 where
  pub id : String
  pub code_hash : String
  pub expires_at : DateTime
  pub consumed_at : Option DateTime

pub record FileProviderDevice : Type 0 where
  pub id : String
  pub name : String
  pub refresh_token_hash : String
  pub refresh_expires_at : DateTime
  pub last_used_at : Option DateTime
  pub revoked_at : Option DateTime
