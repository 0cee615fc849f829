-- ===== src/Config/Options.antt =====
-- The fields of `Settings` and their defaults (src/mnema/config/settings.py). A percentage is a
-- number of ten-thousandths of a percent.
use mnema.Prelude.{ℕ, ◌*◌, Bool, true, false, Option, none, List, [], ◌∷◌, ltb, String}
use mnema.Domain.Storage.{PurePath}
use mnema.Config.Settings.{Percent, percent}

pub data ℤ : Type 0 where
  pos : ℕ → ℤ
  negsuc : ℕ → ℤ

abbrev pub is_positive : ℤ → Bool
is_positive (pos n) = ltb 0 n
is_positive (negsuc n) = false

pub data S3Provider : Type 0 where
  generic scaleway : S3Provider

pub data ColdStorageTransport : Type 0 where
  s3 rclone : ColdStorageTransport

abbrev absolute : List String → PurePath
absolute parts = record { is_absolute = true; parts = parts }

-- `Settings`: its fields, and below it their defaults.
pub record Settings : Type 0 where
  pub database_url : String
  pub active_root : PurePath
  pub backup_root : PurePath
  pub staging_root : PurePath
  pub source_root : PurePath
  pub scratch_root : Option PurePath
  pub secret_key_file : PurePath
  pub cold_encryption_key_file : PurePath
  pub kopia_password_file : PurePath
  pub kopia_repository : PurePath
  pub kopia_config_file : PurePath
  pub use_external_test_storage : Bool
  pub s3_endpoint_url : String
  pub s3_provider : S3Provider
  pub s3_region : String
  pub s3_bucket : String
  pub s3_access_key_file : PurePath
  pub s3_secret_key_file : PurePath
  pub cold_storage_transport : ColdStorageTransport
  pub rclone_config_file : PurePath
  pub rclone_remote_root : String
  pub sftpgo_endpoint_url : String
  pub sftpgo_api_key_file : PurePath
  pub smart_health_file : PurePath
  pub require_smart_health : Bool
  pub onboarding_token_file : PurePath
  pub global_deletion_enabled : Bool
  pub safety_lock : Bool
  pub worker_concurrency : ℕ
  pub per_adapter_concurrency : ℕ
  pub pause_when_active_disk_free_percent_below : Percent
  pub pause_when_backup_disk_free_percent_below : Percent
  pub cloudflare_access_required : Bool
  pub cloudflare_team_domain : String
  pub cloudflare_audience : String
  pub cloudflare_admin_hostname : String
  pub file_provider_enabled : Bool
  pub file_provider_public_url : String
  pub file_provider_upload_root : PurePath
  pub file_provider_max_file_size : ℕ
  pub file_provider_minimum_free_percent : Percent
  pub telegram_enabled : Bool
  pub telegram_bot_token_file : PurePath
  pub telegram_allowed_user_ids : List ℤ
  pub icloud_enabled : Bool
  pub icloud_apple_id : String
  pub icloud_library : String
  pub icloud_session_directory : PurePath
  pub icloud_import_root : PurePath
  pub icloud_capacity_relief_enabled : Bool
  pub icloud_deletion_milestone_approved : Bool
  pub icloud_cleanup_trigger_percent : Percent
  pub icloud_cleanup_target_percent : Percent
  pub icloud_cleanup_quarantine_days : ℕ
  pub icloud_cleanup_max_assets : ℕ
  pub icloud_cleanup_max_quota_percent : Percent

abbrev pub default_settings : Settings
default_settings = record {
  database_url = "sqlite:///./mnema.db";
  active_root = absolute ("data" ∷ "active" ∷ []);
  backup_root = absolute ("data" ∷ "backup" ∷ []);
  staging_root = absolute ("data" ∷ "staging" ∷ []);
  source_root = absolute ("data" ∷ "test-source" ∷ []);
  scratch_root = none;
  secret_key_file = absolute ("run" ∷ "secrets" ∷ "mnema_secret_key" ∷ []);
  cold_encryption_key_file = absolute ("run" ∷ "secrets" ∷ "mnema_cold_key" ∷ []);
  kopia_password_file = absolute ("run" ∷ "secrets" ∷ "kopia_password" ∷ []);
  kopia_repository = absolute ("data" ∷ "backup" ∷ "kopia-repository" ∷ []);
  kopia_config_file = absolute ("var" ∷ "lib" ∷ "mnema" ∷ "kopia" ∷ "repository.config" ∷ []);
  use_external_test_storage = false;
  s3_endpoint_url = "http://minio:9000";
  s3_provider = generic;
  s3_region = "us-east-1";
  s3_bucket = "mnema-integration";
  s3_access_key_file = absolute ("run" ∷ "secrets" ∷ "minio_user" ∷ []);
  s3_secret_key_file = absolute ("run" ∷ "secrets" ∷ "minio_password" ∷ []);
  cold_storage_transport = s3;
  rclone_config_file = absolute ("run" ∷ "secrets" ∷ "rclone.conf" ∷ []);
  rclone_remote_root = "minio:mnema-integration";
  sftpgo_endpoint_url = "http://sftpgo:8080";
  sftpgo_api_key_file = absolute ("run" ∷ "secrets" ∷ "sftpgo_api_key" ∷ []);
  smart_health_file = absolute ("var" ∷ "lib" ∷ "mnema" ∷ "smart-health.json" ∷ []);
  require_smart_health = false;
  onboarding_token_file = absolute ("run" ∷ "secrets" ∷ "onboarding_token" ∷ []);
  global_deletion_enabled = false;
  safety_lock = true;
  worker_concurrency = 1;
  per_adapter_concurrency = 1;
  pause_when_active_disk_free_percent_below = 10 * percent;
  pause_when_backup_disk_free_percent_below = 10 * percent;
  cloudflare_access_required = false;
  cloudflare_team_domain = "";
  cloudflare_audience = "";
  cloudflare_admin_hostname = "";
  file_provider_enabled = false;
  file_provider_public_url = "";
  file_provider_upload_root = absolute ("data" ∷ "active" ∷ ".mnema-file-provider" ∷ []);
  file_provider_max_file_size = 53687091200;
  file_provider_minimum_free_percent = 10 * percent;
  telegram_enabled = false;
  telegram_bot_token_file = absolute ("run" ∷ "secrets" ∷ "telegram_bot_token" ∷ []);
  telegram_allowed_user_ids = [];
  icloud_enabled = false;
  icloud_apple_id = "";
  icloud_library = "PrimarySync";
  icloud_session_directory = absolute ("var" ∷ "lib" ∷ "mnema" ∷ "icloud-session" ∷ []);
  icloud_import_root = absolute ("data" ∷ "active" ∷ "iCloud Photos" ∷ []);
  icloud_capacity_relief_enabled = false;
  icloud_deletion_milestone_approved = false;
  icloud_cleanup_trigger_percent = 90 * percent;
  icloud_cleanup_target_percent = 80 * percent;
  icloud_cleanup_quarantine_days = 7;
  icloud_cleanup_max_assets = 1000;
  icloud_cleanup_max_quota_percent = 10 * percent;
}
