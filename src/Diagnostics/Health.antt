-- ===== src/Diagnostics/Health.antt =====
-- The checks before the worker starts (src/mnema/diagnostics/health.py). What the operating system
-- says of a directory, SQLite's integrity check and the SMART report are given.
use mnema.Prelude.{
  ℕ, ◌*◌, Bool, true, false, ◌&&◌, Option, none, some, List, [], ltb, ◌==◌, if◌then◌else◌, DateTime,
}
use mnema.Runtime.Files.{FilePath}
use mnema.Domain.Storage.{StorageIdentity, storage_is_separate}
use mnema.Jobs.Models.Work.{Job}
use mnema.Jobs.Queue.{recover_expired}

pub record StorageHealth : Type 0 where
  pub path : FilePath
  pub exists : Bool
  pub writable : Bool
  pub free_percent : ℕ × ℕ  -- a fraction

abbrev pub storage_healthy : StorageHealth → Bool
storage_healthy h = h.exists && h.writable && ltb 0 h.free_percent.0

pub record StartupHealth : Type 0 where
  pub active : StorageHealth
  pub backup : StorageHealth
  pub devices_differ : Bool
  pub staging_shares_active_device : Bool
  pub sqlite_healthy : Bool
  pub expired_jobs_recovered : ℕ
  pub partial_files : List FilePath
  pub smart_healthy : Option Bool
  pub smart_required : Bool

-- `self.smart_healthy is True`
abbrev pub is_true : Option Bool → Bool
is_true none = false
is_true (some b) = b

-- `StartupHealth.healthy`
unfoldable pub healthy : StartupHealth → Bool
healthy h =
    storage_healthy h.active
    && storage_healthy h.backup
    && h.devices_differ
    && h.staging_shares_active_device
    && h.sqlite_healthy
    && (if h.smart_required then is_true h.smart_healthy else true)

-- `path.is_dir()`, the numbers of `shutil.disk_usage`, `os.access(path, os.W_OK)`, and the resolved
-- path and the `st_dev` of a directory.
pub record Disk : Type 0 where
  pub is_dir : Bool
  pub free : ℕ
  pub total : ℕ
  pub writable : Bool
  pub location : FilePath
  pub device_id : ℕ

-- `storage_identity(path)`, without a UUID
abbrev pub storage_identity : Disk → StorageIdentity
storage_identity disk = record {
  path = disk.location;
  device_id = disk.device_id;
  filesystem_uuid = none;
}

-- `(usage.free / usage.total * 100) if usage.total else 0`
abbrev pub free_share : ℕ → ℕ → ℕ × ℕ
free_share free total = if total == 0 then (0, 1) else (free * 100, total)

-- `storage_health`
unfoldable pub storage_health : (FilePath → Disk) → FilePath → StorageHealth
storage_health disks path =
    let disk = disks path in
    if disk.is_dir
    then record {
      path = path;
      exists = true;
      writable = disk.writable;
      free_percent = free_share disk.free disk.total;
    }
    else record { path = path; exists = false; writable = false; free_percent = (0, 1) }

abbrev pub recovered : Bool → DateTime → List Job → ℕ × List Job
recovered true now jobs = recover_expired now jobs
recovered false now jobs = (0, jobs)

-- `startup_checks`. `partials` are the regular files `*.partial` of the staging directory, and
-- `smart` is the answer of `smart_report_healthy` where a report is configured.
unfoldable pub startup_checks :
    (FilePath → Disk)
    → FilePath
    → FilePath
    → FilePath
    → Bool
    → List FilePath
    → Option Bool
    → Bool
    → Bool
    → DateTime
    → List Job
    → StartupHealth × List Job
unfolding storage_health
startup_checks disks active_root backup_root staging_root sqlite_healthy partials smart
      require_smart_health recover_expired_jobs now jobs =
    let active = storage_health disks active_root in
    let backup = storage_health disks backup_root in
    let jobs_after = recovered recover_expired_jobs now jobs in
    (
      record {
        active = active;
        backup = backup;
        devices_differ =
            active.exists
            && backup.exists
            && storage_is_separate (storage_identity (disks active_root))
                (storage_identity (disks backup_root));
        staging_shares_active_device =
            active.exists
            && (disks staging_root).is_dir
            && ((disks active_root).device_id == (disks staging_root).device_id);
        sqlite_healthy = sqlite_healthy;
        expired_jobs_recovered = jobs_after.0;
        partial_files = if (disks staging_root).is_dir then partials else [];
        smart_healthy = smart;
        smart_required = require_smart_health;
      },
      jobs_after.1,
    )
