-- ===== src/Worker/Start/Checked.antt =====
-- What a start of the worker (src/mnema/worker/main.py) guarantees, whether it goes on or not.
use mnema.Prelude.{◌≡◌, ◌<◌, ◌⊎◌, Bool, true, false, Option, some, List, DateTime}
use mnema.Runtime.Files.{FilePath}
use mnema.Jobs.Models.Work.{Job}
use mnema.Domain.ICloudCleanup.{Rows}
use mnema.Diagnostics.Health.{StartupHealth, Disk, startup_checks}

-- A directory that can be written to, on a disk with room.
pub record IsUsable (disk : Disk) : Type 0 where
  pub is_dir : disk.is_dir ≡ true
  pub writable : disk.writable ≡ true
  pub room : 0 < disk.free
  pub size : 0 < disk.total

pub record IsFit (disks : FilePath → Disk) (active_root backup_root staging_root : FilePath)
    (sqlite_healthy : Bool) (smart : Option Bool) (require_smart_health : Bool) : Type 0 where
  pub active : IsUsable (disks active_root)
  pub backup : IsUsable (disks backup_root)
  pub staging_is_dir : (disks staging_root).is_dir ≡ true
  pub apart : ¬ ((disks active_root).device_id ≡ (disks backup_root).device_id)
  pub shared : (disks active_root).device_id ≡ (disks staging_root).device_id
  pub database : sqlite_healthy ≡ true
  pub disk_report : (require_smart_health ≡ false) ⊎ (smart ≡ some true)

module _ (disks : FilePath → Disk) (active_root backup_root staging_root : FilePath)
    (sqlite_healthy : Bool) (partials : List FilePath) (smart : Option Bool)
    (require_smart_health : Bool) (now : DateTime) (jobs : List Job) (rows : Rows) where
  abbrev checks_done : StartupHealth × List Job
  checks_done =
      startup_checks disks active_root backup_root staging_root sqlite_healthy partials smart
        require_smart_health true now jobs
