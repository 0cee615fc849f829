-- ===== src/Worker/Start.antt =====
-- The checks with which the worker starts (src/mnema/worker/main.py: Worker.run, up to its first
-- reconciliation).
pub mod Checked
use mnema.Prelude.{Bool, true, not, Option, List, if◌then◌else◌, DateTime}
use mnema.Runtime.Errors.{runtime_error, Result, ok, err}
use mnema.Runtime.Files.{FilePath}
use mnema.Jobs.Models.Work.{Job}
use mnema.Domain.ICloudCleanup.{Rows}
use mnema.Diagnostics.Health.{StartupHealth, healthy, Disk, startup_checks}
use mnema.Worker.Main.{pause_deletion}

-- Expired jobs are recovered. A start that is not healthy pauses deletion and raises.
unfoldable pub start :
    (FilePath → Disk)
    → FilePath
    → FilePath
    → FilePath
    → Bool
    → List FilePath
    → Option Bool
    → Bool
    → DateTime
    → List Job
    → Rows
    → Result StartupHealth × List Job × Rows
start disks active_root backup_root staging_root sqlite_healthy partials smart require_smart_health
      now jobs rows =
    let (health, jobs') =
      startup_checks disks active_root backup_root staging_root sqlite_healthy partials smart
        require_smart_health true now jobs in
    if not (healthy health)
    then (
      err (runtime_error "startup safety checks failed; deletion remains paused"),
      jobs',
      pause_deletion rows,
    )
    else (ok health, jobs', rows)
