-- ===== src/Examples/Health.antt =====
-- An appliance with two disks that starts in good health.
use mnema.Prelude.{true, [], ◌∷◌, if◌then◌else◌}
use mnema.Runtime.Files.{FilePath, path_eq}
use mnema.Domain.ICloudCleanup.{Rows}
use mnema.Diagnostics.Health.{Disk}

abbrev backup_root : FilePath
backup_root = "backup" ∷ []

abbrev active_root : FilePath
active_root = "active" ∷ []

abbrev disks : FilePath → Disk
disks path = record {
  is_dir = true;
  free = 10;
  total = 100;
  writable = true;
  location = path;
  device_id = if path_eq path backup_root then 2 else 1;
}

abbrev no_rows : Rows
no_rows = record { assets = []; manifests = []; observations = []; settings = []; events = [] }
