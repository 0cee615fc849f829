-- ===== src/Domain/ICloudCleanup/Planning.antt =====
-- `observe_quota` and `create_manifest` of `ICloudCleanupService` (src/mnema/domain/icloud_cleanup.py).
use mnema.Prelude.{ℕ, ◌==◌, DateTime, ◌-◌, not, Option, none, some, List, [], ◌∷◌, if◌then◌else◌}
use mnema.Runtime.Errors.{runtime_error, other, Result, ok, err}
use mnema.Jobs.Models.Archive.{ArchiveItem}
use mnema.Jobs.Models.Cloud.{ICloudAsset, ICloudCleanupManifest}
use mnema.Domain.ICloudCleanup.{ICloudQuota, Cleaner, CleanupSession, is_below, part_of}
use mnema.Domain.ICloudCleanup.Selection.{
  expire_manifests, observed, choose, latest_pending, refresh_inventory, candidates_of,
  add_manifest,
}

-- The keys that the database gives new rows.
pub record Keys : Type 0 where
  pub asset_id : List ICloudAsset → ℕ
  pub manifest_id : List ICloudCleanupManifest → ℕ

module _ {Ext : Type 0} (c : Cleaner Ext) where
  -- `observe_quota`
  unfoldable pub observe_quota : CleanupSession Ext → Result ICloudQuota × CleanupSession Ext
  observe_quota s =
      let (answer, w) = c.client.quota s.world in
      elim answer [
        | err e ↦ (err e, record s { world = w })
        | ok q ↦ (ok q, record s { world = w; rows = observed w.clock q s.rows })
      ]

  -- The bytes to free, and the most that one manifest may plan.
  unfoldable pub needed_of : ICloudQuota → ℕ
  needed_of q = q.used_bytes - part_of q.quota_bytes c.icloud_cleanup_target_percent

  unfoldable pub cap_of : ℕ → ℕ
  cap_of quota_bytes = part_of quota_bytes c.icloud_cleanup_max_quota_percent

  -- The selection from the candidates.
  unfoldable pub plan : ICloudQuota → List ICloudAsset → List ICloudAsset × ℕ
  unfolding needed_of cap_of
  plan q candidates =
      choose c.icloud_cleanup_max_assets (cap_of q.quota_bytes) (needed_of q) 0 0 candidates

  -- From the query for candidates on.
  unfoldable pub plan_manifest :
      Keys
      → DateTime
      → ICloudQuota
      → CleanupSession Ext
      → Option ICloudCleanupManifest × CleanupSession Ext
  unfolding plan
  plan_manifest keys now q s =
      let (selected, planned) = plan q (candidates_of c s.world.files now s.rows.assets) in
      elim selected [
        | [] ↦ (none, s)
        | a ∷ assets ↦
            let (m, rows) =
              add_manifest c (keys.manifest_id s.rows.manifests) now q
                (part_of q.quota_bytes c.icloud_cleanup_target_percent) (a ∷ assets) planned
                s.rows in
            (some m, record s { rows = rows })
      ]

  -- What follows the quota in `create_manifest`.
  unfoldable pub manifest_for :
      Keys
      → DateTime
      → List ArchiveItem
      → ICloudQuota
      → CleanupSession Ext
      → Result (Option ICloudCleanupManifest) × CleanupSession Ext
  unfolding plan_manifest
  manifest_for keys now items q s =
      if q.quota_bytes == 0
      then (err (other "ZeroDivisionError"), s)
      else if is_below q c.icloud_cleanup_trigger_percent
      then (ok none, s)
      else elim (latest_pending s.rows.manifests) [
        | some m ↦ (ok (some m), s)
        | none ↦
            let (mapped, s') = refresh_inventory c keys.asset_id items s in
            elim mapped [
              | err e ↦ (err e, s')
              | ok n ↦ let (m, s'') = plan_manifest keys now q s' in (ok m, s'')
            ]
      ]

  -- `create_manifest`. `items` are the rows of archive items.
  unfoldable pub create_manifest :
      Keys
      → List ArchiveItem
      → CleanupSession Ext
      → Result (Option ICloudCleanupManifest) × CleanupSession Ext
  unfolding manifest_for
  create_manifest keys items s =
      if not c.icloud_capacity_relief_enabled
      then (err (runtime_error "iCloud capacity relief is disabled"), s)
      else let now = s.world.clock in
        let rows = record (s.rows) { manifests = expire_manifests now s.rows.manifests } in
        let (answer, w) = c.client.quota s.world in
        elim answer [
          | err e ↦ (err e, record s { world = w; rows = rows })
          | ok q ↦
              manifest_for keys now items q (record s { world = w; rows = observed now q rows })
        ]
