-- ===== src/Domain/ICloudCleanup/Execution.antt =====
-- `execute` of `ICloudCleanupService` (src/mnema/domain/icloud_cleanup.py), with `_manual_review`.
use Prim.Native.String.{◌++◌ as str_append}
use mnema.Prelude.{
  ◌==◌, ℕ, ◌+◌, ◌*◌, Bool, not, ◌||◌, Option, none, some, List, [], ◌∷◌, map, length, any, find,
  leb, ◌==◌, if◌then◌else◌, is_some, String, str_eq, DateTime,
}
use mnema.Security.Redaction.{Value, mapping, field, num, str, end}
use mnema.Runtime.Errors.{runtime_error, other, Result, ok, err}
use mnema.Runtime.Files.{Files}
use mnema.Config.Settings.{percent, DeletionLimits}
use mnema.Jobs.Models.Archive.{ArchiveItem}
use mnema.Jobs.Models.Cloud.{
  ICloudAsset, ICloudCleanupEntry, ICloudCleanupManifest, executing, completed, partial,
  manual_review, expired,
}
use mnema.FileProvider.Auth.{update_first}
use mnema.Policies.Deletion.{DeletionRunUsage, evaluate_deletion_gate}
use mnema.Domain.ICloudCleanup.{
  ICloudRemoteAsset, Cleaner, Rows, CleanupSession, is_below, evidence_digest, asset_eligible,
  asset_facts, set_runtime, audit,
}
use mnema.Domain.ICloudCleanup.Selection.{is_pending}
use mnema.Domain.ICloudCleanup.Planning.{cap_of}

abbrev pub blocked {ℓ} : {A : Type ℓ} → String → Result A
blocked message = err (runtime_error message)

-- `current.get(id)`: of two assets with one id the later one is in the dictionary.
abbrev pub current : String → List ICloudRemoteAsset → Option ICloudRemoteAsset
current id [] = none
current id (r ∷ remotes) = elim (current id remotes) [
  | some later ↦ some later
  | none ↦ if str_eq r.apple_asset_id id then some r else none
]

-- `entry.asset`
abbrev pub asset_in : Rows → ICloudCleanupEntry → Option ICloudAsset
asset_in rows e = find (λ a. a.id == e.icloud_asset_id) rows.assets

-- `"; ".join(texts)`
abbrev pub joined : List String → String
joined [] = ""
joined (t ∷ []) = t
joined (t ∷ u ∷ texts) = str_append t (str_append "; " (joined (u ∷ texts)))

abbrev pub is_manifest : ℕ → ICloudCleanupManifest → Bool
is_manifest id m = m.id == id

abbrev pub update_manifest : ℕ → (ICloudCleanupManifest → ICloudCleanupManifest) → Rows → Rows
update_manifest id f rows = record rows {
  manifests = update_first (is_manifest id) f rows.manifests;
}

abbrev pub about : ℕ → Value
about id = mapping (field "manifest_id" (num id) end)

module _ {Ext : Type 0} (c : Cleaner Ext) where
  -- The run's limits.
  abbrev pub limits_of : ICloudCleanupManifest → DeletionLimits
  limits_of m = record {
    max_files_deleted_per_run = c.icloud_cleanup_max_assets;
    max_bytes_deleted_per_run = cap_of c m.quota_bytes;
    max_percentage_deleted_per_run = 100 * percent;
  }

  -- The tests on the asset of one entry.
  unfoldable pub vet_asset :
      Files
      → DateTime
      → Bool
      → ICloudCleanupManifest
      → DeletionRunUsage
      → ICloudCleanupEntry
      → ICloudAsset
      → Result (Unit {0})
  vet_asset files now gates_ready m usage e asset =
      if not (asset_eligible c files now asset)
      then blocked "archival evidence changed after approval"
      else if not (str_eq (evidence_digest c asset) e.evidence_digest)
      then blocked "archival receipts changed after approval"
      else let decision =
          evaluate_deletion_gate (asset_facts c files asset gates_ready now) usage (limits_of m)
            e.size_bytes now in
        if not decision.allowed then blocked (joined decision.blockers) else ok tt

  -- The tests of one turn of the first loop.
  unfoldable pub vet_entry :
      Files
      → DateTime
      → Bool
      → Rows
      → List ICloudRemoteAsset
      → ICloudCleanupManifest
      → DeletionRunUsage
      → ICloudCleanupEntry
      → Result (Unit {0})
  unfolding vet_asset
  vet_entry files now gates_ready rows remotes m usage e = elim (current e.apple_asset_id remotes) [
    | none ↦ blocked "approved iCloud asset is missing or protected"
    | some r ↦
        if r.favorite
        then blocked "approved iCloud asset is missing or protected"
        else if not (str_eq r.asset_record_name e.asset_record_name)
            || not (str_eq r.change_tag e.change_tag)
        then blocked "approved iCloud asset changed"
        else elim (asset_in rows e) [
          | none ↦ err (other "AttributeError")
          | some asset ↦ vet_asset files now gates_ready m usage e asset
        ]
  ]

  abbrev pub used_more : DeletionRunUsage → ICloudCleanupEntry → DeletionRunUsage
  used_more usage e = record usage {
    files_deleted = usage.files_deleted + 1;
    bytes_deleted = usage.bytes_deleted + e.size_bytes;
  }

  -- The first loop.
  unfoldable pub vet_all :
      Files
      → DateTime
      → Bool
      → Rows
      → List ICloudRemoteAsset
      → ICloudCleanupManifest
      → DeletionRunUsage
      → List ICloudCleanupEntry
      → Result (Unit {0})
  unfolding vet_entry
  vet_all files now gates_ready rows remotes m usage [] = ok tt
  vet_all files now gates_ready rows remotes m usage (e ∷ entries) =
      let rest = vet_all files now gates_ready rows remotes m (used_more usage e) entries in
      elim (vet_entry files now gates_ready rows remotes m usage e) [
        | err x ↦ err x
        | ok done ↦ rest
      ]

  abbrev pub reviewed : String → ICloudCleanupManifest → ICloudCleanupManifest
  reviewed reason m = record m {
    status = if any (λ e. is_some e.completed_at) m.entries then partial else manual_review;
    failure_reason = some reason;
  }

  -- `_manual_review`, on the manifest as the rows have it. It commits.
  unfoldable pub manual_review_of : ℕ → String → CleanupSession Ext → CleanupSession Ext
  unfolding set_runtime audit
  manual_review_of id reason s =
      let rows =
        audit "icloud_cleanup_manual_review" none
          (mapping (field "manifest_id" (num id) (field "reason" (str reason) end)))
          (set_runtime "safety_lock" "true" (
            set_runtime "global_deletion_enabled" "false"
              (update_manifest id (reviewed reason) s.rows))) in
      record s { rows = rows; saved = rows }

  abbrev pub complete_entry : DateTime → ℕ → ICloudCleanupEntry → ICloudCleanupEntry
  complete_entry now position e =
      if e.position == position then record e { completed_at = some now } else e

  -- The audit events of the components of an asset.
  unfoldable pub audit_components : ℕ → String → List ArchiveItem → Rows → Rows
  unfolding audit
  audit_components id apple_asset_id [] rows = rows
  audit_components id apple_asset_id (i ∷ items) rows = audit_components id apple_asset_id items (
      audit "icloud_asset_moved_to_recently_deleted" (some i.id)
        (mapping (field "manifest_id" (num id) (field "apple_asset_id" (str apple_asset_id) end)))
        rows)

  abbrev pub components_in : Rows → ICloudCleanupEntry → List ArchiveItem
  components_in rows e = elim (asset_in rows e) [ none ↦ [] | some a ↦ a.components ]

  abbrev pub completing : DateTime → ℕ → ICloudCleanupEntry → Rows → Rows
  completing now id e rows =
      update_manifest id (λ m. record m { entries = map (complete_entry now e.position) m.entries })
        (record rows {
          assets =
              update_first (λ a. a.id == e.icloud_asset_id)
                (λ a. record a { remotely_deleted_at = some now }) rows.assets;
        })

  -- The rows after a confirmed deletion, which are committed.
  unfoldable pub record_deleted : ℕ → ICloudCleanupEntry → CleanupSession Ext → CleanupSession Ext
  unfolding audit_components
  record_deleted id e s =
      let now = s.world.clock in
      let rows =
        audit_components id e.apple_asset_id (components_in s.rows e)
          (completing now id e s.rows) in
      record s { rows = rows; saved = rows }

  -- The second loop.
  unfoldable pub delete_all :
      ℕ → List ICloudCleanupEntry → CleanupSession Ext → Result (Unit {0}) × CleanupSession Ext
  unfolding manual_review_of record_deleted
  delete_all id [] s = (ok tt, s)
  delete_all id (e ∷ entries) s =
      let (answer, w) =
        c.client.delete_to_recently_deleted e.apple_asset_id e.asset_record_name e.change_tag
          s.world in
      let t = record s { world = w } in
      let rest = delete_all id entries (record_deleted id e t) in
      elim answer [
        | err x ↦ (
          blocked "iCloud deletion result requires manual review",
          manual_review_of id (c.error_name x) t,
        )
        | ok confirmed ↦
            if not confirmed
            then (
              blocked "iCloud deletion result requires manual review",
              manual_review_of id "absence_not_confirmed" t,
            )
            else rest
      ]

  unfoldable pub approved_rows : DateTime → ICloudCleanupManifest → Rows → Rows
  unfolding audit
  approved_rows now m rows =
      audit "icloud_cleanup_approved" none (about m.id)
        (update_manifest m.id (λ k. record k { status = executing; approved_at = some now }) rows)

  -- From the approval on.
  unfoldable pub carry_out :
      DateTime → ICloudCleanupManifest → CleanupSession Ext → Result (Unit {0}) × CleanupSession Ext
  unfolding delete_all approved_rows audit
  carry_out now m s =
      let rows = approved_rows now m s.rows in
      let (answer, t) = delete_all m.id m.entries (record s { rows = rows; saved = rows }) in
      elim answer [
        | err e ↦ (err e, t)
        | ok done ↦ (
          ok tt,
          record t {
            rows = audit "icloud_cleanup_completed" none (about m.id) (
                update_manifest m.id
                  (λ k. record k { status = completed; completed_at = some t.world.clock }) t.rows);
          },
        )
      ]

  -- The tests between the quota and the approval.
  unfoldable pub vet_manifest :
      DateTime
      → Bool
      → ICloudCleanupManifest
      → CleanupSession Ext
      → Result (Unit {0}) × CleanupSession Ext
  unfolding vet_all
  vet_manifest now gates_ready m s =
      let (quota, w) = c.client.quota s.world in
      elim quota [
        | err e ↦ (err e, record s { world = w })
        | ok q ↦
            if q.quota_bytes == 0
            then (err (other "ZeroDivisionError"), record s { world = w })
            else if is_below q c.icloud_cleanup_trigger_percent
            then (blocked "iCloud usage is below cleanup trigger", record s { world = w })
            else let (assets, w') = c.client.assets w in
              elim assets [
                | err e ↦ (err e, record s { world = w' })
                | ok remotes ↦ (
                  vet_all w'.files now gates_ready s.rows remotes m
                      (record {
                        files_deleted = 0;
                        bytes_deleted = 0;
                        eligible_files = length m.entries;
                      })
                      m.entries,
                  record s { world = w' },
                )
              ]
      ]

  -- `execute`
  unfoldable pub execute :
      ℕ → String → Bool → CleanupSession Ext → Result (Unit {0}) × CleanupSession Ext
  unfolding vet_manifest carry_out
  execute manifest_id digest gates_ready s =
      if not c.icloud_deletion_milestone_approved
      then (blocked "iCloud deletion milestone awaits synthetic-account review", s)
      else elim (find (is_manifest manifest_id) s.rows.manifests) [
        | none ↦ (blocked "cleanup manifest or digest is invalid", s)
        | some m ↦
            let now = s.world.clock in
            if not (str_eq m.digest digest)
            then (blocked "cleanup manifest or digest is invalid", s)
            else if not (is_pending m)
            then (blocked "cleanup manifest is not pending approval", s)
            else if leb m.expires_at now
            then (
              blocked "cleanup manifest expired",
              record s {
                rows = update_manifest manifest_id (λ k. record k { status = expired }) s.rows;
              },
            )
            else if not gates_ready
            then (blocked "global deletion safety gate is closed", s)
            else let (vetted, t) = vet_manifest now gates_ready m s in
              elim vetted [ err e ↦ (err e, t) | ok done ↦ carry_out now m t ]
      ]
