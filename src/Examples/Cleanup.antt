-- ===== src/Examples/Cleanup.antt =====
-- A cleanup of iCloud: what is planned, what is vetted, and how it ends.
use mnema.Prelude.{
  ◌*◌, ◌≡◌, refl, ◌≤◌, ◌<◌, true, false, none, some, List, [], ◌∷◌, length, take, all, str_eq, days,
  ◌⊎◌,
}
use mnema.Runtime.Errors.{ok, is_ok}
use mnema.Config.Settings.{percent}
use mnema.Domain.States.{archived}
use mnema.Jobs.Models.Archive.{ArchiveItem}
use mnema.Jobs.Models.Cloud.{
  ICloudAsset, ICloudCleanupEntry, ICloudCleanupManifest, pending_approval,
}
use mnema.Domain.ICloudCleanup.{
  ICloudQuota, ICloudRemoteAsset, ICloudControlClient, Cleaner, Rows, CleanupSession,
}
use mnema.Domain.ICloudCleanup.Planning.{needed_of, cap_of, plan}
use mnema.Domain.ICloudCleanup.Selection.{candidates_of}
use mnema.Domain.ICloudCleanup.Candidates.{AllCandidates, is_ordered}
use mnema.Domain.ICloudCleanup.Bounds.{total, but_last, plan_bounds}
use mnema.Domain.ICloudCleanup.Execution.{execute, carry_out}
use mnema.Domain.ICloudCleanup.Approval.{IsApproved, OnlyAsked, listed, execute_guarded}
use mnema.Domain.ICloudCleanup.Marks.{is_gone, is_locked}
use mnema.Domain.ICloudCleanup.Outcomes.{confirmed, carry_out_lem}
use mnema.Examples.Data.{host, photo, item_in, archived_files}

abbrev quota : ICloudQuota
quota = record { used_bytes = 95; quota_bytes = 100 }

abbrev remote : ICloudRemoteAsset
remote = record {
  apple_asset_id = "a1";
  asset_record_name = "r1";
  change_tag = "t1";
  created_at = 0;
  size_bytes = 2;
  favorite = false;
  expected_components = 1;
}

-- iCloud confirms the deletion of the first asset and of no other.
abbrev client : ICloudControlClient (Unit {0})
client = record {
  quota = λ w. (ok quota, w);
  assets = λ w. (ok (remote ∷ []), w);
  delete_to_recently_deleted = λ id name tag w. (ok (str_eq id "a1"), w);
}

abbrev cleaner : Cleaner (Unit {0})
cleaner = record {
  client = client;
  host = host;
  path_of = λ text. photo;
  error_name = λ e. "OSError";
  evidence_hash = λ evidence. "digest";
  manifest_hash = λ canonical. "manifest";
  asset_token = λ id. "a1";
  tokens = λ id. [];
  text_leb = λ a b. true;
  icloud_capacity_relief_enabled = true;
  icloud_deletion_milestone_approved = true;
  icloud_cleanup_trigger_percent = 90 * percent;
  icloud_cleanup_target_percent = 80 * percent;
  icloud_cleanup_quarantine_days = 7;
  icloud_cleanup_max_assets = 10;
  icloud_cleanup_max_quota_percent = 10 * percent;
}

abbrev component : ArchiveItem
component = record (item_in archived) {
  plaintext_sha256 = some "hash";
  nas_path = some "photo";
  kopia_snapshot_id = some "k1";
  kopia_verified_at = some 1;
  remote_provider = some "scaleway-glacier";
  remote_bucket = some "b";
  remote_object_identifier = some "o";
  encryption_mode = some "age";
  remote_size = some 3;
  remote_verified_at = some 1;
  cold_archived_at = some 1;
  quarantine_expires_at = some 1;
}

abbrev asset : ICloudAsset
asset = record {
  id = 1;
  apple_asset_id = "a1";
  asset_record_name = "r1";
  change_tag = "t1";
  created_at_remote = 0;
  original_size = 2;
  favorite = false;
  library = "PrimarySync";
  expected_components = 1;
  last_seen_at = 0;
  remotely_deleted_at = none;
  components = component ∷ [];
}

abbrev other_asset : ICloudAsset
other_asset = record asset { id = 2; apple_asset_id = "a2"; original_size = 20 }

abbrev entry : ICloudCleanupEntry
entry = record {
  icloud_asset_id = 1;
  position = 0;
  apple_asset_id = "a1";
  asset_record_name = "r1";
  change_tag = "t1";
  size_bytes = 2;
  evidence_digest = "digest";
  completed_at = none;
}

abbrev other_entry : ICloudCleanupEntry
other_entry = record entry { icloud_asset_id = 2; position = 1; apple_asset_id = "a2" }

abbrev manifest : ICloudCleanupManifest
manifest = record {
  id = 1;
  status = pending_approval;
  digest = "manifest";
  used_bytes = 95;
  quota_bytes = 100;
  target_bytes = 80;
  planned_bytes = 2;
  expires_at = days 40;
  approved_at = none;
  completed_at = none;
  failure_reason = none;
  entries = entry ∷ [];
}

abbrev rows : Rows
rows = record {
  assets = asset ∷ other_asset ∷ [];
  manifests = manifest ∷ [];
  observations = [];
  settings = [];
  events = [];
}

abbrev session : CleanupSession (Unit {0})
session = record {
  world = record { files = archived_files; clock = days 30; ext = tt };
  rows = rows;
  saved = rows;
}

plan_bounds_example :
    let candidates = candidates_of cleaner archived_files (days 30) (asset ∷ other_asset ∷ []) in
    let (selected, planned) = plan cleaner quota candidates in
    AllCandidates cleaner archived_files (days 30) selected
    × (is_ordered candidates ≡ true)
    × (take (length selected) candidates ≡ selected)
    × (length selected ≤ 10)
    × (planned ≡ total selected)
    × ((length selected ≤ 1) ⊎ (planned ≤ cap_of cleaner 100))
    × ((length selected ≤ 1) ⊎ (total (but_last selected) < needed_of cleaner quota))
plan_bounds_example = plan_bounds cleaner quota archived_files (days 30) (asset ∷ other_asset ∷ [])

execute_guarded_example :
    let (answer, t) = execute cleaner 1 "manifest" true session in
    ((is_ok answer ≡ false)
      × (t.saved ≡ session.saved)
      × OnlyAsked cleaner 1 "manifest" true session t.world)
    ⊎ ((m : ICloudCleanupManifest) × (q : ICloudQuota) × (remotes : List ICloudRemoteAsset)
        × IsApproved cleaner 1 "manifest" true session m q remotes
        × (execute cleaner 1 "manifest" true session
            ≡ carry_out cleaner session.world.clock m
                (record session { world = listed cleaner 1 "manifest" true session })))
execute_guarded_example = execute_guarded cleaner 1 "manifest" true session

carry_out_lem_example :
    let m = record manifest { entries = entry ∷ other_entry ∷ [] } in
    let (answer, t) = carry_out cleaner 0 m session in
    let n = confirmed cleaner m.entries session.world in
    (all (is_gone t.saved.assets) (take n m.entries) ≡ true)
    × (((is_ok answer ≡ true) × (n ≡ length m.entries))
        ⊎ ((is_ok answer ≡ false) × (n < length m.entries) × (is_locked t.saved.settings ≡ true)))
carry_out_lem_example =
    carry_out_lem cleaner 0 (record manifest { entries = entry ∷ other_entry ∷ [] }) session refl
