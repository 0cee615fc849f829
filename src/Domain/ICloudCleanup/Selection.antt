-- ===== src/Domain/ICloudCleanup/Selection.antt =====
-- What `ICloudCleanupService` plans (src/mnema/domain/icloud_cleanup.py): observe_quota,
-- refresh_inventory, create_manifest. The unique index on the components is not modelled.
use mnema.Prelude.{
  ℕ, ◌+◌, Bool, not, ◌&&◌, ◌||◌, Option, none, some, List, [], ◌∷◌, ◌++◌, map, length, any, count,
  find, keep_if, ltb, leb, ◌==◌, if◌then◌else◌, is_some, is_none, String, str_eq, DateTime, hours,
}
use mnema.Security.Redaction.{mapping, field, num, end}
use mnema.Runtime.Errors.{Result, ok, err}
use mnema.Runtime.Files.{Files}
use mnema.Jobs.Models.Archive.{ArchiveItem}
use mnema.Jobs.Models.Cloud.{
  ICloudAsset, ICloudCleanupEntry, ICloudCleanupManifest, pending_approval, expired,
  cleanup_status_eq,
}
use mnema.FileProvider.Auth.{update_first}
use mnema.Domain.ICloudCleanup.{
  ICloudQuota, ICloudRemoteAsset, Cleaner, Rows, CleanupSession, PlannedAsset, evidence_digest,
  asset_eligible, audit,
}

abbrev pub is_pending : ICloudCleanupManifest → Bool
is_pending m = cleanup_status_eq m.status pending_approval

-- `_expire_manifests`
unfoldable pub expire_manifests : DateTime → List ICloudCleanupManifest → List ICloudCleanupManifest
expire_manifests now [] = []
expire_manifests now (m ∷ manifests) =
    (if is_pending m && leb m.expires_at now then record m { status = expired } else m)
    ∷ expire_manifests now manifests

abbrev pub observed : DateTime → ICloudQuota → Rows → Rows
observed now q rows = record rows {
  observations =
      rows.observations
      ++ record { used_bytes = q.used_bytes; quota_bytes = q.quota_bytes; observed_at = now } ∷ [];
}

abbrev pub has_apple_id : String → ICloudAsset → Bool
has_apple_id id a = str_eq a.apple_asset_id id

-- `_update_asset`
unfoldable pub update_asset : DateTime → ICloudRemoteAsset → ICloudAsset → ICloudAsset
update_asset now r a = record a {
  asset_record_name = r.asset_record_name;
  change_tag = r.change_tag;
  created_at_remote = r.created_at;
  original_size = r.size_bytes;
  favorite = r.favorite;
  library = "PrimarySync";
  expected_components = r.expected_components;
  last_seen_at = now;
}

abbrev pub new_asset : ℕ → DateTime → ICloudRemoteAsset → ICloudAsset
new_asset id now r = record {
  id = id;
  apple_asset_id = r.apple_asset_id;
  asset_record_name = r.asset_record_name;
  change_tag = r.change_tag;
  created_at_remote = r.created_at;
  original_size = r.size_bytes;
  favorite = r.favorite;
  library = "PrimarySync";
  expected_components = r.expected_components;
  last_seen_at = now;
  remotely_deleted_at = none;
  components = [];
}

-- One asset more than there was in the loop that selects: the count and the bytes so far, and whether
-- the loop goes on.
unfoldable pub choose : ℕ → ℕ → ℕ → ℕ → ℕ → List ICloudAsset → List ICloudAsset × ℕ
choose max_assets byte_cap bytes_needed n planned [] = ([], planned)
choose max_assets byte_cap bytes_needed n planned (a ∷ candidates) =
    let more = planned + a.original_size in
    let (rest, total) = choose max_assets byte_cap bytes_needed (n + 1) more candidates in
    if leb max_assets n
    then ([], planned)
    else if ltb 0 n && ltb byte_cap more
    then ([], planned)
    else if leb bytes_needed more
    then (a ∷ [], more)
    else (a ∷ rest, total)

-- `.order_by(ICloudAsset.created_at_remote, ICloudAsset.apple_asset_id)`
abbrev pub older : (String → String → Bool) → ICloudAsset → ICloudAsset → Bool
older text_leb a b =
    ltb a.created_at_remote b.created_at_remote
    || a.created_at_remote == b.created_at_remote && text_leb a.apple_asset_id b.apple_asset_id

abbrev pub insert : (String → String → Bool) → ICloudAsset → List ICloudAsset → List ICloudAsset
insert text_leb a [] = a ∷ []
insert text_leb a (b ∷ assets) =
    if older text_leb a b then a ∷ b ∷ assets else b ∷ insert text_leb a assets

abbrev pub oldest_first : (String → String → Bool) → List ICloudAsset → List ICloudAsset
oldest_first text_leb [] = []
oldest_first text_leb (a ∷ assets) = insert text_leb a (oldest_first text_leb assets)

-- `.order_by(ICloudCleanupManifest.id.desc())`, of which `scalar` takes the first.
abbrev pub latest_pending : List ICloudCleanupManifest → Option ICloudCleanupManifest
latest_pending [] = none
latest_pending (m ∷ manifests) =
    let rest = latest_pending manifests in
    if is_pending m
    then elim rest [ none ↦ some m | some k ↦ if ltb m.id k.id then some k else some m ]
    else rest

module _ {Ext : Type 0} (c : Cleaner Ext) where
  -- `len(remote_by_token[token])` and `by_token.get(token, [])`
  abbrev same_token : String → ICloudRemoteAsset → Bool
  same_token token r = str_eq (c.asset_token r.apple_asset_id) token

  abbrev is_component : String → ArchiveItem → Bool
  is_component token i =
      str_eq i.source_provider "icloud_photos" && any (str_eq token) (c.tokens i.source_identifier)

  -- The components that an asset of the inventory gets, where its token is its own and their number is
  -- the expected one.
  unfoldable pub match_components :
      List ICloudRemoteAsset → List ArchiveItem → ICloudRemoteAsset → Option (List ArchiveItem)
  match_components remotes items r =
      let token = c.asset_token r.apple_asset_id in
      let candidates = keep_if (is_component token) items in
      if count (same_token token) remotes == 1 && length candidates == r.expected_components
      then some candidates
      else none

  abbrev with_components : Option (List ArchiveItem) → ICloudAsset → ICloudAsset
  with_components none a = record a { components = [] }
  with_components (some items) a = record a { components = items }

  -- One turn of the loop over `remote_assets`. `id` is the key of a new row.
  unfoldable pub refresh_one :
      (List ICloudAsset → ℕ)
      → DateTime
      → List ICloudRemoteAsset
      → List ArchiveItem
      → ICloudRemoteAsset
      → List ICloudAsset
      → List ICloudAsset
  unfolding update_asset match_components
  refresh_one next_id now remotes items r assets =
      let found = match_components remotes items r in
      if is_some (find (has_apple_id r.apple_asset_id) assets)
      then update_first (has_apple_id r.apple_asset_id)
          (λ a. with_components found (update_asset now r a)) assets
      else assets ++ with_components found (new_asset (next_id assets) now r) ∷ []

  unfoldable pub refresh_all :
      (List ICloudAsset → ℕ)
      → DateTime
      → List ICloudRemoteAsset
      → List ArchiveItem
      → List ICloudRemoteAsset
      → List ICloudAsset
      → ℕ × List ICloudAsset
  unfolding refresh_one match_components
  refresh_all next_id now remotes items [] assets = (0, assets)
  refresh_all next_id now remotes items (r ∷ rest) assets =
      let (mapped, assets') =
        refresh_all next_id now remotes items rest
          (refresh_one next_id now remotes items r assets) in
      (if is_some (match_components remotes items r) then mapped + 1 else mapped, assets')

  -- `refresh_inventory`. `items` are the rows of archive items.
  unfoldable pub refresh_inventory :
      (List ICloudAsset → ℕ) → List ArchiveItem → CleanupSession Ext → Result ℕ × CleanupSession Ext
  unfolding refresh_all
  refresh_inventory next_id items s =
      let (answer, w) = c.client.assets s.world in
      elim answer [
        | err e ↦ (err e, record s { world = w })
        | ok remotes ↦
            let (mapped, assets) =
              refresh_all next_id w.clock remotes items remotes s.rows.assets in
            (ok mapped, record s { world = w; rows = record (s.rows) { assets = assets } })
      ]

  -- The query for candidates and the filter over it.
  unfoldable pub candidates_of : Files → DateTime → List ICloudAsset → List ICloudAsset
  candidates_of files now assets = keep_if (asset_eligible c files now) (
      oldest_first c.text_leb (
        keep_if
          (λ a. not a.favorite && is_none a.remotely_deleted_at && str_eq a.library "PrimarySync")
          assets))

  abbrev planned_asset : ICloudAsset → PlannedAsset
  planned_asset a = record {
    apple_asset_id = a.apple_asset_id;
    asset_record_name = a.asset_record_name;
    change_tag = a.change_tag;
    size_bytes = a.original_size;
    evidence_digest = evidence_digest c a;
  }

  abbrev entry_of : ℕ → ICloudAsset → ICloudCleanupEntry
  entry_of position a = record {
    icloud_asset_id = a.id;
    position = position;
    apple_asset_id = a.apple_asset_id;
    asset_record_name = a.asset_record_name;
    change_tag = a.change_tag;
    size_bytes = a.original_size;
    evidence_digest = evidence_digest c a;
    completed_at = none;
  }

  -- `enumerate(selected)`
  abbrev entries_from : ℕ → List ICloudAsset → List ICloudCleanupEntry
  entries_from n [] = []
  entries_from n (a ∷ assets) = entry_of n a ∷ entries_from (n + 1) assets

  -- From `canonical` on. `id` is the key of the new row.
  unfoldable pub add_manifest :
      ℕ → DateTime → ICloudQuota → ℕ → List ICloudAsset → ℕ → Rows → ICloudCleanupManifest × Rows
  unfolding audit
  add_manifest id now q target_bytes selected planned rows =
      let digest = c.manifest_hash (record {
        created_at = now;
        used_bytes = q.used_bytes;
        quota_bytes = q.quota_bytes;
        assets = map planned_asset selected;
      }) in
      let m : ICloudCleanupManifest = record {
        id = id;
        status = pending_approval;
        digest = digest;
        used_bytes = q.used_bytes;
        quota_bytes = q.quota_bytes;
        target_bytes = target_bytes;
        planned_bytes = planned;
        expires_at = now + hours 24;
        approved_at = none;
        completed_at = none;
        failure_reason = none;
        entries = entries_from 0 selected;
      } in
      elim (find (λ k. str_eq k.digest digest) rows.manifests) [
        | some existing ↦ (existing, rows)
        | none ↦ (
          m,
          audit "icloud_cleanup_manifest_created" none (mapping (field "manifest_id" (num id) end))
              (record rows { manifests = rows.manifests ++ m ∷ [] }),
        )
      ]
