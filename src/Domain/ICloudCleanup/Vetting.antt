-- ===== src/Domain/ICloudCleanup/Vetting.antt =====
-- What must hold before `execute` (icloud_cleanup.py) deletes anything.
use mnema.Prelude.{
  ℕ, ◌+◌, ◌≤◌, ◌≡◌, refl, Bool, true, false, not, ◌&&◌, Option, none, some, List, [], ◌∷◌, length,
  all, str_eq, DateTime, inl, inr, Bool-cases, Option-cases, arith,
}
use mnema.Runtime.Errors.{ok, Result-cases}
use mnema.Runtime.Files.{Files}
use mnema.Jobs.Models.Cloud.{ICloudAsset, ICloudCleanupEntry, ICloudCleanupManifest}
use mnema.Policies.Deletion.{DeletionRunUsage, evaluate_deletion_gate}
use mnema.Policies.Deletion.Gate.{gate_allowed_iff}
use mnema.Domain.ICloudCleanup.{
  ICloudRemoteAsset, Cleaner, Rows, evidence_digest, asset_eligible, asset_facts,
}
use mnema.Domain.ICloudCleanup.Planning.{cap_of}
use mnema.Domain.ICloudCleanup.Execution.{
  current, asset_in, limits_of, vet_asset, vet_entry, used_more, vet_all,
}

abbrev pub total_size : List ICloudCleanupEntry → ℕ
total_size [] = 0
total_size (e ∷ entries) = e.size_bytes + total_size entries

module _ {Ext : Type 0} (c : Cleaner Ext) (files : Files) (now : DateTime) (rows : Rows)
    (remotes : List ICloudRemoteAsset) where
  abbrev pub is_unchanged : ICloudCleanupEntry → Option ICloudRemoteAsset → Bool
  is_unchanged e none = false
  is_unchanged e (some r) =
      not r.favorite
      && str_eq r.asset_record_name e.asset_record_name
      && str_eq r.change_tag e.change_tag

  abbrev pub is_archived : ICloudCleanupEntry → Option ICloudAsset → Bool
  is_archived e none = false
  is_archived e (some a) =
      asset_eligible c files now a && str_eq (evidence_digest c a) e.evidence_digest

  -- An entry that may be deleted: the asset in iCloud is the approved one and no favorite, every component
  -- is archived and its file intact, and the evidence is the approved one.
  abbrev pub is_sound : ICloudCleanupEntry → Bool
  is_sound e = is_unchanged e (current e.apple_asset_id remotes) && is_archived e (asset_in rows e)

  module _ (m : ICloudCleanupManifest) where
    vet_asset-ok :
        (usage : DeletionRunUsage) (e : ICloudCleanupEntry) (a : ICloudAsset)
        → vet_asset c files now true m usage e a ≡ ok tt
        → (is_archived e (some a) ≡ true)
          × (usage.files_deleted + 1 ≤ c.icloud_cleanup_max_assets)
          × (usage.bytes_deleted + e.size_bytes ≤ cap_of c m.quota_bytes)
    unfolding vet_asset
    vet_asset-ok usage e a h =
        elim (Bool-cases
          (evaluate_deletion_gate (asset_facts c files a true now) usage (limits_of c m)
            e.size_bytes now).allowed) [
              | inr closed ↦ absurd (ground arith)
              | inl open_gate ↦
                  let conditions =
                    (gate_allowed_iff (asset_facts c files a true now) usage (limits_of c m)
                        e.size_bytes now).0
                      open_gate in
                  (ground arith, conditions.file_limit, conditions.byte_limit)
            ]

    vet_entry-ok :
        (usage : DeletionRunUsage) (e : ICloudCleanupEntry)
        → vet_entry c files now true rows remotes m usage e ≡ ok tt
        → (is_sound e ≡ true)
          × (usage.files_deleted + 1 ≤ c.icloud_cleanup_max_assets)
          × (usage.bytes_deleted + e.size_bytes ≤ cap_of c m.quota_bytes)
    unfolding vet_entry
    vet_entry-ok usage e h = elim (Option-cases (current e.apple_asset_id remotes)) [
      | inl missing ↦ absurd (ground arith)
      | inr (r, there) ↦ elim (Option-cases (asset_in rows e)) [
        | inl lost ↦ absurd (ground arith)
        | inr (a, found) ↦
            let (archived, few, small) = vet_asset-ok usage e a (ground arith) in
            (ground (arith, archived), few, small)
      ]
    ]

    pub vet_all-ok :
        (usage : DeletionRunUsage) (entries : List ICloudCleanupEntry)
        → usage.files_deleted ≤ c.icloud_cleanup_max_assets
        → usage.bytes_deleted ≤ cap_of c m.quota_bytes
        → vet_all c files now true rows remotes m usage entries ≡ ok tt
        → (all is_sound entries ≡ true)
          × (usage.files_deleted + length entries ≤ c.icloud_cleanup_max_assets)
          × (usage.bytes_deleted + total_size entries ≤ cap_of c m.quota_bytes)
    unfolding vet_all
    vet_all-ok usage [] few small h = (refl, omega arith, omega arith)
    vet_all-ok usage (e ∷ entries) few small h =
        elim (Result-cases (vet_entry c files now true rows remotes m usage e)) [
          | inl (x, bad) ↦ absurd (ground arith)
          | inr (tt, good) ↦
              let (sound, few', small') = vet_entry-ok usage e good in
              let (rest, count, size) =
                vet_all-ok (used_more c usage e) entries few' small' (ground arith) in
              (ground (arith, sound, rest), omega (arith, count), omega (arith, size))
        ]
