-- ===== src/Domain/ICloudCleanup/Outcomes.antt =====
-- How an approved cleanup ends (icloud_cleanup.py: the second loop of execute, and _manual_review).
use mnema.Prelude.{
  ℕ, suc, ◌+◌, ◌<◌, ◌≡◌, refl, ap, ◌∙◌, true, false, List, [], ◌∷◌, length, take, all,
  if◌then◌else◌, String, DateTime, ◌⊎◌, inl, inr, arith,
}
use mnema.Runtime.Errors.{Result, ok, err, is_ok, Result-cases}
use mnema.Runtime.Session.{World}
use mnema.Jobs.Models.Archive.{ArchiveItem}
use mnema.Jobs.Models.Cloud.{ICloudCleanupEntry, ICloudCleanupManifest}
use mnema.Domain.ICloudCleanup.{Cleaner, Rows, CleanupSession, set_runtime, audit}
use mnema.Domain.ICloudCleanup.Execution.{
  manual_review_of, reviewed, completing, update_manifest, approved_rows, audit_components,
  components_in, record_deleted, delete_all, carry_out,
}
use mnema.Domain.ICloudCleanup.Marks.{
  is_gone, deleted, has_asset, deleted-gone, deleted-keeps, deleted-all, is_locked,
  set_runtime-holds, set_runtime-keeps,
}

abbrev set_lock : Rows → Rows
set_lock rows =
    set_runtime "safety_lock" "true" (set_runtime "global_deletion_enabled" "false" rows)

lock_assets : (rows : Rows) → (set_lock rows).assets ≡ rows.assets
unfolding set_runtime
lock_assets rows = ground arith

lock_holds : (rows : Rows) → is_locked (set_lock rows).settings ≡ true
lock_holds rows = ground (
  arith,
  set_runtime-holds "safety_lock" "true" (set_runtime "global_deletion_enabled" "false" rows),
  set_runtime-keeps "safety_lock" "true" "global_deletion_enabled" "false"
      (set_runtime "global_deletion_enabled" "false" rows) refl,
  set_runtime-holds "global_deletion_enabled" "false" rows,
)

module _ {Ext : Type 0} (c : Cleaner Ext) where
  -- How many of the first entries iCloud confirms, asked one after the other.
  abbrev pub confirmed : List ICloudCleanupEntry → World Ext → ℕ
  confirmed [] w = 0
  confirmed (e ∷ entries) w =
      let (answer, w') =
        c.client.delete_to_recently_deleted e.apple_asset_id e.asset_record_name e.change_tag w in
      let rest = confirmed entries w' in
      elim answer [ err x ↦ 0 | ok yes' ↦ if yes' then rest + 1 else 0 ]

module _ {Ext : Type 0} (c : Cleaner Ext) (id : ℕ) where
  audit_components-assets :
      (name : String) (items : List ArchiveItem) (rows : Rows)
      → (audit_components c id name items rows).assets ≡ rows.assets
  unfolding audit_components audit
  audit_components-assets name [] rows = refl
  audit_components-assets name (i ∷ items) rows = audit_components-assets name items _

  record_deleted-assets :
      (e : ICloudCleanupEntry) (s : CleanupSession Ext)
      → let t = record_deleted c id e s in
        (t.rows.assets ≡ deleted s.world.clock e.icloud_asset_id s.rows.assets)
        × (t.saved ≡ t.rows)
        × (t.world ≡ s.world)
  unfolding record_deleted
  record_deleted-assets e s = (
    audit_components-assets e.apple_asset_id (components_in c s.rows e)
        (completing c s.world.clock id e s.rows),
    refl,
    refl,
  )

  manual_review-locks :
      (reason : String) (s : CleanupSession Ext)
      → let t = manual_review_of c id reason s in
        (is_locked t.saved.settings ≡ true) × (t.saved.assets ≡ s.rows.assets) × (t.rows ≡ t.saved)
  unfolding manual_review_of audit
  manual_review-locks reason s = (
    lock_holds (update_manifest id (reviewed c reason) s.rows),
    lock_assets (update_manifest id (reviewed c reason) s.rows),
    refl,
  )

  -- The session after iCloud was asked.
  abbrev asked : ICloudCleanupEntry → CleanupSession Ext → CleanupSession Ext
  asked e s = record s {
    world =
        (c.client.delete_to_recently_deleted e.apple_asset_id e.asset_record_name e.change_tag
          s.world).1;
  }

  delete_all-keeps :
      (k : ICloudCleanupEntry) (entries : List ICloudCleanupEntry) (s : CleanupSession Ext)
      → s.saved ≡ s.rows
      → is_gone s.rows.assets k ≡ true
      → is_gone (delete_all c id entries s).1.saved.assets k ≡ true
  unfolding delete_all
  delete_all-keeps k [] s synced h = ground (arith, ap (λ r. is_gone r.assets k) synced)
  delete_all-keeps k (e ∷ entries) s synced h =
      let answer =
        (c.client.delete_to_recently_deleted e.apple_asset_id e.asset_record_name e.change_tag
          s.world).0 in
      elim (Result-cases answer) [
        | inl (x, bad) ↦
            let (locked, kept, same) = manual_review-locks (c.error_name x) (asked e s) in
            ground (arith, bad, ap (λ assets. is_gone assets k) kept)
        | inr (true, good) ↦
            let (marked, same, world) = record_deleted-assets e (asked e s) in
            ground (
              arith,
              good,
              delete_all-keeps k entries (record_deleted c id e (asked e s)) same (
                  ap (λ assets. is_gone assets k) marked
                  ∙ deleted-keeps (asked e s).world.clock e.icloud_asset_id k s.rows.assets h),
            )
        | inr (false, good) ↦
            let (locked, kept, same) = manual_review-locks "absence_not_confirmed" (asked e s) in
            ground (arith, good, ap (λ assets. is_gone assets k) kept)
      ]

  delete_all_lem :
      (entries : List ICloudCleanupEntry) (s : CleanupSession Ext)
      → all (has_asset s.rows.assets) entries ≡ true
      → s.saved ≡ s.rows
      → let (answer, t) = delete_all c id entries s in
        let n = confirmed c entries s.world in
        (t.saved ≡ t.rows)
        × (all (is_gone t.saved.assets) (take n entries) ≡ true)
        × (((is_ok answer ≡ true) × (n ≡ length entries))
            ⊎ ((is_ok answer ≡ false) × (n < length entries) × (is_locked t.saved.settings ≡ true)))
  unfolding delete_all
  delete_all_lem [] s there synced = (synced, refl, inl (refl, refl))
  delete_all_lem (e ∷ entries) s there synced =
      let answer =
        (c.client.delete_to_recently_deleted e.apple_asset_id e.asset_record_name e.change_tag
          s.world).0 in
      elim (Result-cases answer) [
        | inl (x, bad) ↦
            let (locked, kept, same) = manual_review-locks (c.error_name x) (asked e s) in
            (
              ground (arith, bad, same),
              ground (arith, bad),
              inr (ground (arith, bad), ground (arith, bad), ground (arith, bad, locked)),
            )
        | inr (false, good) ↦
            let (locked, kept, same) = manual_review-locks "absence_not_confirmed" (asked e s) in
            (
              ground (arith, good, same),
              ground (arith, good),
              inr (ground (arith, good), ground (arith, good), ground (arith, good, locked)),
            )
        | inr (true, good) ↦
            let r = record_deleted c id e (asked e s) in
            let (marked, same, world) = record_deleted-assets e (asked e s) in
            let (synced', all_gone, ends) =
              delete_all_lem entries r
                (ap (λ assets. all (has_asset assets) entries) marked
                  ∙ deleted-all (asked e s).world.clock e.icloud_asset_id entries s.rows.assets
                  ∙ ground (arith, there))
                same in
            let this_gone = delete_all-keeps e entries r same (
              ap (λ assets. is_gone assets e) marked
              ∙ deleted-gone (asked e s).world.clock e s.rows.assets (ground (arith, there))) in
            let one : ◌≡◌ {A = Result (Unit {0}) × CleanupSession Ext}
                (delete_all c id (e ∷ entries) s) (delete_all c id entries r) =
              ground (arith, good) in
            let two : confirmed c (e ∷ entries) s.world ≡ suc (confirmed c entries r.world) =
              ground (arith, good, world) in
            rw (one, two)
              (
                synced',
                ground (arith, this_gone, all_gone),
                elim ends [
                  | inl (fine, count) ↦ inl (fine, omega (arith, count))
                  | inr (bad, fewer, locked) ↦ inr (bad, omega (arith, fewer), locked)
                ],
              )
      ]

-- The session after the approval was committed.
abbrev approved :
    {Ext : Type 0}
    → Cleaner Ext
    → DateTime
    → ICloudCleanupManifest
    → CleanupSession Ext
    → CleanupSession Ext
approved c now m s =
    let rows = approved_rows c now m s.rows in record s { rows = rows; saved = rows }

carry_out-delete_all :
    {Ext : Type 0} (c : Cleaner Ext) (now : DateTime) (m : ICloudCleanupManifest)
    (s : CleanupSession Ext)
    → let (answer, t) = carry_out c now m s in
      let (answer', t') = delete_all c m.id m.entries (approved c now m s) in
      (is_ok answer ≡ is_ok answer') × (t.saved ≡ t'.saved)
unfolding carry_out
carry_out-delete_all c now m s =
    elim (Result-cases (delete_all c m.id m.entries (approved c now m s)).0) [
      | inl (e, bad) ↦ (ground (arith, bad), ground (arith, bad))
      | inr (tt, fine) ↦ (ground (arith, fine), ground (arith, fine))
    ]

-- Where every entry has its asset's row: the assets whose deletion iCloud confirms, asked one after the
-- other until one is not confirmed, are committed as deleted. Where all are, the cleanup returns. Else it
-- raises, and the committed settings hold the safety lock and disable deletion.
pub carry_out_lem :
    {Ext : Type 0} (c : Cleaner Ext) (now : DateTime) (m : ICloudCleanupManifest)
    (s : CleanupSession Ext)
    → all (has_asset s.rows.assets) m.entries ≡ true
    → let (answer, t) = carry_out c now m s in
      let n = confirmed c m.entries s.world in
      (all (is_gone t.saved.assets) (take n m.entries) ≡ true)
      × (((is_ok answer ≡ true) × (n ≡ length m.entries))
          ⊎ ((is_ok answer ≡ false) × (n < length m.entries) × (is_locked t.saved.settings ≡ true)))
unfolding approved_rows
carry_out_lem c now m s there =
    let (synced, all_gone, ends) =
      delete_all_lem c m.id m.entries (approved c now m s) there refl in
    let (same_end, same_rows) = carry_out-delete_all c now m s in
    rw (same_end, same_rows) (all_gone, ends)
