-- ===== src/Domain/ICloudCleanup/Approval.antt =====
-- When `execute` (icloud_cleanup.py) deletes.
use mnema.Prelude.{
  ◌==◌, ℕ, ◌≤◌, ◌≡◌, refl, Bool, true, false, ◌&&◌, none, some, List, length, all, find, leb, ltb,
  String, str_eq, ◌⊎◌, inl, inr, Bool-cases, Option-cases, arith,
}
use mnema.Runtime.Errors.{Result, ok, err, is_ok, Result-cases}
use mnema.Runtime.Session.{World}
use mnema.Jobs.Models.Cloud.{ICloudCleanupManifest}
use mnema.Policies.Deletion.{DeletionRunUsage}
use mnema.Domain.ICloudCleanup.{ICloudQuota, ICloudRemoteAsset, Cleaner, CleanupSession, is_below}
use mnema.Domain.ICloudCleanup.Selection.{is_pending}
use mnema.Domain.ICloudCleanup.Planning.{cap_of}
use mnema.Domain.ICloudCleanup.Execution.{is_manifest, vet_all, vet_manifest, carry_out, execute}
use mnema.Domain.ICloudCleanup.Vetting.{total_size, is_sound, vet_all-ok}

module _ {Ext : Type 0} (c : Cleaner Ext) (manifest_id : ℕ) (digest : String) (gates_ready : Bool)
    (s : CleanupSession Ext) where
  -- The world after the quota was read, and after the assets were listed.
  abbrev pub asked_quota : World Ext
  asked_quota = (c.client.quota s.world).1

  abbrev pub listed : World Ext
  listed = (c.client.assets asked_quota).1

  -- What an approval stands for.
  pub record IsApproved (m : ICloudCleanupManifest) (q : ICloudQuota)
      (remotes : List ICloudRemoteAsset) : Type 0 where
    pub milestone : c.icloud_deletion_milestone_approved ≡ true
    pub found : find (is_manifest manifest_id) s.rows.manifests ≡ some m
    pub same_digest : str_eq m.digest digest ≡ true
    pub pending : is_pending m ≡ true
    pub in_time : ltb s.world.clock m.expires_at ≡ true
    pub gates : gates_ready ≡ true
    pub answered : (c.client.quota s.world).0 ≡ ok q
    pub full : is_below q c.icloud_cleanup_trigger_percent ≡ false
    pub current_assets : (c.client.assets asked_quota).0 ≡ ok remotes
    pub sound : all (is_sound c listed.files s.world.clock s.rows remotes) m.entries ≡ true
    pub few : length m.entries ≤ c.icloud_cleanup_max_assets
    pub small : total_size m.entries ≤ cap_of c m.quota_bytes

  -- The client was asked, and nothing else was done.
  abbrev pub OnlyAsked : World Ext → Type 0
  OnlyAsked w = (w ≡ s.world) ⊎ (w ≡ asked_quota) ⊎ (w ≡ listed)

  abbrev start_of : ICloudCleanupManifest → DeletionRunUsage
  start_of m = record { files_deleted = 0; bytes_deleted = 0; eligible_files = length m.entries }

  vet_manifest-cases :
      (m : ICloudCleanupManifest)
      → let now = s.world.clock in
        let (answer, t) = vet_manifest c now true m s in
        ((is_ok answer ≡ false) × (t.saved ≡ s.saved) × OnlyAsked t.world)
        ⊎ ((q : ICloudQuota) × (remotes : List ICloudRemoteAsset) × ((c.client.quota s.world).0
              ≡ ok q)
            × (is_below q c.icloud_cleanup_trigger_percent ≡ false)
            × ((c.client.assets asked_quota).0 ≡ ok remotes)
            × (vet_all c listed.files now true s.rows remotes m (start_of m) m.entries ≡ ok tt)
            × (answer ≡ ok tt)
            × (t ≡ record s { world = listed }))
  unfolding vet_manifest
  vet_manifest-cases m = elim (Result-cases (c.client.quota s.world).0) [
    | inl (e, bad) ↦ inl (ground arith, ground arith, inr (inl (ground arith)))
    | inr (q, answered) ↦ elim (Bool-cases (q.quota_bytes == 0)) [
      | inl nothing ↦ inl (ground arith, ground arith, inr (inl (ground arith)))
      | inr some_room ↦ elim (Bool-cases (is_below q c.icloud_cleanup_trigger_percent)) [
        | inl below ↦ inl (ground arith, ground arith, inr (inl (ground arith)))
        | inr full ↦ elim (Result-cases (c.client.assets asked_quota).0) [
          | inl (e, bad) ↦ inl (ground arith, ground arith, inr (inr (ground arith)))
          | inr (remotes, given) ↦
              elim (Result-cases (
                vet_all c listed.files s.world.clock true s.rows remotes m (start_of m)
                  m.entries)) [
                    | inl (e, bad) ↦ inl (ground arith, ground arith, inr (inr (ground arith)))
                    | inr (tt, vetted) ↦
                        inr (q, remotes, answered, full, given, vetted, ground arith, ground arith)
                  ]
        ]
      ]
    ]
  ]

  execute_vets :
      (m : ICloudCleanupManifest)
      → c.icloud_deletion_milestone_approved ≡ true
      → find (is_manifest manifest_id) s.rows.manifests ≡ some m
      → (str_eq m.digest digest && is_pending m && ltb s.world.clock m.expires_at && gates_ready)
        ≡ true
      → let (vetted, t) = vet_manifest c s.world.clock true m s in
        execute c manifest_id digest gates_ready s
        ≡ elim vetted [ err e ↦ (err e, t) | ok done ↦ carry_out c s.world.clock m t ]
  unfolding execute
  execute_vets m milestone found h = ground arith

  execute_stops :
      (m : ICloudCleanupManifest)
      → find (is_manifest manifest_id) s.rows.manifests ≡ some m
      → (str_eq m.digest digest && is_pending m && ltb s.world.clock m.expires_at && gates_ready)
        ≡ false
      → let (answer, t) = execute c manifest_id digest gates_ready s in
        (is_ok answer ≡ false) × (t.saved ≡ s.saved) × (t.world ≡ s.world)
  unfolding execute
  execute_stops m found h = elim (Bool-cases (str_eq m.digest digest && is_pending m)) [
    | inr other ↦ (ground arith, ground arith, ground arith)
    | inl given ↦ elim (Bool-cases (leb m.expires_at s.world.clock)) [
      | inl late ↦ (ground arith, ground arith, ground arith)
      | inr in_time ↦ (ground arith, ground arith, ground arith)
    ]
  ]

  execute_early :
      c.icloud_deletion_milestone_approved ≡ false
      → let (answer, t) = execute c manifest_id digest gates_ready s in
        (is_ok answer ≡ false) × (t.saved ≡ s.saved) × OnlyAsked t.world
  unfolding execute
  execute_early h = (ground arith, ground arith, inl (ground arith))

  execute_missing :
      find (is_manifest manifest_id) s.rows.manifests ≡ none
      → let (answer, t) = execute c manifest_id digest gates_ready s in
        (is_ok answer ≡ false) × (t.saved ≡ s.saved) × OnlyAsked t.world
  unfolding execute
  execute_missing h = (ground arith, ground arith, inl (ground arith))

  execute_vetted :
      (m : ICloudCleanupManifest)
      → c.icloud_deletion_milestone_approved ≡ true
      → find (is_manifest manifest_id) s.rows.manifests ≡ some m
      → (str_eq m.digest digest && is_pending m && ltb s.world.clock m.expires_at && gates_ready)
        ≡ true
      → let (answer, t) = execute c manifest_id digest gates_ready s in
        ((is_ok answer ≡ false) × (t.saved ≡ s.saved) × OnlyAsked t.world)
        ⊎ ((k : ICloudCleanupManifest) × (q : ICloudQuota) × (remotes : List ICloudRemoteAsset)
            × IsApproved k q remotes
            × (execute c manifest_id digest gates_ready s
                ≡ carry_out c s.world.clock k (record s { world = listed })))
  execute_vetted m milestone found passes =
      let run = execute_vets m milestone found passes in
      elim (vet_manifest-cases m) [
        | inl (silent, saved, asked) ↦
            elim (Result-cases (vet_manifest c s.world.clock true m s).0) [
              | inr (tt, fine) ↦ absurd (ground arith)
              | inl (e, bad) ↦
                  let ends : ◌≡◌ {A = Result (Unit {0}) × CleanupSession Ext}
                      (execute c manifest_id digest gates_ready s)
                      (err e, (vet_manifest c s.world.clock true m s).1) =
                    ground (arith, run, bad) in
                  inl (rw ends (refl, saved, asked))
            ]
        | inr (q, remotes, answered, full, given, vetted, fine, state) ↦
            let (sound, few, small) =
              vet_all-ok c listed.files s.world.clock s.rows remotes m (start_of m) m.entries
                (omega arith) (omega arith) vetted in
            inr (
              m,
              q,
              remotes,
              record {
                milestone = milestone;
                found = found;
                same_digest = ground arith;
                pending = ground arith;
                in_time = ground arith;
                gates = ground arith;
                answered = answered;
                full = full;
                current_assets = given;
                sound = sound;
                few = omega (arith, few);
                small = omega (arith, small);
              },
              ground (arith, run, fine, state),
            )
      ]

  -- Either `execute` refuses: it has asked iCloud for the quota and the assets at most, deletes nothing, and
  -- commits nothing. Or the milestone is approved, the manifest has the digest, is pending and in time, the
  -- gates are ready, the quota is above the trigger, every entry is the approved asset as it stands in
  -- iCloud, archived with intact files and the approved evidence, and the entries are within the limits
  -- on assets and bytes; then the deletions are carried out.
  pub execute_guarded :
      let (answer, t) = execute c manifest_id digest gates_ready s in
      ((is_ok answer ≡ false) × (t.saved ≡ s.saved) × OnlyAsked t.world)
      ⊎ ((m : ICloudCleanupManifest) × (q : ICloudQuota) × (remotes : List ICloudRemoteAsset)
          × IsApproved m q remotes
          × (execute c manifest_id digest gates_ready s
              ≡ carry_out c s.world.clock m (record s { world = listed })))
  execute_guarded = elim (Bool-cases c.icloud_deletion_milestone_approved) [
    | inr early ↦ inl (execute_early early)
    | inl milestone ↦ elim (Option-cases (find (is_manifest manifest_id) s.rows.manifests)) [
      | inl missing ↦ inl (execute_missing missing)
      | inr (m, found) ↦
          elim (Bool-cases (
            str_eq m.digest digest
            && is_pending m
            && ltb s.world.clock m.expires_at
            && gates_ready)) [
              | inr shut ↦
                  let (silent, saved, world) = execute_stops m found shut in
                  inl (silent, saved, inl world)
              | inl passes ↦ execute_vetted m milestone found passes
            ]
    ]
  ]
