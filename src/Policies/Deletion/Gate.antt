-- ===== src/Policies/Deletion/Gate.antt =====
-- What an open deletion gate (src/mnema/policies/deletion.py) stands for.
use mnema.Prelude.{
  ℕ, ◌+◌, ◌≤◌, ◌<◌, ◌≡◌, refl, ◌↔◌, Bool, true, false, not, ◌&&◌, List, [], ◌∷◌, ◌++◌, some,
  Option-cases, ◌⊎◌, inl, inr, ltb, ◌==◌, all, String, DateTime, arith,
}
use mnema.Config.Settings.{DeletionLimits}
use mnema.Runtime.Floats.{float, quotient, times, of_percent}
use mnema.Policies.Deletion.{
  DeletionFacts, DeletionRunUsage, checks, failed_checks, blocker_if, is_future, percentage_blocker,
  gate_blockers, is_empty, evaluate_deletion_gate,
}

-- Every condition for a deletion, one a field.
pub record IsOpen (facts : DeletionFacts) (usage : DeletionRunUsage) (limits : DeletionLimits)
    (item_size : ℕ) (now : DateTime) : Type 0 where
  pub local_exists : facts.local_exists ≡ true
  pub local_size_matches : facts.local_size_matches ≡ true
  pub local_sha256_exists : facts.local_sha256_exists ≡ true
  pub local_sha256_matches : facts.local_sha256_matches ≡ true
  pub kopia_verified : facts.kopia_verified ≡ true
  pub remote_verified : facts.remote_verified ≡ true
  pub expires : DateTime
  pub quarantine_set : facts.quarantine_expires_at ≡ some expires
  pub quarantine_elapsed : expires ≤ now
  pub source_exists : facts.source_exists ≡ true
  pub source_unchanged : facts.source_unchanged ≡ true
  pub source_identity_matches : facts.source_identity_matches ≡ true
  pub active_disk_healthy : facts.active_disk_healthy ≡ true
  pub backup_disk_healthy : facts.backup_disk_healthy ≡ true
  pub storage_devices_differ : facts.storage_devices_differ ≡ true
  pub sqlite_integrity_healthy : facts.sqlite_integrity_healthy ≡ true
  pub remote_available : facts.remote_available ≡ true
  pub global_deletion_enabled : facts.global_deletion_enabled ≡ true
  pub source_deletion_enabled : facts.source_deletion_enabled ≡ true
  pub unlocked : facts.safety_lock ≡ false
  pub approved : (facts.manual_approval_required ≡ false) ⊎ (facts.manual_approval_granted ≡ true)
  pub file_limit : usage.files_deleted + 1 ≤ limits.max_files_deleted_per_run
  pub byte_limit : usage.bytes_deleted + item_size ≤ limits.max_bytes_deleted_per_run
  pub some_eligible : 0 < usage.eligible_files
  pub percentage_limit :
      times (quotient (usage.files_deleted + 1) usage.eligible_files) (float 100)
      ≤ of_percent limits.max_percentage_deleted_per_run

pub is_empty-append : (xs ys : List String) → is_empty (xs ++ ys) ≡ (is_empty xs && is_empty ys)
is_empty-append [] ys = refl
is_empty-append (x ∷ xs) ys = refl

is_empty-failed_checks :
    (cs : List (String × Bool)) → is_empty (failed_checks cs) ≡ all (λ c. c.1) cs
unfolding failed_checks
is_empty-failed_checks [] = refl
is_empty-failed_checks ((message, passed) ∷ rest) = ground (arith, is_empty-failed_checks rest)

pub is_empty-blocker_if : (b : Bool) (message : String) → is_empty (blocker_if b message) ≡ not b
unfolding blocker_if
is_empty-blocker_if true message = refl
is_empty-blocker_if false message = refl

abbrev within_percentage : DeletionRunUsage → DeletionLimits → Bool
within_percentage usage limits =
    not (usage.eligible_files == 0)
    && not (
        ltb (of_percent limits.max_percentage_deleted_per_run)
          (times (quotient (usage.files_deleted + 1) usage.eligible_files) (float 100)))

is_empty-percentage_blocker :
    (usage : DeletionRunUsage) (limits : DeletionLimits)
    → is_empty (percentage_blocker usage limits) ≡ within_percentage usage limits
unfolding percentage_blocker
is_empty-percentage_blocker usage limits = ground arith

gate_lem :
    (facts : DeletionFacts) (usage : DeletionRunUsage) (limits : DeletionLimits) (item_size : ℕ)
    (now : DateTime)
    → (evaluate_deletion_gate facts usage limits item_size now).allowed ≡ (
        all (λ c. c.1) (checks facts)
        && (not (is_future facts.quarantine_expires_at now)
            && (not (ltb limits.max_files_deleted_per_run (usage.files_deleted + 1))
                && (not (ltb limits.max_bytes_deleted_per_run (usage.bytes_deleted + item_size))
                    && within_percentage usage limits))))
unfolding evaluate_deletion_gate gate_blockers
gate_lem facts usage limits item_size now =
    simp (is_empty-append, is_empty-failed_checks, is_empty-blocker_if, is_empty-percentage_blocker)

allowed-IsOpen :
    (facts : DeletionFacts) (usage : DeletionRunUsage) (limits : DeletionLimits) (item_size : ℕ)
    (now : DateTime)
    → (evaluate_deletion_gate facts usage limits item_size now).allowed ≡ true
    → IsOpen facts usage limits item_size now
unfolding checks
allowed-IsOpen facts usage limits item_size now h =
    let conditions = rw gate_lem at h in
    elim (Option-cases facts.quarantine_expires_at) [
      | inl absent ↦ absurd (ground arith)
      | inr (expires, set) ↦ record {
        local_exists = ground arith;
        local_size_matches = ground arith;
        local_sha256_exists = ground arith;
        local_sha256_matches = ground arith;
        kopia_verified = ground arith;
        remote_verified = ground arith;
        expires = expires;
        quarantine_set = set;
        quarantine_elapsed = ground arith;
        source_exists = ground arith;
        source_unchanged = ground arith;
        source_identity_matches = ground arith;
        active_disk_healthy = ground arith;
        backup_disk_healthy = ground arith;
        storage_devices_differ = ground arith;
        sqlite_integrity_healthy = ground arith;
        remote_available = ground arith;
        global_deletion_enabled = ground arith;
        source_deletion_enabled = ground arith;
        unlocked = ground arith;
        approved = ground arith;
        file_limit = ground arith;
        byte_limit = ground arith;
        some_eligible = ground arith;
        percentage_limit = ground arith;
      }
    ]

-- The gate allows a deletion exactly when every one of its conditions holds: the copies verified,
-- the quarantine set and over, the source as recorded, the appliance healthy, the switches on, the lock
-- off, approval given where required, and this file within the three limits of the run. The limit of
-- percentage is on doubles: the share of the files, rounded, times 100, rounded.
pub gate_allowed_iff :
    (facts : DeletionFacts) (usage : DeletionRunUsage) (limits : DeletionLimits) (item_size : ℕ)
    (now : DateTime)
    → ((evaluate_deletion_gate facts usage limits item_size now).allowed ≡ true)
      ↔ IsOpen facts usage limits item_size now
unfolding checks
gate_allowed_iff facts usage limits item_size now =
    (allowed-IsOpen facts usage limits item_size now, λ o. rw gate_lem (ground arith))
