-- ===== src/Policies/Deletion.antt =====
-- The gate before every source deletion (src/mnema/policies/deletion.py).
pub mod Gate
use mnema.Prelude.{
  ℕ, ◌+◌, ◌*◌, Bool, true, false, not, ◌&&◌, ◌||◌, Option, none, some, List, [], ◌∷◌, ◌++◌, ltb,
  ◌==◌, if◌then◌else◌, is_some, String, DateTime,
}
use mnema.Config.Settings.{DeletionLimits}
use mnema.Runtime.Floats.{float, quotient, times, of_percent}

pub record DeletionFacts : Type 0 where
  pub local_exists : Bool
  pub local_size_matches : Bool
  pub local_sha256_exists : Bool
  pub local_sha256_matches : Bool
  pub kopia_verified : Bool
  pub remote_verified : Bool
  pub quarantine_expires_at : Option DateTime
  pub source_exists : Bool
  pub source_unchanged : Bool
  pub source_identity_matches : Bool
  pub active_disk_healthy : Bool
  pub backup_disk_healthy : Bool
  pub storage_devices_differ : Bool
  pub sqlite_integrity_healthy : Bool
  pub remote_available : Bool
  pub global_deletion_enabled : Bool
  pub source_deletion_enabled : Bool
  pub safety_lock : Bool
  pub manual_approval_required : Bool
  pub manual_approval_granted : Bool

pub record DeletionRunUsage : Type 0 where
  pub files_deleted : ℕ
  pub bytes_deleted : ℕ
  pub eligible_files : ℕ

pub record GateDecision : Type 0 where
  pub allowed : Bool
  pub blockers : List String

-- The dictionary `checks`, in its order.
unfoldable pub checks : DeletionFacts → List (String × Bool)
checks facts =
    ("local file missing", facts.local_exists)
    ∷ ("local size mismatch", facts.local_size_matches)
    ∷ ("local SHA-256 missing", facts.local_sha256_exists)
    ∷ ("local SHA-256 mismatch", facts.local_sha256_matches)
    ∷ ("local Kopia backup not verified", facts.kopia_verified)
    ∷ ("remote copy not verified", facts.remote_verified)
    ∷ ("quarantine not configured", is_some facts.quarantine_expires_at)
    ∷ ("source item missing", facts.source_exists)
    ∷ ("source changed", facts.source_unchanged)
    ∷ ("source identity mismatch", facts.source_identity_matches)
    ∷ ("active disk unhealthy", facts.active_disk_healthy)
    ∷ ("backup disk unhealthy", facts.backup_disk_healthy)
    ∷ ("active and backup storage share a device", facts.storage_devices_differ)
    ∷ ("SQLite integrity failed", facts.sqlite_integrity_healthy)
    ∷ ("remote storage unavailable", facts.remote_available)
    ∷ ("global deletion disabled", facts.global_deletion_enabled)
    ∷ ("source deletion disabled", facts.source_deletion_enabled)
    ∷ ("safety lock active", not facts.safety_lock)
    ∷ (
      "manual approval missing",
      not facts.manual_approval_required || facts.manual_approval_granted,
    )
    ∷ []

-- `[message for message, passed in checks.items() if not passed]`
unfoldable pub failed_checks : List (String × Bool) → List String
failed_checks [] = []
failed_checks ((message, passed) ∷ rest) =
    if not passed then message ∷ failed_checks rest else failed_checks rest

-- `if condition: blockers.append(message)`
unfoldable pub blocker_if : Bool → String → List String
blocker_if true message = message ∷ []
blocker_if false message = []

abbrev pub is_future : Option DateTime → DateTime → Bool
is_future none now = false
is_future (some expires) now = ltb now expires

-- The last test, with its `elif`.
unfoldable pub percentage_blocker : DeletionRunUsage → DeletionLimits → List String
unfolding blocker_if
percentage_blocker usage limits =
    if usage.eligible_files == 0
    then "eligible file count is invalid" ∷ []
    else blocker_if
        (ltb (of_percent limits.max_percentage_deleted_per_run)
          (times (quotient (usage.files_deleted + 1) usage.eligible_files) (float 100)))
        "per-run percentage deletion limit exceeded"

unfoldable pub gate_blockers :
    DeletionFacts → DeletionRunUsage → DeletionLimits → ℕ → DateTime → List String
gate_blockers facts usage limits item_size now =
    failed_checks (checks facts)
    ++ (blocker_if (is_future facts.quarantine_expires_at now) "quarantine has not elapsed"
        ++ (blocker_if (ltb limits.max_files_deleted_per_run (usage.files_deleted + 1))
              "per-run file deletion limit exceeded"
            ++ (blocker_if (ltb limits.max_bytes_deleted_per_run (usage.bytes_deleted + item_size))
                  "per-run byte deletion limit exceeded"
                ++ percentage_blocker usage limits)))

abbrev pub is_empty {ℓ} : {A : Type ℓ} → List A → Bool
is_empty [] = true
is_empty (x ∷ xs) = false

-- `evaluate_deletion_gate`
unfoldable pub evaluate_deletion_gate :
    DeletionFacts → DeletionRunUsage → DeletionLimits → ℕ → DateTime → GateDecision
evaluate_deletion_gate facts usage limits item_size now =
    let blockers = gate_blockers facts usage limits item_size now in
    record { allowed = is_empty blockers; blockers = blockers }
