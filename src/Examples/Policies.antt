-- ===== src/Examples/Policies.antt =====
-- The policies, redaction and the state table at concrete values.
use mnema.Prelude.{◌≡◌, refl, ◌↔◌, true, false, some, List, [], ◌∷◌, String, days, arith}
use mnema.Security.Redaction.{Value, mapping, field, end, str, redact}
use mnema.Security.Redaction.Hidden.{is_hidden, redact-IsHidden}
use mnema.Config.Settings.{DeletionLimits, percent}
use mnema.Domain.States.{
  ArchiveState, eligible, queued, downloading, local_staged, source_changed, local_verified, member,
  validate_transition, allowed_transitions, linear_next,
}
use mnema.Domain.States.Graph.{stage_never_skipped}
use mnema.Policies.Deletion.{DeletionFacts, DeletionRunUsage, blocker_if, evaluate_deletion_gate}
use mnema.Policies.Deletion.Gate.{IsOpen, gate_allowed_iff}
use mnema.Policies.Eligibility.{
  PolicyDecision, Matching, not_included, is_excluded, is_above, required_age, policy_reasons,
  evaluate_policy,
}
use mnema.Policies.Eligibility.Rules.{IsEligible, eligible_iff}
use mnema.Examples.Data.{re, policy, source_object}

abbrev details : Value
details = mapping (field "token" (str "t0") (field "note" (str "Bearer abc") end))

redact-IsHidden_example : is_hidden re (redact re details) ≡ true
redact-IsHidden_example = redact-IsHidden re details

substitution_idem : (s : String) → re.bearer_sub (re.bearer_sub s) ≡ re.bearer_sub s
substitution_idem s = ground arith

abbrev facts : DeletionFacts
facts = record {
  local_exists = true;
  local_size_matches = true;
  local_sha256_exists = true;
  local_sha256_matches = true;
  kopia_verified = true;
  remote_verified = true;
  quarantine_expires_at = some (days 30);
  source_exists = true;
  source_unchanged = true;
  source_identity_matches = true;
  active_disk_healthy = true;
  backup_disk_healthy = true;
  storage_devices_differ = true;
  sqlite_integrity_healthy = true;
  remote_available = true;
  global_deletion_enabled = true;
  source_deletion_enabled = true;
  safety_lock = false;
  manual_approval_required = true;
  manual_approval_granted = true;
}

abbrev usage : DeletionRunUsage
usage = record { files_deleted = 0; bytes_deleted = 0; eligible_files = 200 }

abbrev limits : DeletionLimits
limits = record {
  max_files_deleted_per_run = 10;
  max_bytes_deleted_per_run = 1000;
  max_percentage_deleted_per_run = percent;
}

gate_allowed_iff_example :
    ((evaluate_deletion_gate facts usage limits 2 (days 31)).allowed ≡ true)
    ↔ IsOpen facts usage limits 2 (days 31)
gate_allowed_iff_example = gate_allowed_iff facts usage limits 2 (days 31)

abbrev matching : Matching
matching = record { parts = λ path. path ∷ []; fnmatch = λ path pattern. false }

abbrev decision : PolicyDecision
decision = record { eligible = true; reasons = [] }

eligible_iff_example :
    (decision.eligible ≡ true) ↔ IsEligible matching source_object policy (days 2)
unfolding blocker_if evaluate_policy not_included policy_reasons is_excluded is_above required_age
eligible_iff_example = eligible_iff matching source_object policy (days 2) {d = decision} refl

abbrev interrupted_walk : List ArchiveState
interrupted_walk =
    eligible ∷ queued ∷ downloading ∷ source_changed ∷ queued ∷ downloading ∷ local_staged
    ∷ local_verified ∷ []

stage_never_skipped_example : member local_staged interrupted_walk ≡ true
unfolding validate_transition allowed_transitions linear_next
stage_never_skipped_example =
    stage_never_skipped local_staged interrupted_walk (omega arith) (omega arith) refl (omega arith)
      (omega arith)
