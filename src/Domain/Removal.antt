-- ===== src/Domain/Removal.antt =====
-- The guarded deletion of a source object: `deletion_decision`, `delete_test_item` and
-- `_source_matches` of `ArchiveWorkflow` (src/mnema/domain/workflow.py).
pub mod Guarded
use mnema.Prelude.{
  ℕ, Bool, true, false, not, ◌&&◌, Option, none, some, List, [], ◌∷◌, ◌==◌, if◌then◌else◌, is_some,
  is_none, String, str_eq, DateTime,
}
use mnema.Security.Redaction.{Value, mapping, end, field, str, flag}
use mnema.Runtime.Errors.{
  Error, file_not_found, permission_error, Result, ok, err, is_source_changed,
}
use mnema.Runtime.Files.{FilePath, Node, Files, content, has_size}
use mnema.Runtime.Session.{
  World, Session, Action, pure, raise, call, utcnow, get_item, set_item, commit, transition, after,
  when_state, ◌>>=◌, ◌>>◌,
}
use mnema.Config.Settings.{SourcePolicy, DeletionLimits}
use mnema.Domain.States.{
  ArchiveState, quarantined, ready_for_revalidation, ready_for_deletion, deleting,
  deleted_from_source, archived, source_changed, manual_review,
}
use mnema.Domain.Source.{SourceCapabilities, SourceObject, DeleteReceipt}
use mnema.Domain.Protocols.{Workflow}
use mnema.Domain.Workflow.{no_details}
use mnema.Jobs.Models.Archive.{ArchiveItem}
use mnema.Adapters.FileOps.{sha256_file, hash_is}
use mnema.Policies.Deletion.{
  DeletionFacts, DeletionRunUsage, GateDecision, is_empty, evaluate_deletion_gate,
}

-- `_source_matches`
unfoldable pub source_matches : ArchiveItem → SourceObject → Bool
source_matches item current =
    str_eq current.source_id item.source_identifier
    && (str_eq current.relative_path item.original_path
        && (current.size == item.original_size
            && (current.modified_at == item.original_modified_at
                && str_eq current.version item.source_version)))

-- `_source_changed`
unfoldable pub source_has_changed : ArchiveItem → SourceObject → Bool
unfolding source_matches
source_has_changed item current = not (source_matches item current)

-- What the caller of `deletion_decision` says of the appliance.
pub record Appliance : Type 0 where
  pub active_disk_healthy : Bool
  pub backup_disk_healthy : Bool
  pub storage_devices_differ : Bool
  pub sqlite_integrity_healthy : Bool
  pub global_deletion_enabled : Bool
  pub safety_lock : Bool
  pub manual_approval_granted : Bool

-- What the source says of the object: `none` is `FileNotFoundError`.
abbrev pub exists_in : Option SourceObject → Bool
exists_in = is_some

abbrev pub unchanged_in : ArchiveItem → Option SourceObject → Bool
unchanged_in item none = false
unchanged_in item (some current) = source_matches item current

abbrev pub identity_in : ArchiveItem → Option SourceObject → Bool
identity_in item none = false
identity_in item (some current) = str_eq current.source_id item.source_identifier

-- `Path(item.nas_path) if item.nas_path else None`: an empty text is false.
abbrev pub given : Option String → Option String
given none = none
given (some t) = if str_eq t "" then none else some t

module _ {Ext : Type 0} (wf : Workflow Ext) where
  -- The node at the recorded path, as `is_file` and `stat` follow links to it.
  unfoldable pub local_node : Files → ArchiveItem → Option Node
  local_node files item = elim (given item.nas_path) [
    | none ↦ none
    | some t ↦ files (wf.host.lib.resolve files (wf.path_of t))
  ]

  abbrev hash_in : Files → ArchiveItem → Option String → Bool
  hash_in files item none = false
  hash_in files item (some sha) = hash_is (sha256_file wf.host (local_node files item)) sha

  -- `facts`, from the files as they stand.
  unfoldable pub deletion_facts :
      Files → ArchiveItem → Option SourceObject → Bool → Appliance → DeletionFacts
  unfolding local_node
  deletion_facts files item found remote_available a =
      let local_exists = is_some (content (local_node files item)) in
      record {
        local_exists = local_exists;
        local_size_matches = local_exists && has_size (local_node files item) item.original_size;
        local_sha256_exists = is_some item.plaintext_sha256;
        local_sha256_matches = local_exists && hash_in files item (given item.plaintext_sha256);
        kopia_verified = is_some item.kopia_verified_at;
        remote_verified = is_some item.remote_verified_at;
        quarantine_expires_at = item.quarantine_expires_at;
        source_exists = exists_in found;
        source_unchanged = unchanged_in item found;
        source_identity_matches = identity_in item found;
        active_disk_healthy = a.active_disk_healthy;
        backup_disk_healthy = a.backup_disk_healthy;
        storage_devices_differ = a.storage_devices_differ;
        sqlite_integrity_healthy = a.sqlite_integrity_healthy;
        remote_available = remote_available;
        global_deletion_enabled = a.global_deletion_enabled;
        source_deletion_enabled = wf.policy.deletion_enabled;
        safety_lock = a.safety_lock;
        manual_approval_required = wf.policy.manual_approval;
        manual_approval_granted = a.manual_approval_granted;
      }

  -- `except FileNotFoundError`
  abbrev missing_is_none :
      Result SourceObject × Session Ext → Result (Option SourceObject) × Session Ext
  missing_is_none (ok current, t) = (ok (some current), t)
  missing_is_none (err file_not_found, t) = (ok none, t)
  missing_is_none (err e, t) = (err e, t)

  -- `deletion_decision`. `available` is `self.cold.available()`.
  unfoldable pub deletion_decision :
      (World Ext → Result Bool × World Ext)
      → Appliance
      → DeletionRunUsage
      → DeletionLimits
      → DateTime
      → Action Ext GateDecision
  unfolding deletion_facts
  deletion_decision available a usage limits now = do
    item ← get_item
    found ← (λ s. missing_is_none (call (wf.adapters.stat item.source_identifier) s))
    facts ← (λ s.
        after (λ up t. (ok (deletion_facts s.world.files item found up a), t)) (call available s))
    pure (evaluate_deletion_gate facts usage limits item.original_size now)

  abbrev guard : ArchiveState → Value → Action Ext (Unit {0})
  guard target details = transition wf.re target "guard" details

  abbrev record_deletion : Action Ext (Unit {0})
  record_deletion = do
    now ← utcnow
    set_item (λ i. record i { deletion_timestamp = some now })
    guard deleted_from_source no_details
    guard archived (mapping (field "tombstone" (flag true) end))

  -- What is done with the answer of `self.source.delete`. `error_name` is `type(error).__name__`.
  unfoldable pub settle :
      (Error → String) → Result DeleteReceipt × Session Ext → Result (Unit {0}) × Session Ext
  settle error_name (err e, s) =
      if is_source_changed e
      then guard source_changed no_details s
      else guard manual_review (mapping (field "ambiguous_delete_error" (str (error_name e)) end)) s
  settle error_name (ok receipt, s) =
      if not receipt.confirmed_absent
      then guard manual_review
          (mapping (field "delete_result" (str "source presence ambiguous") end)) s
      else record_deletion s

  -- The transitions before the deletion, and their commit.
  unfoldable pub announce : Action Ext (Unit {0})
  announce = do
    when_state quarantined (guard ready_for_revalidation no_details)
    when_state ready_for_revalidation (guard ready_for_deletion no_details)
    guard deleting no_details
    commit

  unfoldable pub delete_at_source : Action Ext (Unit {0})
  delete_at_source = do
    item ← get_item
    (λ s.
        settle wf.error_name
          (call (wf.adapters.delete item.source_identifier item.source_version) s))

  abbrev if_unchanged : ArchiveItem → SourceObject → Action Ext (Unit {0})
  if_unchanged item current =
      if not (source_matches item current)
      then guard source_changed no_details
      else (announce >> delete_at_source)

  abbrev if_allowed : GateDecision → SourceCapabilities → Action Ext (Unit {0})
  if_allowed decision capabilities =
      if not capabilities.can_delete
      then raise (permission_error "source deletion is unavailable")
      else if not decision.allowed
      then raise (permission_error "deletion is blocked")
      else do
        item ← get_item
        current ← call (wf.adapters.stat item.source_identifier)
        if_unchanged item current

  -- `delete_test_item`. The texts of the blockers are not joined into the exception's.
  unfoldable pub delete_test_item : GateDecision → Action Ext (Unit {0})
  delete_test_item decision = do
    capabilities ← call wf.adapters.capabilities
    if_allowed decision capabilities
