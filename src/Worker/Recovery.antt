-- ===== src/Worker/Recovery.antt =====
-- What a restart does with interrupted items (src/mnema/worker/recovery.py). The rows of an item are
-- its row and its audit events; the session's block commits them together.
pub mod Reconciled
use mnema.Prelude.{
  ℕ, zero, suc, ◌+◌, Bool, true, false, not, ◌&&◌, ◌||◌, Option, none, some, List, [], ◌∷◌, ◌++◌,
  find, ◌==◌, if◌then◌else◌, String, str_eq,
}
use mnema.Security.Redaction.{Value, mapping, field, end, str, Patterns}
use mnema.Domain.States.{
  ArchiveState, deleting, downloading, restoring, local_backup_pending, cold_upload_pending,
  cold_archive_pending, manual_review, failed_retryable, state_eq, member,
}
use mnema.Jobs.Models.Archive.{ArchiveItem, AuditEvent}
use mnema.Jobs.Models.FileProvider.{
  FileProviderUpload, FileProviderUploadStatus, open_, sealing, upload_status_eq,
}
use mnema.Jobs.StateService.{Ledger, transition_item}

abbrev pub retry_after_restart : List ArchiveState
retry_after_restart = downloading ∷ restoring ∷ []

abbrev pub resume_in_place : List ArchiveState
resume_in_place = local_backup_pending ∷ cold_upload_pending ∷ cold_archive_pending ∷ []

-- `upload.status in _LIVE_UPLOAD_STATES`
abbrev pub is_live : FileProviderUploadStatus → Bool
is_live status = upload_status_eq status open_ || upload_status_eq status sealing

abbrev live_upload : Option FileProviderUpload → Bool
live_upload none = false
live_upload (some upload) = is_live upload.status

-- `_awaiting_client_upload`
unfoldable pub awaiting_client_upload : List FileProviderUpload → ArchiveItem → Bool
awaiting_client_upload uploads item =
    str_eq item.source_provider "file_provider_upload"
    && live_upload (find (λ u. u.archive_item_id == item.id) uploads)

abbrev pub reason : String → Value
reason text = mapping (field "reason" (str text) end)

unfoldable pub resumed_event : ArchiveItem → AuditEvent
resumed_event item = record {
  archive_item_id = some item.id;
  event_type = "interrupted_step_resumed";
  from_state = some item.state;
  to_state = some item.state;
  actor = "startup-recovery";
  details = reason "step interrupted by restart; resuming in place";
}

-- Is the row one of `items`?
unfoldable pub is_selected : Bool → ArchiveState → Bool
is_selected only_deletions state =
    state_eq state deleting
    || not only_deletions && (member state retry_after_restart || member state resume_in_place)

abbrev counted : Option Ledger → Option (Ledger × ℕ)
counted none = none
counted (some m) = some (m, 1)

-- The body of the loop: the rows that it leaves and whether it counted them. `none` is an exception.
unfoldable pub reconcile_item : Patterns → List FileProviderUpload → Ledger → Option (Ledger × ℕ)
unfolding resumed_event
reconcile_item re uploads l =
    if state_eq l.item.state deleting
    then counted (
        transition_item re l manual_review "startup-recovery"
          (reason "deletion result unknown after restart"))
    else if member l.item.state resume_in_place
    then some (record l { events = l.events ++ resumed_event l.item ∷ [] }, 1)
    else if awaiting_client_upload uploads l.item
    then some (l, 0)
    else counted (
        transition_item re l failed_retryable "startup-recovery"
          (reason "transfer interrupted by restart; retrying from source"))

abbrev add_row : Ledger → ℕ → Option (ℕ × List Ledger) → Option (ℕ × List Ledger)
add_row l n none = none
add_row l n (some (total, rows)) = some (n + total, l ∷ rows)

-- `reconcile_interrupted_items`, over all rows: those that the query does not select stay.
unfoldable pub reconcile_interrupted_items :
    Patterns → Bool → List FileProviderUpload → List Ledger → Option (ℕ × List Ledger)
reconcile_interrupted_items re only_deletions uploads [] = some (0, [])
reconcile_interrupted_items re only_deletions uploads (l ∷ rows) =
    let rest = reconcile_interrupted_items re only_deletions uploads rows in
    if is_selected only_deletions l.item.state
    then elim (reconcile_item re uploads l) [ none ↦ none | some (m, n) ↦ add_row m n rest ]
    else add_row l 0 rest
