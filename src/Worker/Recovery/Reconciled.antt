-- ===== src/Worker/Recovery/Reconciled.antt =====
-- What holds of the items after a restart (recovery.py).
use mnema.Prelude.{
  ◌+◌, ◌≡◌, Bool, true, false, not, ◌&&◌, List, [], ◌∷◌, length, ◌==◌, if◌then◌else◌, str_eq,
}
use mnema.Domain.States.{
  ArchiveState, deleting, downloading, restoring, local_backup_pending, cold_upload_pending,
  cold_archive_pending, manual_review, failed_retryable,
}
use mnema.Jobs.Models.Archive.{ArchiveItem}
use mnema.Jobs.Models.FileProvider.{FileProviderUpload, open_, sealing}
use mnema.Jobs.StateService.{Ledger}

-- Can a phone still send the bytes of the item, which come over HTTP?
abbrev pub expects_client : List FileProviderUpload → ArchiveItem → Bool
expects_client [] item = false
expects_client (upload ∷ uploads) item =
    let rest = expects_client uploads item in
    if upload.archive_item_id == item.id
    then str_eq item.source_provider "file_provider_upload"
      && (elim upload.status [ open_ ↦ true | sealing ↦ true | _ ↦ false ])
    else rest

-- The state in which a restart leaves an item.
abbrev pub restarted : List FileProviderUpload → ArchiveItem → ArchiveState
restarted uploads item = elim item.state [
  | deleting ↦ manual_review
  | downloading ↦ if expects_client uploads item then downloading else failed_retryable
  | restoring ↦ if expects_client uploads item then restoring else failed_retryable
  | s ↦ s
]

-- Does a restart write an entry to the audit trail of the item?
abbrev pub is_interrupted : List FileProviderUpload → ArchiveItem → Bool
is_interrupted uploads item = elim item.state [
  | deleting ↦ true
  | downloading ↦ not (expects_client uploads item)
  | restoring ↦ not (expects_client uploads item)
  | local_backup_pending ↦ true
  | cold_upload_pending ↦ true
  | cold_archive_pending ↦ true
  | s ↦ false
]

-- The rows are those of the same items in the same order: each item changed in its state alone, and its
-- trail, to which one entry is added if it was interrupted.
abbrev pub AllReconciled : List FileProviderUpload → List Ledger → List Ledger → Type 0
AllReconciled uploads [] [] = Unit
AllReconciled uploads [] (m ∷ ms) = ⊥
AllReconciled uploads (l ∷ ls) [] = ⊥
AllReconciled uploads (l ∷ ls) (m ∷ ms) =
    (m.item ≡ record (l.item) { state = restarted uploads l.item })
    × (length m.events ≡ length l.events + (if is_interrupted uploads l.item then 1 else 0))
    × AllReconciled uploads ls ms
