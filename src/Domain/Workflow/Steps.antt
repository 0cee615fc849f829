-- ===== src/Domain/Workflow/Steps.antt =====
-- What each step of `archive` (workflow.py) does to the item's rows: where it raises, nothing; where
-- it returns, one transition, committed, and the columns of its stage.
use mnema.Prelude.{String, ◌≡◌, true, false, Option-cases, some, is_some, inl, inr, arith}
use mnema.Security.Redaction.{Value, mapping, field, end, str}
use mnema.Runtime.Errors.{Error, ok, err, Result-cases}
use mnema.Runtime.Session.{Session}
use mnema.Domain.States.{
  ArchiveState, validate_transition, downloading, local_staged, local_verified, local_committed,
  local_backup_pending, local_backup_verified, cold_upload_pending, cold_uploaded, cold_verified,
  cold_archive_pending, cold_archived, quarantined, source_changed,
}
use mnema.Runtime.Files.{FilePath}
use mnema.Jobs.Models.Archive.{ArchiveItem}
use mnema.Jobs.StateService.{transition_item}
use mnema.Domain.Protocols.{Workflow}
use mnema.Domain.Workflow.{
  no_details, text_or_null, adopt, commit_active, place, discard_partial, fetch, staged_path,
  download_body, verify_body, commit_body, backup_body, upload_body, cold_verify_body,
  cold_archive_body, quarantine_body,
}

module _ {Ext : Type 0} (wf : Workflow Ext) where
  abbrev pub IsUnchanged : Session Ext → Session Ext → Type 0
  IsUnchanged s t = (t.ledger ≡ s.ledger) × (t.saved ≡ s.saved)

  -- One transition of an item that was in the state of `s`, and a commit after it.
  abbrev pub IsAdvanced : Session Ext → Session Ext → ArchiveState → Value → Type 0
  IsAdvanced s t target details =
      (t.saved ≡ t.ledger)
      × (transition_item wf.re
            (record {
              item = record (t.ledger.item) { state = s.ledger.item.state };
              events = s.ledger.events;
            })
            target "worker" details
          ≡ some t.ledger)

  pub verify-err :
      (s : Session Ext) {e : Error} {t : Session Ext}
      → s.ledger.item.state ≡ local_staged
      → verify_body wf s ≡ (err e, t)
      → IsUnchanged s t
  unfolding verify_body transition_item validate_transition
  verify-err s {e} {t} at h = ground arith

  pub verify-ok :
      (s : Session Ext) {t : Session Ext}
      → s.ledger.item.state ≡ local_staged
      → verify_body wf s ≡ (ok tt, t)
      → IsAdvanced s t local_verified no_details
        × (t.ledger.item ≡ record (s.ledger.item) { state = local_verified })
  unfolding verify_body transition_item validate_transition
  verify-ok s {t} at h = ground arith

  pub backup-err :
      (s : Session Ext) {e : Error} {t : Session Ext}
      → s.ledger.item.state ≡ local_backup_pending
      → backup_body wf s ≡ (err e, t)
      → IsUnchanged s t
  unfolding backup_body transition_item validate_transition
  backup-err s {e} {t} at h = ground arith

  pub backup-ok :
      (s : Session Ext) {t : Session Ext}
      → s.ledger.item.state ≡ local_backup_pending
      → backup_body wf s ≡ (ok tt, t)
      → IsAdvanced s t local_backup_verified no_details
        × (is_some t.ledger.item.kopia_snapshot_id ≡ true)
        × (is_some t.ledger.item.kopia_verified_at ≡ true)
        × (t.ledger.item ≡ record (s.ledger.item) {
          kopia_snapshot_id = t.ledger.item.kopia_snapshot_id;
          kopia_verified_at = t.ledger.item.kopia_verified_at;
          state = local_backup_verified;
        })
  unfolding backup_body transition_item validate_transition
  backup-ok s {t} at h = ground arith

  pub upload-err :
      (s : Session Ext) {e : Error} {t : Session Ext}
      → s.ledger.item.state ≡ cold_upload_pending
      → upload_body wf s ≡ (err e, t)
      → IsUnchanged s t
  unfolding upload_body transition_item validate_transition
  upload-err s {e} {t} at h = ground arith

  pub upload-ok :
      (s : Session Ext) {t : Session Ext}
      → s.ledger.item.state ≡ cold_upload_pending
      → upload_body wf s ≡ (ok tt, t)
      → IsAdvanced s t cold_uploaded no_details
        × (is_some t.ledger.item.remote_provider ≡ true)
        × (is_some t.ledger.item.remote_bucket ≡ true)
        × (is_some t.ledger.item.remote_object_identifier ≡ true)
        × (is_some t.ledger.item.encryption_mode ≡ true)
        × (is_some t.ledger.item.remote_size ≡ true)
        × (is_some t.ledger.item.uploaded_at ≡ true)
        × (t.ledger.item ≡ record (s.ledger.item) {
          remote_provider = t.ledger.item.remote_provider;
          remote_bucket = t.ledger.item.remote_bucket;
          remote_object_identifier = t.ledger.item.remote_object_identifier;
          encryption_mode = t.ledger.item.encryption_mode;
          remote_size = t.ledger.item.remote_size;
          uploaded_at = t.ledger.item.uploaded_at;
          remote_checksum = t.ledger.item.remote_checksum;
          state = cold_uploaded;
        })
  unfolding upload_body transition_item validate_transition
  upload-ok s {t} at h = ground arith

  pub cold_verify-err :
      (s : Session Ext) {e : Error} {t : Session Ext}
      → s.ledger.item.state ≡ cold_uploaded
      → cold_verify_body wf s ≡ (err e, t)
      → IsUnchanged s t
  unfolding cold_verify_body transition_item validate_transition
  cold_verify-err s {e} {t} at h = ground arith

  pub cold_verify-ok :
      (s : Session Ext) {t : Session Ext}
      → s.ledger.item.state ≡ cold_uploaded
      → cold_verify_body wf s ≡ (ok tt, t)
      → IsAdvanced s t cold_verified no_details
        × (is_some t.ledger.item.remote_verified_at ≡ true)
        × (is_some t.ledger.item.remote_verification_method ≡ true)
        × (t.ledger.item ≡ record (s.ledger.item) {
          remote_verified_at = t.ledger.item.remote_verified_at;
          remote_verification_method = t.ledger.item.remote_verification_method;
          state = cold_verified;
        })
  unfolding cold_verify_body transition_item validate_transition
  cold_verify-ok s {t} at h = ground arith

  pub cold_archive-err :
      (s : Session Ext) {e : Error} {t : Session Ext}
      → s.ledger.item.state ≡ cold_archive_pending
      → cold_archive_body wf s ≡ (err e, t)
      → IsUnchanged s t
  unfolding cold_archive_body transition_item validate_transition
  cold_archive-err s {e} {t} at h = ground arith

  pub cold_archive-ok :
      (s : Session Ext) {t : Session Ext}
      → s.ledger.item.state ≡ cold_archive_pending
      → cold_archive_body wf s ≡ (ok tt, t)
      → IsAdvanced s t cold_archived no_details
        × (is_some t.ledger.item.cold_archived_at ≡ true)
        × (t.ledger.item ≡ record (s.ledger.item) {
          cold_archived_at = t.ledger.item.cold_archived_at;
          state = cold_archived;
        })
  unfolding cold_archive_body transition_item validate_transition
  cold_archive-ok s {t} at h = ground arith

  pub quarantine-err :
      (s : Session Ext) {e : Error} {t : Session Ext}
      → s.ledger.item.state ≡ cold_archived
      → quarantine_body wf s ≡ (err e, t)
      → IsUnchanged s t
  unfolding quarantine_body transition_item validate_transition
  quarantine-err s {e} {t} at h = ground arith

  pub quarantine-ok :
      (s : Session Ext) {t : Session Ext}
      → s.ledger.item.state ≡ cold_archived
      → quarantine_body wf s ≡ (ok tt, t)
      → IsAdvanced s t quarantined no_details
        × (is_some t.ledger.item.quarantine_expires_at ≡ true)
        × (t.ledger.item ≡ record (s.ledger.item) {
          quarantine_expires_at = t.ledger.item.quarantine_expires_at;
          state = quarantined;
        })
  unfolding quarantine_body transition_item validate_transition
  quarantine-ok s {t} at h = ground arith

  adopt-keeps :
      (item : ArchiveItem) (sha : String) (s : Session Ext) → IsUnchanged s (adopt wf item sha s).1
  unfolding adopt
  adopt-keeps item sha s = ground arith

  place-keeps :
      (item : ArchiveItem) (sha : String) (s : Session Ext) → IsUnchanged s (place wf item sha s).1
  unfolding place commit_active
  place-keeps item sha s = ground (arith, adopt-keeps item sha s)

  pub commit-err :
      (s : Session Ext) {e : Error} {t : Session Ext}
      → s.ledger.item.state ≡ local_verified
      → commit_body wf s ≡ (err e, t)
      → IsUnchanged s t
  unfolding commit_body transition_item validate_transition
  commit-err s {e} {t} at h = elim (Option-cases s.ledger.item.plaintext_sha256) [
    | inl missing ↦ ground arith
    | inr (sha, found) ↦ ground (arith, place-keeps s.ledger.item sha s)
  ]

  abbrev pub IsCommitted : Session Ext → Session Ext → Value → Type 0
  IsCommitted s t details =
      IsAdvanced s t local_committed details
      × (is_some t.ledger.item.nas_path ≡ true)
      × (is_some t.ledger.item.nas_verified_at ≡ true)
      × (t.ledger.item ≡ record (s.ledger.item) {
        nas_path = t.ledger.item.nas_path;
        nas_verified_at = t.ledger.item.nas_verified_at;
        state = local_committed;
      })

  pub commit-ok :
      (s : Session Ext) {t : Session Ext}
      → s.ledger.item.state ≡ local_verified
      → commit_body wf s ≡ (ok tt, t)
      → (details : Value) × IsCommitted s t details
  unfolding commit_body transition_item validate_transition
  commit-ok s {t} at h = elim (Option-cases s.ledger.item.plaintext_sha256) [
    | inl missing ↦ absurd (ground arith)
    | inr (sha, found) ↦ elim (Result-cases (place wf s.ledger.item sha s).0) [
      | inl (e, failed) ↦ absurd (ground arith)
      | inr (placed, succeeded) ↦ (
        mapping (field "filename_transformed_from" (text_or_null wf placed.1) end),
        ground (arith, place-keeps s.ledger.item sha s),
      )
    ]
  ]

  discard-keeps :
      (staged : FilePath) (item : ArchiveItem) (s : Session Ext)
      → IsUnchanged s (discard_partial wf staged item s).1
  unfolding discard_partial
  discard-keeps staged item s = ground arith

  pub fetch-err :
      (staged : FilePath) (item : ArchiveItem) (s : Session Ext) {e : Error} {t : Session Ext}
      → s.ledger.item.state ≡ downloading
      → fetch wf staged item s ≡ (err e, t)
      → IsUnchanged s t
  unfolding fetch transition_item validate_transition
  fetch-err staged item s {e} {t} at h = ground arith

  abbrev pub changed_details : Value
  changed_details = mapping (field "stage" (str "download") end)

  pub fetch-false :
      (staged : FilePath) (item : ArchiveItem) (s : Session Ext) {t : Session Ext}
      → s.ledger.item.state ≡ downloading
      → fetch wf staged item s ≡ (ok false, t)
      → IsAdvanced s t source_changed changed_details
        × (t.ledger.item ≡ record (s.ledger.item) { state = source_changed })
  unfolding fetch transition_item validate_transition
  fetch-false staged item s {t} at h = ground arith

  pub fetch-true :
      (staged : FilePath) (item : ArchiveItem) (s : Session Ext) {t : Session Ext}
      → fetch wf staged item s ≡ (ok true, t)
      → (t.saved ≡ s.saved)
        × (t.ledger.events ≡ s.ledger.events)
        × (is_some t.ledger.item.plaintext_sha256 ≡ true)
        × (t.ledger.item
            ≡ record (s.ledger.item) { plaintext_sha256 = t.ledger.item.plaintext_sha256 })
  unfolding fetch
  fetch-true staged item s {t} h = ground arith

  abbrev pub IsStaged : Session Ext → Session Ext → Type 0
  IsStaged s t =
      IsAdvanced s t local_staged no_details
      × (is_some t.ledger.item.plaintext_sha256 ≡ true)
      × (t.ledger.item ≡ record (s.ledger.item) {
        plaintext_sha256 = t.ledger.item.plaintext_sha256;
        state = local_staged;
      })

  abbrev after_discard : Session Ext → Session Ext
  after_discard s = (discard_partial wf (staged_path wf s.ledger.item.id) s.ledger.item s).1

  abbrev after_fetch : Session Ext → Session Ext
  after_fetch s = (fetch wf (staged_path wf s.ledger.item.id) s.ledger.item (after_discard s)).1

  pub download-err :
      (s : Session Ext) {e : Error} {t : Session Ext}
      → s.ledger.item.state ≡ downloading
      → download_body wf s ≡ (err e, t)
      → IsUnchanged s t
  unfolding download_body transition_item validate_transition
  download-err s {e} {t} at h = ground (
    arith,
    discard-keeps (staged_path wf s.ledger.item.id) s.ledger.item s,
    fetch-err (staged_path wf s.ledger.item.id) s.ledger.item (after_discard s) {e = e}
        {t = after_fetch s},
    fetch-true (staged_path wf s.ledger.item.id) s.ledger.item (after_discard s)
        {t = after_fetch s},
  )

  pub download-true :
      (s : Session Ext) {t : Session Ext}
      → s.ledger.item.state ≡ downloading
      → download_body wf s ≡ (ok true, t)
      → IsStaged s t
  unfolding download_body transition_item validate_transition
  download-true s {t} at h = ground (
    arith,
    discard-keeps (staged_path wf s.ledger.item.id) s.ledger.item s,
    fetch-true (staged_path wf s.ledger.item.id) s.ledger.item (after_discard s)
        {t = after_fetch s},
  )

  pub download-false :
      (s : Session Ext) {t : Session Ext}
      → s.ledger.item.state ≡ downloading
      → download_body wf s ≡ (ok false, t)
      → IsAdvanced s t source_changed changed_details
        × (t.ledger.item ≡ record (s.ledger.item) { state = source_changed })
  unfolding download_body transition_item validate_transition
  download-false s {t} at h = ground (
    arith,
    discard-keeps (staged_path wf s.ledger.item.id) s.ledger.item s,
    fetch-false (staged_path wf s.ledger.item.id) s.ledger.item (after_discard s)
        {t = after_fetch s},
  )
