-- ===== src/Domain/Workflow.antt =====
-- `ArchiveWorkflow` (src/mnema/domain/workflow.py): the steps of `archive`, in the
-- order of the source, each with the test that guards it.
pub mod Steps
pub mod Evidence
pub mod Verified
pub mod Sound
use Prim.Native.String.{◌++◌ as str_append}
use mnema.Prelude.{
  ℕ, ◌+◌, Bool, true, false, not, ◌&&◌, ◌||◌, Option, none, some, List, [], ◌∷◌, ◌++◌, ◌==◌,
  if◌then◌else◌, is_none, is_some, String, str_eq, DateTime, days,
}
use mnema.Security.Redaction.{Value, mapping, end, field, str, flag, null, Patterns}
use mnema.Runtime.Errors.{
  Error, source_changed_error, assertion_error, verification_failure, permission_error, unsafe_path,
  Result, ok, err, is_os_error, is_unsafe_path, is_source_changed, is_unsafe_path,
}
use mnema.Runtime.Files.{
  FilePath, Node, Files, Content, exists, is_symlink, content, has_size, write,
}
use mnema.Runtime.Session.{
  World, Session, Action, pure, raise, call, utcnow, get_item, set_item, commit, transition, catch,
  unlink, when_state, ◌>>=◌, ◌>>◌,
}
use mnema.Config.Settings.{SourcePolicy}
use mnema.Domain.States.{
  ArchiveState, eligible, queued, downloading, local_staged, local_verified, local_committed,
  local_backup_pending, local_backup_verified, cold_upload_pending, cold_uploaded, cold_verified,
  cold_archive_pending, cold_archived, quarantined, ready_for_revalidation, ready_for_deletion,
  deleting, deleted_from_source, archived, source_changed, failed_retryable, manual_review, member,
  state_eq,
}
use mnema.Domain.Source.{SourceCapabilities, SourceObject, DownloadReceipt, DeleteReceipt}
use mnema.Domain.Protocols.{BackupReceipt, ColdReceipt, Adapters, Workflow}
use mnema.Domain.Storage.{resolve_beneath}
use mnema.Jobs.Models.Archive.{ArchiveItem}
use mnema.Policies.Deletion.{GateDecision}
use mnema.Adapters.FileOps.{Host, CommitReceipt, sha256_file, hash_is, partial_path, commit_staged}

-- `f"item-{item.id}"`
abbrev pub item_key : (ℕ → String) → ℕ → String
item_key str_of id = str_append "item-" (str_of id)

abbrev pub no_details : Value
no_details = mapping end

module _ {Ext : Type 0} (wf : Workflow Ext) where
  abbrev pub move : ArchiveState → Action Ext (Unit {0})
  move target = transition wf.re target "worker" no_details

  unfoldable pub staged_path : ℕ → FilePath
  staged_path id = partial_path wf.str_of wf.staging_root id

  -- The states from which an item is queued again, and the first `if`.
  unfoldable pub queue_step : Action Ext (Unit {0})
  queue_step s =
      if member s.ledger.item.state
        (eligible ∷ source_changed ∷ failed_retryable ∷ manual_review ∷ [])
      then move queued s
      else (ok tt, s)

  unfoldable pub start_step : Action Ext (Unit {0})
  start_step = when_state queued (move downloading >> commit)

  -- A staged partial is removed only after the source has shown that it still has the object.
  unfoldable pub discard_partial : FilePath → ArchiveItem → Action Ext (Unit {0})
  discard_partial staged item s =
      if exists (s.world.files staged)
      then (do
        catch (call (wf.adapters.stat item.source_identifier) >>= λ found. pure tt) refuse
        unlink staged)
          s
      else (ok tt, s)
    where
      refuse : Error → Action Ext (Unit {0})
      refuse e =
          if is_os_error e || is_unsafe_path e
          then raise (
              verification_failure
                "staged partial cannot be re-downloaded from the source; refusing to discard it")
          else raise e

  -- The `try` around the download: true where `archive` goes on, false where it returns the item.
  unfoldable pub fetch : FilePath → ArchiveItem → Action Ext Bool
  fetch staged item =
      catch
        (do
          receipt ← call (wf.adapters.download item.source_identifier staged)
          set_item (λ i. record i { plaintext_sha256 = some receipt.sha256 })
          pure true)
        (λ e.
          if is_source_changed e
          then (do
            transition wf.re source_changed "worker" (mapping (field "stage" (str "download") end))
            commit
            pure false)
          else raise e)

  unfoldable pub download_body : Action Ext Bool
  download_body = do
    item ← get_item
    discard_partial (staged_path item.id) item
    fetched ← fetch (staged_path item.id) item
    (if fetched then (move local_staged >> commit >> pure true) else pure false)

  unfoldable pub download_step : Action Ext Bool
  download_step s =
      if state_eq s.ledger.item.state downloading then download_body s else (ok true, s)

  abbrev hash_matches : Result String → Option String → Result Bool
  hash_matches (err e) expected = err e
  hash_matches (ok hash) none = ok false
  hash_matches (ok hash) (some expected) = ok (str_eq hash expected)

  -- `sha256_file(path) == expected`, which raises where the file cannot be read.
  abbrev file_hash_is : FilePath → Option String → Action Ext Bool
  file_hash_is path expected s =
      (hash_matches (sha256_file wf.host (s.world.files path)) expected, s)

  abbrev require : Bool → Error → Action Ext (Unit {0})
  require b e = if b then pure tt else raise e

  unfoldable pub verify_body : Action Ext (Unit {0})
  unfolding staged_path
  verify_body = do
    item ← get_item
    same ← file_hash_is (staged_path item.id) item.plaintext_sha256
    require same (verification_failure "staged copy hash mismatch")
    move local_verified
    commit

  abbrev lift : {A : Type 0} → Result A → Action Ext A
  lift r s = (r, s)

  -- The branch of a source that lies in active storage: the file is adopted where it is.
  unfoldable pub adopt : ArchiveItem → String → Action Ext (FilePath × Option String)
  unfolding staged_path
  adopt item sha256 s =
      (do
        active ←
            lift (resolve_beneath wf.host.lib s.world.files wf.active_root item.original_path true)
        require (is_some (content (s.world.files active)))
            (verification_failure "active source must be a regular non-symlink file")
        require (has_size (s.world.files active) item.original_size)
            (verification_failure "active source size changed before adoption")
        same ← file_hash_is active (some sha256)
        require same (verification_failure "active source hash changed before adoption")
        unlink (staged_path item.id)
        pure (active, none))
        s

  -- The other branch: the staged file is committed to active storage.
  unfoldable pub commit_active : ArchiveItem → String → Action Ext (FilePath × Option String)
  unfolding staged_path
  commit_active item sha256 s =
      let (r, files) =
        commit_staged wf.host s.world.files (staged_path item.id) wf.active_root item.original_path
          sha256 item.original_size in
      let t = record s { world = record (s.world) { files = files } } in
      elim r [ ok c ↦ (ok (c.path, c.transformed_from), t) | err e ↦ (err e, t) ]

  abbrev expect : Option String → Action Ext String
  expect none = raise assertion_error
  expect (some v) = pure v

  abbrev pub text_or_null : Option String → Value
  text_or_null none = null
  text_or_null (some t) = str t

  unfoldable pub place : ArchiveItem → String → Action Ext (FilePath × Option String)
  place item sha256 = if wf.source_is_active then adopt item sha256 else commit_active item sha256

  unfoldable pub commit_body : Action Ext (Unit {0})
  commit_body = do
    item ← get_item
    sha256 ← expect item.plaintext_sha256
    placed ← place item sha256
    now ← utcnow
    set_item (λ i. record i { nas_path = some (wf.text_of placed.0); nas_verified_at = some now })
    transition wf.re local_committed "worker"
        (mapping (field "filename_transformed_from" (text_or_null placed.1) end))
    commit

  unfoldable pub backup_body : Action Ext (Unit {0})
  backup_body = do
    item ← get_item
    nas_path ← expect item.nas_path
    sha256 ← expect item.plaintext_sha256
    receipt ← call (wf.adapters.snapshot (wf.path_of nas_path) (item_key wf.str_of item.id))
    verified ← call (wf.adapters.verify_backup receipt sha256)
    require verified (verification_failure "independent local backup restore verification failed")
    now ← utcnow
    set_item (λ i. record i {
      kopia_snapshot_id = some receipt.snapshot_id;
      kopia_verified_at = some now;
    })
    move local_backup_verified
    commit

  -- `_record_cold_receipt`
  unfoldable pub record_cold_receipt : DateTime → ColdReceipt → ArchiveItem → ArchiveItem
  record_cold_receipt now receipt i = record i {
    remote_provider = some receipt.provider;
    remote_bucket = some receipt.bucket;
    remote_object_identifier = some receipt.object_identifier;
    encryption_mode = some receipt.encryption_mode;
    remote_size = some receipt.remote_size;
    remote_checksum = receipt.remote_checksum;
    uploaded_at = some now;
  }

  unfoldable pub upload_body : Action Ext (Unit {0})
  unfolding record_cold_receipt
  upload_body = do
    item ← get_item
    nas_path ← expect item.nas_path
    sha256 ← expect item.plaintext_sha256
    receipt ←
        call
          (wf.adapters.upload (wf.path_of nas_path) item.original_path (item_key wf.str_of item.id))
    now ← utcnow
    set_item (record_cold_receipt now receipt)
    move cold_uploaded
    commit

  abbrev receipt_parts :
      Option String
      → Option String
      → Option String
      → Option String
      → Option ℕ
      → Option String
      → Result ColdReceipt
  receipt_parts (some p) (some b) (some o) (some m) (some n) checksum = ok (record {
    provider = p;
    bucket = b;
    object_identifier = o;
    encryption_mode = m;
    remote_size = n;
    remote_checksum = checksum;
  })
  receipt_parts _ _ _ _ _ checksum = err (verification_failure "remote receipt is incomplete")

  -- `_cold_receipt`
  unfoldable pub cold_receipt : ArchiveItem → Result ColdReceipt
  cold_receipt i =
      receipt_parts i.remote_provider i.remote_bucket i.remote_object_identifier i.encryption_mode
        i.remote_size i.remote_checksum

  unfoldable pub cold_verify_body : Action Ext (Unit {0})
  cold_verify_body = do
    item ← get_item
    sha256 ← expect item.plaintext_sha256
    receipt ← lift (cold_receipt item)
    verified ← call (wf.adapters.verify_cold receipt sha256)
    require verified (verification_failure "independent remote restore verification failed")
    now ← utcnow
    set_item (λ i. record i {
      remote_verified_at = some now;
      remote_verification_method = some "download-decrypt-sha256";
    })
    move cold_verified
    commit

  unfoldable pub cold_archive_body : Action Ext (Unit {0})
  cold_archive_body = do
    item ← get_item
    receipt ← lift (cold_receipt item)
    call (wf.adapters.archive_verified receipt)
    now ← utcnow
    set_item (λ i. record i { cold_archived_at = some now })
    move cold_archived
    commit

  unfoldable pub quarantine_body : Action Ext (Unit {0})
  quarantine_body = do
    now ← utcnow
    set_item (λ i. record i { quarantine_expires_at = some (now + days wf.policy.quarantine_days) })
    move quarantined
    commit

  -- The part of `archive` below the download.
  unfoldable pub archive_tail : Action Ext (Unit {0})
  archive_tail = do
    when_state local_staged verify_body
    when_state local_verified commit_body
    when_state local_committed (move local_backup_pending >> commit)
    when_state local_backup_pending backup_body
    when_state local_backup_verified (move cold_upload_pending >> commit)
    when_state cold_upload_pending upload_body
    when_state cold_uploaded cold_verify_body
    when_state cold_verified (move cold_archive_pending >> commit)
    when_state cold_archive_pending cold_archive_body
    when_state cold_archived quarantine_body

  -- `archive`
  unfoldable pub archive : Action Ext (Unit {0})
  archive = do
    queue_step
    start_step
    goes_on ← download_step
    (if goes_on then archive_tail else pure tt)
