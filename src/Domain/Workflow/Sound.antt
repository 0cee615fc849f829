-- ===== src/Domain/Workflow/Sound.antt =====
-- `archive` (workflow.py) keeps the evidence and the audit trail of an item, however it ends: in
-- the rows at hand, and in those that were committed, which a later run finds after an exception.
use mnema.Prelude.{
  ◌≡◌, refl, Bool, String, true, false, Option, none, some, [], ◌∷◌, inl, inr, Bool-cases,
  if◌then◌else◌, arith,
}
use mnema.Security.Redaction.{Value}
use mnema.Runtime.Errors.{Error, Result, ok, err}
use mnema.Runtime.Session.{
  World, Session, Action, pure, commit, when_state, noted, after, ◌>>=◌, ◌>>◌,
}
use mnema.Domain.States.{
  ArchiveState, state_eq, state_eq_iff, member, eligible, queued, downloading, local_staged,
  local_verified, local_committed, local_backup_pending, local_backup_verified, cold_upload_pending,
  cold_uploaded, cold_verified, cold_archive_pending, cold_archived, quarantined, source_changed,
  failed_retryable, manual_review,
}
use mnema.Jobs.StateService.{Ledger, transition_item}
use mnema.Jobs.StateService.Trail.{IsAudited, transition_item-IsAudited}
use mnema.Domain.Protocols.{BackupReceipt, ColdReceipt, Workflow}
use mnema.Domain.Workflow.{
  no_details, move, queue_step, start_step, download_step, download_body, verify_body, commit_body,
  backup_body, upload_body, cold_verify_body, cold_archive_body, quarantine_body, archive_tail,
  archive,
}
use mnema.Domain.Workflow.Steps
use mnema.Domain.Workflow.Steps.{IsUnchanged, IsAdvanced}
use mnema.Domain.Workflow.Evidence
use mnema.Domain.Workflow.Evidence.{Copies, holds, HasEvidence}
use mnema.Domain.Workflow.Verified

pub record IsVouched (o : Copies) (l : Ledger) : Type 0 where
  pub evidence : HasEvidence o l.item
  pub audited : IsAudited l

pub record IsSound {Ext : Type 0} (o : Copies) (s : Session Ext) : Type 0 where
  pub at_hand : IsVouched o s.ledger
  pub committed : IsVouched o s.saved

module _ {Ext : Type 0} (wf : Workflow Ext) (o : Copies)
    (restored : (receipt : BackupReceipt) (sha256 : String) (w : World Ext)
      → (wf.adapters.verify_backup receipt sha256 w).0 ≡ ok true
      → o.restores receipt.snapshot_id sha256 ≡ true)
    (decrypted : (receipt : ColdReceipt) (sha256 : String) (w : World Ext)
      → (wf.adapters.verify_cold receipt sha256 w).0 ≡ ok true
      → o.decrypts receipt.object_identifier sha256 ≡ true) where
  unchanged-IsSound : (s t : Session Ext) → IsSound o s → IsUnchanged wf s t → IsSound o t
  unchanged-IsSound s t h (same, same_saved) = record {
    at_hand = rw same h.at_hand;
    committed = rw same_saved h.committed;
  }

  advanced-IsSound :
      (s t : Session Ext) (target : ArchiveState) (details : Value)
      → IsSound o s
      → IsAdvanced wf s t target details
      → HasEvidence o t.ledger.item
      → IsSound o t
  advanced-IsSound s t target details h (saved, moved) e =
      let mid : Ledger = record {
        item = record (t.ledger.item) { state = s.ledger.item.state };
        events = s.ledger.events;
      } in
      let trail =
        transition_item-IsAudited wf.re mid target "worker" details h.at_hand.audited moved in
      let now : IsVouched o t.ledger = record { evidence = e; audited = trail } in
      record { at_hand = now; committed = rw saved now }

  abbrev Keeps : {A : Type 0} → Action Ext A → Type 0
  Keeps m = (s : Session Ext) → IsSound o s → IsSound o (m s).1

  abbrev KeepsAt : {A : Type 0} → ArchiveState → Action Ext A → Type 0
  KeepsAt state m =
      (s : Session Ext) → s.ledger.item.state ≡ state → IsSound o s → IsSound o (m s).1

  after-Keeps :
      {A B : Type 0} (k : A → Action Ext B) (r : Result A × Session Ext)
      → ((a : A) → Keeps (k a))
      → IsSound o r.1
      → IsSound o (after k r).1
  after-Keeps k (ok a, t) keeps sound = keeps a t sound
  after-Keeps k (err e, t) keeps sound = sound

  then-Keeps : (m k : Action Ext (Unit {0})) → Keeps m → Keeps k → Keeps (m >> k)
  then-Keeps m k keeps_m keeps_k s h = after-Keeps (λ u. k) (m s) (λ u. keeps_k) (keeps_m s h)

  when-Keeps :
      (state : ArchiveState) (body : Action Ext (Unit {0}))
      → KeepsAt state body
      → Keeps (when_state state body)
  when-Keeps state body keeps s h = elim (Bool-cases (state_eq s.ledger.item.state state)) [
    | inl here ↦ rw here (keeps s ((state_eq_iff s.ledger.item.state state).0 here) h)
    | inr away ↦ rw away h
  ]

  -- A step that changes no row where it raises, and is sound where it returns.
  step-Keeps :
      (state : ArchiveState) (body : Action Ext (Unit {0}))
      → ((s : Session Ext) (e : Error) (t : Session Ext)
          → s.ledger.item.state ≡ state
          → body s ≡ (err e, t)
          → IsUnchanged wf s t)
      → ((s t : Session Ext)
          → s.ledger.item.state ≡ state
          → IsSound o s
          → body s ≡ (ok tt, t)
          → IsSound o t)
      → KeepsAt state body
  step-Keeps state body fails succeeds s at h = go (body s) refl
    where
      go : (r : Result (Unit {0}) × Session Ext) → body s ≡ r → IsSound o r.1
      go (err e, t) eq = unchanged-IsSound s t h (fails s e t at eq)
      go (ok u, t) eq = succeeds s t at h eq

  moved_item :
      (l : Ledger) (target : ArchiveState) {l' : Ledger}
      → transition_item wf.re l target "worker" no_details ≡ some l'
      → l'.item ≡ record (l.item) { state = target }
  unfolding transition_item
  moved_item l target {l'} h = ground arith

  -- A bare transition, and one with a commit, where the item already has the target's evidence.
  move-IsSound :
      (target : ArchiveState) (s : Session Ext)
      → IsSound o s
      → HasEvidence o (record (s.ledger.item) { state = target })
      → IsSound o (move wf target s).1
  move-IsSound target s h e = go (transition_item wf.re s.ledger target "worker" no_details) refl
    where
      go :
          (answer : Option Ledger)
          → transition_item wf.re s.ledger target "worker" no_details ≡ answer
          → IsSound o (noted s answer).1
      go none eq = h
      go (some l) eq = record {
        at_hand = record {
          evidence = rw (moved_item s.ledger target eq) e;
          audited =
              transition_item-IsAudited wf.re s.ledger target "worker" no_details h.at_hand.audited
                eq;
        };
        committed = h.committed;
      }

  commit-IsSound : (s : Session Ext) → IsSound o s → IsSound o (commit s).1
  commit-IsSound s h = record { at_hand = h.at_hand; committed = h.at_hand }

  move-commit-IsSound :
      (target : ArchiveState) (s : Session Ext)
      → IsSound o s
      → HasEvidence o (record (s.ledger.item) { state = target })
      → IsSound o ((move wf target >> commit) s).1
  move-commit-IsSound target s h e =
      after-Keeps (λ u. commit) (move wf target s) (λ u. commit-IsSound) (move-IsSound target s h e)

  queue-Keeps : Keeps (queue_step wf)
  unfolding queue_step
  queue-Keeps s h =
      elim (Bool-cases (
        member s.ledger.item.state
          (eligible ∷ source_changed ∷ failed_retryable ∷ manual_review ∷ []))) [
            | inl waits ↦
                rw waits (move-IsSound queued s h (Evidence.off_line-HasEvidence o _ refl))
            | inr stays ↦ rw stays h
          ]

  start-Keeps : Keeps (start_step wf)
  unfolding start_step
  start-Keeps =
      when-Keeps queued (move wf downloading >> commit)
        (λ s at h. move-commit-IsSound downloading s h (Evidence.off_line-HasEvidence o _ refl))

  verify-Keeps : KeepsAt local_staged (verify_body wf)
  verify-Keeps =
      step-Keeps local_staged (verify_body wf) (λ s e t. Steps.verify-err wf s)
        (λ s t at h eq.
          let (moved, row) = Steps.verify-ok wf s at eq in
          advanced-IsSound s t local_verified no_details h moved
            (Evidence.verified-HasEvidence o s.ledger.item t.ledger.item h.at_hand.evidence at row))

  commit_body-Keeps : KeepsAt local_verified (commit_body wf)
  commit_body-Keeps =
      step-Keeps local_verified (commit_body wf) (λ s e t. Steps.commit-err wf s)
        (λ s t at h eq.
          let (details, (moved, path, time, row)) = Steps.commit-ok wf s at eq in
          advanced-IsSound s t local_committed details h moved (
            Evidence.committed-HasEvidence o s.ledger.item t.ledger.item h.at_hand.evidence at path
              time row))

  backup-Keeps : KeepsAt local_backup_pending (backup_body wf)
  backup-Keeps =
      step-Keeps local_backup_pending (backup_body wf) (λ s e t. Steps.backup-err wf s)
        (λ s t at h eq.
          let (moved, snapshot, time, row) = Steps.backup-ok wf s at eq in
          let (receipt, sha, w, hash, yes', id) = Verified.backup_verified wf s {t = t} eq in
          let proof : holds o.restores t.ledger.item.kopia_snapshot_id
                s.ledger.item.plaintext_sha256
              ≡ true =
            cc (hash, id, restored receipt sha w yes') in
          advanced-IsSound s t local_backup_verified no_details h moved (
            Evidence.backed_up-HasEvidence o s.ledger.item t.ledger.item h.at_hand.evidence at
              snapshot time proof row))

  upload-Keeps : KeepsAt cold_upload_pending (upload_body wf)
  upload-Keeps =
      step-Keeps cold_upload_pending (upload_body wf) (λ s e t. Steps.upload-err wf s)
        (λ s t at h eq.
          let (moved, provider, bucket, object, mode, size, time, row) =
            Steps.upload-ok wf s at eq in
          advanced-IsSound s t cold_uploaded no_details h moved (
            Evidence.uploaded-HasEvidence o s.ledger.item t.ledger.item h.at_hand.evidence at
              provider object row))

  cold_verify-Keeps : KeepsAt cold_uploaded (cold_verify_body wf)
  cold_verify-Keeps =
      step-Keeps cold_uploaded (cold_verify_body wf) (λ s e t. Steps.cold_verify-err wf s)
        (λ s t at h eq.
          let (moved, time, how, row) = Steps.cold_verify-ok wf s at eq in
          let (receipt, sha, w, hash, yes', id) = Verified.cold_copy_verified wf s {t = t} eq in
          let proof : holds o.decrypts s.ledger.item.remote_object_identifier
                s.ledger.item.plaintext_sha256
              ≡ true =
            cc (hash, id, decrypted receipt sha w yes') in
          advanced-IsSound s t cold_verified no_details h moved (
            Evidence.cold_verified-HasEvidence o s.ledger.item t.ledger.item h.at_hand.evidence at
              time proof row))

  cold_archive-Keeps : KeepsAt cold_archive_pending (cold_archive_body wf)
  cold_archive-Keeps =
      step-Keeps cold_archive_pending (cold_archive_body wf) (λ s e t. Steps.cold_archive-err wf s)
        (λ s t at h eq.
          let (moved, time, row) = Steps.cold_archive-ok wf s at eq in
          advanced-IsSound s t cold_archived no_details h moved (
            Evidence.cold_archived-HasEvidence o s.ledger.item t.ledger.item h.at_hand.evidence at
              time row))

  quarantine-Keeps : KeepsAt cold_archived (quarantine_body wf)
  quarantine-Keeps =
      step-Keeps cold_archived (quarantine_body wf) (λ s e t. Steps.quarantine-err wf s)
        (λ s t at h eq.
          let (moved, time, row) = Steps.quarantine-ok wf s at eq in
          advanced-IsSound s t quarantined no_details h moved (
            Evidence.quarantined-HasEvidence o s.ledger.item t.ledger.item h.at_hand.evidence at
              time row))

  -- The three moves along the line that add no evidence.
  pending-Keeps : KeepsAt local_committed (move wf local_backup_pending >> commit)
  pending-Keeps s at h =
      move-commit-IsSound local_backup_pending s h
        (Evidence.backup_pending-HasEvidence o s.ledger.item _ h.at_hand.evidence at refl)

  upload_pending-Keeps : KeepsAt local_backup_verified (move wf cold_upload_pending >> commit)
  upload_pending-Keeps s at h =
      move-commit-IsSound cold_upload_pending s h
        (Evidence.upload_pending-HasEvidence o s.ledger.item _ h.at_hand.evidence at refl)

  archive_pending-Keeps : KeepsAt cold_verified (move wf cold_archive_pending >> commit)
  archive_pending-Keeps s at h =
      move-commit-IsSound cold_archive_pending s h
        (Evidence.archive_pending-HasEvidence o s.ledger.item _ h.at_hand.evidence at refl)

  download-Keeps : KeepsAt downloading (download_body wf)
  download-Keeps s at h = go (download_body wf s) refl
    where
      go : (r : Result Bool × Session Ext) → download_body wf s ≡ r → IsSound o r.1
      go (err e, t) eq = unchanged-IsSound s t h (Steps.download-err wf s at eq)
      go (ok true, t) eq =
          let (moved, hash, row) = Steps.download-true wf s at eq in
          advanced-IsSound s t local_staged no_details h moved (
            Evidence.staged-HasEvidence o s.ledger.item t.ledger.item h.at_hand.evidence at hash
              row)
      go (ok false, t) eq =
          let (moved, row) = Steps.download-false wf s at eq in
          advanced-IsSound s t source_changed (Steps.changed_details wf) h moved
            (rw row (Evidence.off_line-HasEvidence o _ refl))

  download_step-Keeps : Keeps (download_step wf)
  unfolding download_step
  download_step-Keeps s h = elim (Bool-cases (state_eq s.ledger.item.state downloading)) [
    | inl here ↦
        rw here (download-Keeps s ((state_eq_iff s.ledger.item.state downloading).0 here) h)
    | inr away ↦ rw away h
  ]

  -- The steps below the download, from the last to the first.
  tail-Keeps : Keeps (archive_tail wf)
  unfolding archive_tail
  tail-Keeps =
      let waiting : Action Ext (Unit {0}) = when_state cold_archived (quarantine_body wf) in
      let keeps_waiting : Keeps waiting =
        when-Keeps cold_archived (quarantine_body wf) quarantine-Keeps in
      let archived_cold : Action Ext (Unit {0}) =
        when_state cold_archive_pending (cold_archive_body wf) in
      let keeps_archived_cold : Keeps archived_cold =
        when-Keeps cold_archive_pending (cold_archive_body wf) cold_archive-Keeps in
      let from_archived_cold : Action Ext (Unit {0}) = archived_cold >> waiting in
      let keeps_from_archived_cold : Keeps from_archived_cold =
        then-Keeps archived_cold waiting keeps_archived_cold keeps_waiting in
      let archive_pending : Action Ext (Unit {0}) =
        when_state cold_verified (move wf cold_archive_pending >> commit) in
      let keeps_archive_pending : Keeps archive_pending =
        when-Keeps cold_verified (move wf cold_archive_pending >> commit) archive_pending-Keeps in
      let from_archive_pending : Action Ext (Unit {0}) = archive_pending >> from_archived_cold in
      let keeps_from_archive_pending : Keeps from_archive_pending =
        then-Keeps archive_pending from_archived_cold keeps_archive_pending
          keeps_from_archived_cold in
      let checked : Action Ext (Unit {0}) = when_state cold_uploaded (cold_verify_body wf) in
      let keeps_checked : Keeps checked =
        when-Keeps cold_uploaded (cold_verify_body wf) cold_verify-Keeps in
      let from_checked : Action Ext (Unit {0}) = checked >> from_archive_pending in
      let keeps_from_checked : Keeps from_checked =
        then-Keeps checked from_archive_pending keeps_checked keeps_from_archive_pending in
      let uploaded : Action Ext (Unit {0}) = when_state cold_upload_pending (upload_body wf) in
      let keeps_uploaded : Keeps uploaded =
        when-Keeps cold_upload_pending (upload_body wf) upload-Keeps in
      let from_uploaded : Action Ext (Unit {0}) = uploaded >> from_checked in
      let keeps_from_uploaded : Keeps from_uploaded =
        then-Keeps uploaded from_checked keeps_uploaded keeps_from_checked in
      let upload_pending : Action Ext (Unit {0}) =
        when_state local_backup_verified (move wf cold_upload_pending >> commit) in
      let keeps_upload_pending : Keeps upload_pending =
        when-Keeps local_backup_verified (move wf cold_upload_pending >> commit)
          upload_pending-Keeps in
      let from_upload_pending : Action Ext (Unit {0}) = upload_pending >> from_uploaded in
      let keeps_from_upload_pending : Keeps from_upload_pending =
        then-Keeps upload_pending from_uploaded keeps_upload_pending keeps_from_uploaded in
      let backed_up : Action Ext (Unit {0}) = when_state local_backup_pending (backup_body wf) in
      let keeps_backed_up : Keeps backed_up =
        when-Keeps local_backup_pending (backup_body wf) backup-Keeps in
      let from_backed_up : Action Ext (Unit {0}) = backed_up >> from_upload_pending in
      let keeps_from_backed_up : Keeps from_backed_up =
        then-Keeps backed_up from_upload_pending keeps_backed_up keeps_from_upload_pending in
      let pending : Action Ext (Unit {0}) =
        when_state local_committed (move wf local_backup_pending >> commit) in
      let keeps_pending : Keeps pending =
        when-Keeps local_committed (move wf local_backup_pending >> commit) pending-Keeps in
      let from_pending : Action Ext (Unit {0}) = pending >> from_backed_up in
      let keeps_from_pending : Keeps from_pending =
        then-Keeps pending from_backed_up keeps_pending keeps_from_backed_up in
      let committed : Action Ext (Unit {0}) = when_state local_verified (commit_body wf) in
      let keeps_committed : Keeps committed =
        when-Keeps local_verified (commit_body wf) commit_body-Keeps in
      let from_committed : Action Ext (Unit {0}) = committed >> from_pending in
      let keeps_from_committed : Keeps from_committed =
        then-Keeps committed from_pending keeps_committed keeps_from_pending in
      let verified : Action Ext (Unit {0}) = when_state local_staged (verify_body wf) in
      let keeps_verified : Keeps verified = when-Keeps local_staged (verify_body wf) verify-Keeps in
      let from_verified : Action Ext (Unit {0}) = verified >> from_committed in
      let keeps_from_verified : Keeps from_verified =
        then-Keeps verified from_committed keeps_verified keeps_from_committed in
      keeps_from_verified

  rest-Keeps : (goes_on : Bool) → Keeps (if goes_on then archive_tail wf else pure tt)
  rest-Keeps true s h = tail-Keeps s h
  rest-Keeps false s h = h

  run-Keeps : Keeps (archive wf)
  unfolding archive
  run-Keeps s h =
      let rest = λ (goes_on : Bool). if goes_on then archive_tail wf else pure tt in
      let from_download : Action Ext (Unit {0}) = download_step wf >>= rest in
      let keeps_download : Keeps from_download =
        λ t k. after-Keeps rest (download_step wf t) rest-Keeps (download_step-Keeps t k) in
      let from_start : Action Ext (Unit {0}) = start_step wf >> from_download in
      then-Keeps (queue_step wf) from_start queue-Keeps
        (then-Keeps (start_step wf) from_download start-Keeps keeps_download) s h

-- Suppose the backup's verification answers yes only for a snapshot that restores to bytes with the
-- hash, and the cold storage's only for an object that decrypts to such bytes. However a run of `archive`
-- ends, in any world, if the item's rows vouched for its state before, they do after: an item
-- at or past a stage has the columns of that stage and of those before it; from LOCAL_BACKUP_VERIFIED on its
-- snapshot restores, and from COLD_VERIFIED on its remote object decrypts, to bytes with the recorded SHA-256; and the audit
-- trail, played back through allowed transitions, ends in the item's state. So do the committed rows, which are
-- what an exception leaves behind.
pub archive-IsSound :
    {Ext : Type 0} (wf : Workflow Ext) (o : Copies)
    → ((receipt : BackupReceipt) (sha256 : String) (w : World Ext)
        → (wf.adapters.verify_backup receipt sha256 w).0 ≡ ok true
        → o.restores receipt.snapshot_id sha256 ≡ true)
    → ((receipt : ColdReceipt) (sha256 : String) (w : World Ext)
        → (wf.adapters.verify_cold receipt sha256 w).0 ≡ ok true
        → o.decrypts receipt.object_identifier sha256 ≡ true)
    → (s : Session Ext) → IsSound o s
    → IsSound o (archive wf s).1
archive-IsSound wf o restored decrypted s h = run-Keeps wf o restored decrypted s h
