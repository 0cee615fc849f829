-- ===== src/Domain/Workflow/Verified.antt =====
-- What the verifying steps of `archive` (src/mnema/domain/workflow.py) have seen where they return.
use mnema.Prelude.{◌≡◌, true, some, String, str_eq_iff, Option-cases, inl, inr, arith}
use mnema.Runtime.Errors.{ok, Result-cases}
use mnema.Runtime.Session.{World, Session}
use mnema.Runtime.Files.{Content, regular, symlink, directory}
use mnema.Adapters.FileOps.{sha256_file}
use mnema.Jobs.StateService.{transition_item}
use mnema.Domain.Protocols.{BackupReceipt, ColdReceipt, Workflow}
use mnema.Domain.Workflow.{
  item_key, staged_path, backup_body, cold_receipt, cold_verify_body, verify_body,
}

module _ {Ext : Type 0} (wf : Workflow Ext) (s : Session Ext) where
  pub backup_verified :
      {t : Session Ext}
      → backup_body wf s ≡ (ok tt, t)
      → (receipt : BackupReceipt) × (sha256 : String) × (w : World Ext)
        × (s.ledger.item.plaintext_sha256 ≡ some sha256)
        × ((wf.adapters.verify_backup receipt sha256 w).0 ≡ ok true)
        × (t.ledger.item.kopia_snapshot_id ≡ some receipt.snapshot_id)
  unfolding backup_body transition_item
  backup_verified {t} h = elim (Option-cases s.ledger.item.nas_path) [
    | inl missing ↦ absurd (ground arith)
    | inr (path, placed) ↦ elim (Option-cases s.ledger.item.plaintext_sha256) [
      | inl missing ↦ absurd (ground arith)
      | inr (sha256, hash) ↦
          let answer =
            wf.adapters.snapshot (wf.path_of path) (item_key wf.str_of s.ledger.item.id) s.world in
          elim (Result-cases answer.0) [
            | inl (e, bad) ↦ absurd (ground arith)
            | inr (receipt, taken) ↦ (receipt, sha256, answer.1, hash, ground arith, ground arith)
          ]
    ]
  ]

  pub cold_copy_verified :
      {t : Session Ext}
      → cold_verify_body wf s ≡ (ok tt, t)
      → (receipt : ColdReceipt) × (sha256 : String) × (w : World Ext)
        × (s.ledger.item.plaintext_sha256 ≡ some sha256)
        × ((wf.adapters.verify_cold receipt sha256 w).0 ≡ ok true)
        × (s.ledger.item.remote_object_identifier ≡ some receipt.object_identifier)
  unfolding cold_verify_body cold_receipt transition_item
  cold_copy_verified {t} h = elim (Option-cases s.ledger.item.plaintext_sha256) [
    | inl missing ↦ absurd (ground arith)
    | inr (sha256, hash) ↦ elim (Result-cases (cold_receipt wf s.ledger.item)) [
      | inl (e, bad) ↦ absurd (ground arith)
      | inr (receipt, kept) ↦ (receipt, sha256, s.world, hash, ground arith, ground arith)
    ]
  ]

  -- Where `verify_body` returns, the staged file was a regular one with the recorded SHA-256.
  staged_copy_verified :
      {t : Session Ext}
      → verify_body wf s ≡ (ok tt, t)
      → (bytes : Content) × (s.world.files (staged_path wf s.ledger.item.id) ≡ some (regular bytes))
        × (s.ledger.item.plaintext_sha256 ≡ some (wf.host.sha256 bytes))
  unfolding verify_body sha256_file transition_item
  staged_copy_verified {t} h = elim (Option-cases s.ledger.item.plaintext_sha256) [
    | inl missing ↦ absurd (ground arith)
    | inr (sha256, hash) ↦ elim (Option-cases (s.world.files (staged_path wf s.ledger.item.id))) [
      | inl missing ↦ absurd (ground arith)
      | inr (symlink, found) ↦ absurd (ground arith)
      | inr (directory n, found) ↦ absurd (ground arith)
      | inr (regular bytes, found) ↦
          (bytes, found, ground (arith, str_eq_iff (wf.host.sha256 bytes) sha256))
    ]
  ]
