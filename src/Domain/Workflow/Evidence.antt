-- ===== src/Domain/Workflow/Evidence.antt =====
-- The invariant of an archive item under `archive` (workflow.py): a state on the line vouches for
-- the evidence of every stage before it.
use mnema.Prelude.{
  ◌≡◌, Bool, true, false, not, ◌&&◌, ◌||◌, leb, is_some, Option, none, some, String, arith,
}
use mnema.Domain.States.{
  ArchiveState, index, downloading, local_staged, local_verified, local_committed,
  local_backup_pending, local_backup_verified, cold_upload_pending, cold_uploaded, cold_verified,
  cold_archive_pending, cold_archived, quarantined, restored,
}
use mnema.Jobs.Models.Archive.{ArchiveItem}

-- The item stands at this stage of the line or past it; the restore states are past all.
abbrev pub is_at : ArchiveState → ArchiveState → Bool
is_at stage s = leb (index stage) (index s) && leb (index s) (index restored)

-- What is true of the copies: does the snapshot of this id restore, and does the remote object of this
-- identifier decrypt, to bytes with this SHA-256?
pub record Copies : Type 0 where
  pub restores : String → String → Bool
  pub decrypts : String → String → Bool

-- Both texts are recorded, and the test holds of them.
abbrev pub holds : (String → String → Bool) → Option String → Option String → Bool
holds test none sha256 = false
holds test (some id) none = false
holds test (some id) (some sha256) = test id sha256

pub record HasEvidence (o : Copies) (i : ArchiveItem) : Type 0 where
  pub hashed : (not (is_at local_staged i.state) || is_some i.plaintext_sha256) ≡ true
  pub placed : (not (is_at local_committed i.state) || is_some i.nas_path) ≡ true
  pub placed_at : (not (is_at local_committed i.state) || is_some i.nas_verified_at) ≡ true
  pub snapshot : (not (is_at local_backup_verified i.state) || is_some i.kopia_snapshot_id) ≡ true
  pub backed_up : (not (is_at local_backup_verified i.state) || is_some i.kopia_verified_at) ≡ true
  pub restored :
      (not (is_at local_backup_verified i.state)
        || holds o.restores i.kopia_snapshot_id i.plaintext_sha256)
      ≡ true
  pub provider : (not (is_at cold_uploaded i.state) || is_some i.remote_provider) ≡ true
  pub object : (not (is_at cold_uploaded i.state) || is_some i.remote_object_identifier) ≡ true
  pub remote : (not (is_at cold_verified i.state) || is_some i.remote_verified_at) ≡ true
  pub decrypted :
      (not (is_at cold_verified i.state)
        || holds o.decrypts i.remote_object_identifier i.plaintext_sha256)
      ≡ true
  pub cold : (not (is_at cold_archived i.state) || is_some i.cold_archived_at) ≡ true
  pub waiting : (not (is_at quarantined i.state) || is_some i.quarantine_expires_at) ≡ true

-- A state off the line vouches for nothing.
pub off_line-HasEvidence :
    (o : Copies) (i : ArchiveItem) → is_at local_staged i.state ≡ false → HasEvidence o i
off_line-HasEvidence o i off = ground arith

-- Each step along the line adds what its state vouches for, and loses nothing.
pub staged-HasEvidence :
    (o : Copies) (i i' : ArchiveItem)
    → HasEvidence o i
    → i.state ≡ downloading
    → is_some i'.plaintext_sha256 ≡ true
    → i' ≡ record i { plaintext_sha256 = i'.plaintext_sha256; state = local_staged }
    → HasEvidence o i'
staged-HasEvidence o i i' h at h0 e = ground arith

pub verified-HasEvidence :
    (o : Copies) (i i' : ArchiveItem)
    → HasEvidence o i
    → i.state ≡ local_staged
    → i' ≡ record i { state = local_verified }
    → HasEvidence o i'
verified-HasEvidence o i i' h at e = ground arith

pub committed-HasEvidence :
    (o : Copies) (i i' : ArchiveItem)
    → HasEvidence o i
    → i.state ≡ local_verified
    → is_some i'.nas_path ≡ true
    → is_some i'.nas_verified_at ≡ true
    → i' ≡ record i {
      nas_path = i'.nas_path;
      nas_verified_at = i'.nas_verified_at;
      state = local_committed;
    }
    → HasEvidence o i'
committed-HasEvidence o i i' h at h0 h1 e = ground arith

pub backup_pending-HasEvidence :
    (o : Copies) (i i' : ArchiveItem)
    → HasEvidence o i
    → i.state ≡ local_committed
    → i' ≡ record i { state = local_backup_pending }
    → HasEvidence o i'
backup_pending-HasEvidence o i i' h at e = ground arith

pub backed_up-HasEvidence :
    (o : Copies) (i i' : ArchiveItem)
    → HasEvidence o i
    → i.state ≡ local_backup_pending
    → is_some i'.kopia_snapshot_id ≡ true
    → is_some i'.kopia_verified_at ≡ true
    → holds o.restores i'.kopia_snapshot_id i.plaintext_sha256 ≡ true
    → i' ≡ record i {
      kopia_snapshot_id = i'.kopia_snapshot_id;
      kopia_verified_at = i'.kopia_verified_at;
      state = local_backup_verified;
    }
    → HasEvidence o i'
backed_up-HasEvidence o i i' h at h0 h1 proof e = ground arith

pub upload_pending-HasEvidence :
    (o : Copies) (i i' : ArchiveItem)
    → HasEvidence o i
    → i.state ≡ local_backup_verified
    → i' ≡ record i { state = cold_upload_pending }
    → HasEvidence o i'
upload_pending-HasEvidence o i i' h at e = ground arith

pub uploaded-HasEvidence :
    (o : Copies) (i i' : ArchiveItem)
    → HasEvidence o i
    → i.state ≡ cold_upload_pending
    → is_some i'.remote_provider ≡ true
    → is_some i'.remote_object_identifier ≡ true
    → i' ≡ record i {
      remote_provider = i'.remote_provider;
      remote_object_identifier = i'.remote_object_identifier;
      remote_bucket = i'.remote_bucket;
      encryption_mode = i'.encryption_mode;
      remote_size = i'.remote_size;
      uploaded_at = i'.uploaded_at;
      remote_checksum = i'.remote_checksum;
      state = cold_uploaded;
    }
    → HasEvidence o i'
uploaded-HasEvidence o i i' h at h0 h1 e = ground arith

pub cold_verified-HasEvidence :
    (o : Copies) (i i' : ArchiveItem)
    → HasEvidence o i
    → i.state ≡ cold_uploaded
    → is_some i'.remote_verified_at ≡ true
    → holds o.decrypts i.remote_object_identifier i.plaintext_sha256 ≡ true
    → i' ≡ record i {
      remote_verified_at = i'.remote_verified_at;
      remote_verification_method = i'.remote_verification_method;
      state = cold_verified;
    }
    → HasEvidence o i'
cold_verified-HasEvidence o i i' h at h0 proof e = ground arith

pub archive_pending-HasEvidence :
    (o : Copies) (i i' : ArchiveItem)
    → HasEvidence o i
    → i.state ≡ cold_verified
    → i' ≡ record i { state = cold_archive_pending }
    → HasEvidence o i'
archive_pending-HasEvidence o i i' h at e = ground arith

pub cold_archived-HasEvidence :
    (o : Copies) (i i' : ArchiveItem)
    → HasEvidence o i
    → i.state ≡ cold_archive_pending
    → is_some i'.cold_archived_at ≡ true
    → i' ≡ record i { cold_archived_at = i'.cold_archived_at; state = cold_archived }
    → HasEvidence o i'
cold_archived-HasEvidence o i i' h at h0 e = ground arith

pub quarantined-HasEvidence :
    (o : Copies) (i i' : ArchiveItem)
    → HasEvidence o i
    → i.state ≡ cold_archived
    → is_some i'.quarantine_expires_at ≡ true
    → i' ≡ record i { quarantine_expires_at = i'.quarantine_expires_at; state = quarantined }
    → HasEvidence o i'
quarantined-HasEvidence o i i' h at h0 e = ground arith
