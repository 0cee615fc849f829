-- ===== src/Domain/Source.antt =====
-- What a source adapter reports (src/mnema/domain/source.py).
use mnema.Prelude.{ℕ, Bool, Option, List, String, DateTime}

pub record SourceCapabilities : Type 0 where
  pub can_delete : Bool
  pub supports_cursor : Bool
  pub stable_versions : Bool

pub record SourceObject : Type 0 where
  pub source_id : String
  pub relative_path : String
  pub size : ℕ
  pub modified_at : DateTime
  pub version : String

pub record DiscoveryPage : Type 0 where
  pub objects : List SourceObject
  pub next_cursor : Option String

pub record DownloadReceipt : Type 0 where
  pub source_id : String
  pub bytes_written : ℕ
  pub sha256 : String
  pub version : String

pub record DeleteReceipt : Type 0 where
  pub source_id : String
  pub expected_version : String
  pub confirmed_absent : Bool
