-- ===== src/Config/Settings.antt =====
-- `SourcePolicy` and `DeletionLimits` of src/mnema/config/settings.py, and of `Settings` what the
-- modelled operations read.
use mnema.Prelude.{ℕ, Bool, Option, List, String}

-- A percentage, a float in the source, is given as a number of ten-thousandths of a percent: 10000 is
-- 1.0. Where it meets another float it is the nearest double.
abbrev pub Percent : Type 0
Percent = ℕ

abbrev pub percent : ℕ
percent = 10000

pub record SourcePolicy : Type 0 where
  pub included_directories : List String
  pub excluded_directories : List String
  pub included_globs : List String
  pub excluded_globs : List String
  pub minimum_file_size : ℕ
  pub maximum_file_size : Option ℕ
  pub archive_after_days : ℕ
  pub stability_window_hours : ℕ
  pub quarantine_days : ℕ
  pub dry_run : Bool
  pub manual_approval : Bool
  pub deletion_enabled : Bool

pub record DeletionLimits : Type 0 where
  pub max_files_deleted_per_run : ℕ
  pub max_bytes_deleted_per_run : ℕ
  pub max_percentage_deleted_per_run : Percent
