-- ===== src/Domain/ICloudCleanup/Marks.antt =====
-- What the rows of a cleanup say: the assets that are deleted, and the runtime settings that lock deletion
-- (icloud_cleanup.py: _set_runtime).
use mnema.Prelude.{
  ℕ, ◌≡◌, refl, Bool, true, false, ◌&&◌, Option, none, some, List, [], ◌∷◌, ◌++◌, all, any, find,
  ◌==◌, is_some, String, str_eq, str_eq_iff, DateTime, arith,
}
use mnema.Jobs.Models.Work.{RuntimeSetting}
use mnema.Jobs.Models.Cloud.{ICloudAsset, ICloudCleanupEntry}
use mnema.FileProvider.Auth.{update_first}
use mnema.Domain.ICloudCleanup.{Rows, key_is, set_runtime}

-- The row of an entry's asset says that it was deleted.
abbrev pub gone : Option ICloudAsset → Bool
gone none = false
gone (some a) = is_some a.remotely_deleted_at

abbrev pub is_gone : List ICloudAsset → ICloudCleanupEntry → Bool
is_gone assets e = gone (find (λ a. a.id == e.icloud_asset_id) assets)

abbrev pub deleted : DateTime → ℕ → List ICloudAsset → List ICloudAsset
deleted now id assets =
    update_first (λ a. a.id == id) (λ a. record a { remotely_deleted_at = some now }) assets

abbrev pub has_asset : List ICloudAsset → ICloudCleanupEntry → Bool
has_asset assets e = is_some (find (λ a. a.id == e.icloud_asset_id) assets)

pub deleted-gone :
    (now : DateTime) (e : ICloudCleanupEntry) (assets : List ICloudAsset)
    → has_asset assets e ≡ true
    → is_gone (deleted now e.icloud_asset_id assets) e ≡ true
deleted-gone now e [] h = ground arith
deleted-gone now e (a ∷ assets) h = ground (arith, deleted-gone now e assets)

pub deleted-keeps :
    (now : DateTime) (id : ℕ) (e : ICloudCleanupEntry) (assets : List ICloudAsset)
    → is_gone assets e ≡ true
    → is_gone (deleted now id assets) e ≡ true
deleted-keeps now id e [] h = h
deleted-keeps now id e (a ∷ assets) h = ground (arith, deleted-keeps now id e assets)

deleted-has_asset :
    (now : DateTime) (id : ℕ) (e : ICloudCleanupEntry) (assets : List ICloudAsset)
    → has_asset (deleted now id assets) e ≡ has_asset assets e
deleted-has_asset now id e [] = refl
deleted-has_asset now id e (a ∷ assets) = ground (arith, deleted-has_asset now id e assets)

pub deleted-all :
    (now : DateTime) (id : ℕ) (entries : List ICloudCleanupEntry) (assets : List ICloudAsset)
    → all (has_asset (deleted now id assets)) entries ≡ all (has_asset assets) entries
deleted-all now id [] assets = refl
deleted-all now id (e ∷ entries) assets =
    ground (arith, deleted-has_asset now id e assets, deleted-all now id entries assets)

abbrev value_of : Option RuntimeSetting → String → Bool
value_of none value = false
value_of (some s) value = str_eq s.value value

abbrev pub setting_is : String → String → List RuntimeSetting → Bool
setting_is key value settings = value_of (find (key_is key) settings) value

abbrev pub is_locked : List RuntimeSetting → Bool
is_locked settings =
    setting_is "safety_lock" "true" settings
    && setting_is "global_deletion_enabled" "false" settings

abbrev changed : String → String → List RuntimeSetting → List RuntimeSetting
changed key value settings = update_first (key_is key) (λ s. record s { value = value }) settings

changed-holds :
    (key value : String) (settings : List RuntimeSetting)
    → any (key_is key) settings ≡ true
    → setting_is key value (changed key value settings) ≡ true
changed-holds key value [] h = ground arith
changed-holds key value (s ∷ settings) h =
    ground (arith, str_eq_iff value value, changed-holds key value settings)

added-holds :
    (key value : String) (settings : List RuntimeSetting)
    → any (key_is key) settings ≡ false
    → setting_is key value (settings ++ record { key = key; value = value } ∷ []) ≡ true
added-holds key value [] h = ground (arith, str_eq_iff key key, str_eq_iff value value)
added-holds key value (s ∷ settings) h = ground (arith, added-holds key value settings)

changed-keeps :
    (key value key' value' : String) (settings : List RuntimeSetting)
    → str_eq key key' ≡ false
    → setting_is key' value' (changed key value settings) ≡ setting_is key' value' settings
changed-keeps key value key' value' [] h = refl
changed-keeps key value key' value' (s ∷ settings) h = ground (
  arith,
  str_eq_iff s.key key,
  str_eq_iff s.key key',
  str_eq_iff key key',
  changed-keeps key value key' value' settings,
)

added-keeps :
    (key value key' value' : String) (settings : List RuntimeSetting)
    → str_eq key key' ≡ false
    → setting_is key' value' (settings ++ record { key = key; value = value } ∷ [])
      ≡ setting_is key' value' settings
added-keeps key value key' value' [] h = ground arith
added-keeps key value key' value' (s ∷ settings) h =
    ground (arith, added-keeps key value key' value' settings)

pub set_runtime-holds :
    (key value : String) (rows : Rows)
    → setting_is key value (set_runtime key value rows).settings ≡ true
unfolding set_runtime
set_runtime-holds key value rows =
    ground (arith, changed-holds key value rows.settings, added-holds key value rows.settings)

pub set_runtime-keeps :
    (key value key' value' : String) (rows : Rows)
    → str_eq key key' ≡ false
    → setting_is key' value' (set_runtime key value rows).settings
      ≡ setting_is key' value' rows.settings
unfolding set_runtime
set_runtime-keeps key value key' value' rows h = ground (
  arith,
  changed-keeps key value key' value' rows.settings,
  added-keeps key value key' value' rows.settings,
)
