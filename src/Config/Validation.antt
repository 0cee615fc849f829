-- ===== src/Config/Validation.antt =====
-- The validators of `Settings` (src/mnema/config/settings.py). Pydantic runs the constraints of the
-- fields, then the validators of the model in their order; what they raise is a rejected
-- configuration.
pub mod Rules
pub mod Accepted
use Prim.Native.String.{◌++◌ as str_append, slice, len}
use mnema.Prelude.{
  ℕ, ◌-◌, ◌*◌, Bool, true, false, not, ◌&&◌, ◌||◌, Option, none, some, List, [], ◌∷◌, any, all, ltb,
  leb, if◌then◌else◌, is_some, String, str_eq,
}
use mnema.Runtime.Errors.{value_error, Result, ok, err}
use mnema.Runtime.Files.{is_relative_to}
use mnema.Domain.Storage.{PurePath}
use mnema.Config.Settings.{percent}
use mnema.Config.Options.{
  ℤ, is_positive, S3Provider, generic, scaleway, ColdStorageTransport, s3, rclone, Settings,
}

-- What `urllib.parse.urlsplit` finds in a text; an absent part is the empty text.
pub record Url : Type 0 where
  pub scheme : String
  pub hostname : Option String
  pub username : Option String
  pub password : Option String
  pub port : Option ℕ
  pub path : String
  pub query : String
  pub fragment : String

-- `none` is a `ValueError` of `urlsplit` or of `port`.
abbrev pub Split : Type 0
Split = String → Option Url

abbrev pub is_text : String → Bool
is_text text = not (str_eq text "")

-- `text.endswith(suffix)`
abbrev pub ends_with : String → String → Bool
ends_with text suffix =
    leb (len suffix) (len text) && str_eq (slice text (len text - len suffix) (len text)) suffix

abbrev pub path_within : PurePath → PurePath → Bool
path_within path root =
    (if root.is_absolute then path.is_absolute else not path.is_absolute)
    && is_relative_to path.parts root.parts

-- The constraints of the fields, and `absolute_paths` and `absolute_scratch_root`.
abbrev pub scratch_is_absolute : Option PurePath → Bool
scratch_is_absolute none = true
scratch_is_absolute (some path) = path.is_absolute

unfoldable pub paths_are_absolute : Settings → Bool
paths_are_absolute s =
    all (λ path. path.is_absolute)
      (s.active_root ∷ s.backup_root ∷ s.staging_root ∷ s.source_root ∷ s.kopia_repository
        ∷ s.kopia_config_file ∷ s.rclone_config_file ∷ s.icloud_session_directory
        ∷ s.icloud_import_root ∷ s.file_provider_upload_root ∷ s.telegram_bot_token_file ∷ [])
    && scratch_is_absolute s.scratch_root

unfoldable pub fields_are_in_range : Settings → Bool
fields_are_in_range s =
    leb 1 s.worker_concurrency
    && leb s.worker_concurrency 2
    && (leb 1 s.per_adapter_concurrency && leb s.per_adapter_concurrency 2)
    && ltb 0 s.file_provider_max_file_size
    && (leb percent s.file_provider_minimum_free_percent
        && leb s.file_provider_minimum_free_percent (50 * percent))
    && (ltb 0 s.icloud_cleanup_trigger_percent
        && leb s.icloud_cleanup_trigger_percent (100 * percent))
    && ltb s.icloud_cleanup_target_percent (100 * percent)
    && (leb 1 s.icloud_cleanup_quarantine_days && leb s.icloud_cleanup_quarantine_days 3650)
    && (leb 1 s.icloud_cleanup_max_assets && leb s.icloud_cleanup_max_assets 1000)
    && (ltb 0 s.icloud_cleanup_max_quota_percent
        && leb s.icloud_cleanup_max_quota_percent (10 * percent))
    && str_eq s.icloud_library "PrimarySync"

-- An origin: HTTPS, a host, and nothing that names a user, a port or a resource.
abbrev pub has_host : Option String → Bool
has_host none = false
has_host (some host) = is_text host

abbrev pub is_origin : Url → Bool
is_origin u =
    str_eq u.scheme "https"
    && has_host u.hostname
    && not (is_some u.username)
    && not (is_some u.password)
    && not (is_some u.port)
    && (str_eq u.path "" || str_eq u.path "/")
    && not (is_text u.query)
    && not (is_text u.fragment)

abbrev pub is_team_host : Option String → Bool
is_team_host none = false
is_team_host (some host) = ends_with host ".cloudflareaccess.com"

abbrev pub is_team_url : Option Url → Bool
is_team_url none = false
is_team_url (some u) = is_origin u && is_team_host u.hostname

abbrev pub is_public_url : Option Url → Bool
is_public_url none = false
is_public_url (some u) = is_origin u

abbrev pub Verdict : Type 0
Verdict = Result (Unit {0})

abbrev reject : String → Verdict
reject message = err (value_error message)

-- `cloudflare_access_is_complete`
unfoldable pub cloudflare_access_is_complete : Split → Settings → Verdict
cloudflare_access_is_complete split s =
    if not s.cloudflare_access_required
    then ok tt
    else if not (is_team_url (split s.cloudflare_team_domain))
    then reject "Cloudflare Access requires a valid HTTPS team domain"
    else if not (is_text s.cloudflare_audience)
    then reject "Cloudflare Access audience is required"
    else ok tt

-- `file_provider_configuration_is_safe`
unfoldable pub file_provider_configuration_is_safe : Split → Settings → Verdict
file_provider_configuration_is_safe split s =
    if not s.file_provider_enabled
    then ok tt
    else if not (path_within s.file_provider_upload_root s.active_root)
    then reject "File Provider upload root must remain beneath active storage"
    else if not (is_public_url (split s.file_provider_public_url))
    then reject "File Provider requires an HTTPS public URL without a path"
    else ok tt

-- `icloud_configuration_is_complete`
unfoldable pub icloud_configuration_is_complete : Settings → Verdict
icloud_configuration_is_complete s =
    if not s.icloud_enabled
    then ok tt
    else if not (is_text s.icloud_apple_id)
    then reject "iCloud Photos requires an Apple ID"
    else if not (path_within s.icloud_import_root s.active_root)
    then reject "iCloud import root must remain beneath active storage"
    else if leb s.icloud_cleanup_trigger_percent s.icloud_cleanup_target_percent
    then reject "iCloud cleanup target must be below trigger"
    else ok tt

abbrev pub is_scaleway : S3Provider → Bool
is_scaleway scaleway = true
is_scaleway generic = false

abbrev pub is_s3 : ColdStorageTransport → Bool
is_s3 s3 = true
is_s3 rclone = false

abbrev pub scaleway_endpoint : String → String
scaleway_endpoint region = str_append "https://s3." (str_append region ".scw.cloud")

-- `scaleway_glacier_configuration_is_safe`
unfoldable pub scaleway_glacier_configuration_is_safe : Settings → Verdict
scaleway_glacier_configuration_is_safe s =
    if not (is_scaleway s.s3_provider)
    then ok tt
    else if not (is_s3 s.cold_storage_transport)
    then reject "Scaleway Glacier requires direct S3 transport"
    else if not (str_eq s.s3_region "fr-par" || str_eq s.s3_region "nl-ams")
    then reject "Scaleway Glacier region must be fr-par or nl-ams"
    else if not (str_eq s.s3_endpoint_url (scaleway_endpoint s.s3_region))
    then reject (str_append "Scaleway endpoint must be " (scaleway_endpoint s.s3_region))
    else ok tt

abbrev pub is_nonempty : List ℤ → Bool
is_nonempty [] = false
is_nonempty (x ∷ xs) = true

-- `telegram_configuration_is_safe`
unfoldable pub telegram_configuration_is_safe : Settings → Verdict
telegram_configuration_is_safe s =
    if any (λ id. not (is_positive id)) s.telegram_allowed_user_ids
    then reject "Telegram user IDs must be positive integers"
    else if s.telegram_enabled && not (is_nonempty s.telegram_allowed_user_ids)
    then reject "Telegram requires at least one allowed user ID"
    else ok tt

abbrev pub then_check : Verdict → Verdict → Verdict
then_check (ok _) next = next
then_check (err e) next = err e

-- `Settings(...)`, from the values of the fields on. The text of a value out of range is pydantic's.
unfoldable pub validate : Split → Settings → Verdict
validate split s =
    if not (paths_are_absolute s)
    then reject "storage paths must be absolute"
    else if not (fields_are_in_range s)
    then reject "a value is out of range"
    else then_check (cloudflare_access_is_complete split s) (
        then_check (file_provider_configuration_is_safe split s) (
          then_check (icloud_configuration_is_complete s) (
            then_check (scaleway_glacier_configuration_is_safe s)
              (telegram_configuration_is_safe s))))
