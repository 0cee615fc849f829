-- ===== src/Config/Validation/Accepted.antt =====
-- What a configuration that settings.py accepts guarantees.
use Prim.Native.String.{◌++◌ as str_append}
use mnema.Prelude.{
  ℕ, ◌≤◌, ◌<◌, ◌⊎◌, inl, inr, Bool, false, Option, none, some, String, str_eq_iff, Bool-cases,
  Option-cases, ◌≡◌, ◌↔◌, refl, true, not, ◌||◌, ltb, all, str_eq, List, [], ◌∷◌, arith,
}
use mnema.Runtime.Errors.{ok}
use mnema.Config.Options.{
  ℤ, is_positive, S3Provider, generic, scaleway, ColdStorageTransport, s3, rclone, Settings,
}
use mnema.Domain.Storage.{PurePath}
use mnema.Config.Validation.Rules.{Rules, validate-Rules}
use mnema.Config.Validation.{
  Url, is_origin, is_team_host, scratch_is_absolute, Split, is_text, path_within,
  paths_are_absolute, fields_are_in_range, is_team_url, is_public_url, is_scaleway, is_s3,
  scaleway_endpoint, is_nonempty, validate,
}

-- An HTTPS origin: a host, and no user, port, path, query or fragment.
pub record IsOrigin (url : Url) : Type 0 where
  pub https : url.scheme ≡ "https"
  pub host : String
  pub hostname : url.hostname ≡ some host
  pub named : ¬ (host ≡ "")
  pub no_user : url.username ≡ none
  pub no_password : url.password ≡ none
  pub no_port : url.port ≡ none
  pub no_path : (url.path ≡ "") ⊎ (url.path ≡ "/")
  pub no_query : url.query ≡ ""
  pub no_fragment : url.fragment ≡ ""

abbrev pub IsPublic : Option Url → Type 0
IsPublic none = ⊥
IsPublic (some url) = IsOrigin url

is_false : {b : Bool} → (b ≡ true → ⊥) → b ≡ false
is_false {b} no' = elim (Bool-cases b) [ inl e ↦ absurd (no' e) | inr e ↦ e ]

is_origin-IsOrigin : (url : Url) → is_origin url ≡ true → IsOrigin url
is_origin-IsOrigin url h = elim (Option-cases url.hostname) [
  | inl missing ↦ absurd (ground arith)
  | inr (host, there) ↦
      let same = str_eq_iff url.scheme "https" in
      let empty = str_eq_iff host "" in
      record {
        https = ground (arith, same);
        host = host;
        hostname = there;
        named = λ e. ground (arith, empty);
        no_user = ground arith;
        no_password = ground arith;
        no_port = ground arith;
        no_path = ground (arith, str_eq_iff url.path "", str_eq_iff url.path "/");
        no_query = ground (arith, str_eq_iff url.query "");
        no_fragment = ground (arith, str_eq_iff url.fragment "");
      }
]

IsOrigin-is_origin : (url : Url) → IsOrigin url → is_origin url ≡ true
IsOrigin-is_origin url o =
    let named = is_false (λ e. o.named ((str_eq_iff o.host "").0 e)) in
    let https = (str_eq_iff url.scheme "https").1 o.https in
    let query = (str_eq_iff url.query "").1 o.no_query in
    let fragment = (str_eq_iff url.fragment "").1 o.no_fragment in
    let path = str_eq_iff url.path "" in
    let slash = str_eq_iff url.path "/" in
    let hostname = o.hostname in
    let user = o.no_user in
    let password = o.no_password in
    let port = o.no_port in let no_path = o.no_path in ground (arith, path, slash)

IsPublic-iff : (url : Option Url) → (is_public_url url ≡ true) ↔ IsPublic url
IsPublic-iff none = (λ h. absurd (ground arith), λ h. absurd h)
IsPublic-iff (some url) = (is_origin-IsOrigin url, IsOrigin-is_origin url)

abbrev pub AllAbsolute : List PurePath → Type 0
AllAbsolute [] = Unit
AllAbsolute (path ∷ paths) = (path.is_absolute ≡ true) × AllAbsolute paths

abbrev pub IsTeam : Option Url → Type 0
IsTeam none = ⊥
IsTeam (some url) = IsOrigin url × (is_team_host url.hostname ≡ true)

-- The bounds of the numbers, in ten-thousandths for a percentage, and the one library.
pub record IsInRange (s : Settings) : Type 0 where
  pub workers : (1 ≤ s.worker_concurrency) × (s.worker_concurrency ≤ 2)
  pub adapter_workers : (1 ≤ s.per_adapter_concurrency) × (s.per_adapter_concurrency ≤ 2)
  pub file_size : 0 < s.file_provider_max_file_size
  pub free :
      (10000 ≤ s.file_provider_minimum_free_percent)
      × (s.file_provider_minimum_free_percent ≤ 500000)
  pub trigger :
      (0 < s.icloud_cleanup_trigger_percent) × (s.icloud_cleanup_trigger_percent ≤ 1000000)
  pub target : s.icloud_cleanup_target_percent < 1000000
  pub wait : (1 ≤ s.icloud_cleanup_quarantine_days) × (s.icloud_cleanup_quarantine_days ≤ 3650)
  pub assets : (1 ≤ s.icloud_cleanup_max_assets) × (s.icloud_cleanup_max_assets ≤ 1000)
  pub share :
      (0 < s.icloud_cleanup_max_quota_percent) × (s.icloud_cleanup_max_quota_percent ≤ 100000)
  pub library : s.icloud_library ≡ "PrimarySync"

-- The rules of a configuration; a rule about a feature binds where the feature is on.
pub record IsConfigured (split : Split) (s : Settings) : Type 0 where
  pub absolute : AllAbsolute (
      s.active_root ∷ s.backup_root ∷ s.staging_root ∷ s.source_root ∷ s.kopia_repository
      ∷ s.kopia_config_file ∷ s.rclone_config_file ∷ s.icloud_session_directory
      ∷ s.icloud_import_root ∷ s.file_provider_upload_root ∷ s.telegram_bot_token_file ∷ [])
  pub scratch : scratch_is_absolute s.scratch_root ≡ true
  pub in_range : IsInRange s
  pub team : (s.cloudflare_access_required ≡ false) ⊎ IsTeam (split s.cloudflare_team_domain)
  pub audience : (s.cloudflare_access_required ≡ false) ⊎ (¬ (s.cloudflare_audience ≡ ""))
  pub uploads_inside :
      (s.file_provider_enabled ≡ false)
      ⊎ (path_within s.file_provider_upload_root s.active_root ≡ true)
  pub public_origin :
      (s.file_provider_enabled ≡ false) ⊎ IsPublic (split s.file_provider_public_url)
  pub apple_id : (s.icloud_enabled ≡ false) ⊎ (¬ (s.icloud_apple_id ≡ ""))
  pub imports_inside :
      (s.icloud_enabled ≡ false) ⊎ (path_within s.icloud_import_root s.active_root ≡ true)
  pub target_below_trigger :
      (s.icloud_enabled ≡ false)
      ⊎ (s.icloud_cleanup_target_percent < s.icloud_cleanup_trigger_percent)
  pub direct_s3 : (s.s3_provider ≡ generic) ⊎ (s.cold_storage_transport ≡ s3)
  pub european_region :
      (s.s3_provider ≡ generic) ⊎ (s.s3_region ≡ "fr-par") ⊎ (s.s3_region ≡ "nl-ams")
  pub own_endpoint :
      (s.s3_provider ≡ generic)
      ⊎ (s.s3_endpoint_url ≡ str_append "https://s3." (str_append s.s3_region ".scw.cloud"))
  pub positive_ids : all is_positive s.telegram_allowed_user_ids ≡ true
  pub someone_allowed : (s.telegram_enabled ≡ false) ⊎ (¬ (s.telegram_allowed_user_ids ≡ []))

either : {A : Type 0} {on t : Bool} → (t ≡ true) ↔ A → ((not on || t) ≡ true) ↔ ((on ≡ false) ⊎ A)
either {A} {on} {t} (to, from) = (
  λ h. elim (Bool-cases on) [ inl e ↦ inr (to (ground arith)) | inr e ↦ inl e ],
  λ w. elim w [ inl e ↦ ground arith | inr a ↦ (let known = from a in ground arith) ],
)

turned : {b : Bool} → b ≡ false → not b ≡ true
turned {b} h = ground arith

given-text : (text : String) → (is_text text ≡ true) ↔ (¬ (text ≡ ""))
given-text text = (
  λ h e. ground (arith, str_eq_iff text ""),
  λ no'. turned (is_false (λ e. no' ((str_eq_iff text "").0 e))),
)

IsTeam-iff : (url : Option Url) → (is_team_url url ≡ true) ↔ IsTeam url
IsTeam-iff none = (λ h. absurd (ground arith), λ h. absurd h)
IsTeam-iff (some url) = (
  λ h. (is_origin-IsOrigin url (ground arith), ground arith),
  λ w. (let origin = IsOrigin-is_origin url w.0 in let host = w.1 in ground arith),
)

less : (m n : ℕ) → (ltb m n ≡ true) ↔ (m < n)
less m n = (λ h. ground arith, λ h. ground arith)

same : {b : Bool} → (b ≡ true) ↔ (b ≡ true)
same = (λ h. h, λ h. h)

generic_or :
    {A : Type 0} {t : Bool} (provider : S3Provider)
    → (t ≡ true) ↔ A
    → ((not (is_scaleway provider) || t) ≡ true) ↔ ((provider ≡ generic) ⊎ A)
generic_or {A} {t} generic (to, from) = (λ h. inl refl, λ w. refl)
generic_or {A} {t} scaleway (to, from) =
    (λ h. inr (to h), λ w. elim w [ inl e ↦ absurd (ground arith) | inr a ↦ from a ])

transport_iff : (t : ColdStorageTransport) → (is_s3 t ≡ true) ↔ (t ≡ s3)
transport_iff s3 = (λ h. refl, λ h. refl)
transport_iff rclone = (λ h. absurd (ground arith), λ h. absurd (ground arith))

region_iff :
    (r : String)
    → ((str_eq r "fr-par" || str_eq r "nl-ams") ≡ true) ↔ ((r ≡ "fr-par") ⊎ (r ≡ "nl-ams"))
region_iff r = (
  λ h. elim (Bool-cases (str_eq r "fr-par")) [
    | inl e ↦ inl ((str_eq_iff r "fr-par").0 e)
    | inr other ↦ inr ((str_eq_iff r "nl-ams").0 (ground arith))
  ],
  λ w. elim w [
    | inl e ↦ ground (arith, str_eq_iff r "fr-par")
    | inr e ↦ ground (arith, str_eq_iff r "nl-ams")
  ],
)

nonempty_iff : (ids : List ℤ) → (is_nonempty ids ≡ true) ↔ (¬ (ids ≡ []))
nonempty_iff [] = (λ h. absurd (ground arith), λ h. absurd (h refl))
nonempty_iff (id ∷ ids) = (λ h e. ground arith, λ h. refl)

range_iff : (s : Settings) → (fields_are_in_range s ≡ true) ↔ IsInRange s
unfolding fields_are_in_range
range_iff s = (
  λ h. record {
    workers = (ground arith, ground arith);
    adapter_workers = (ground arith, ground arith);
    file_size = ground arith;
    free = (ground arith, ground arith);
    trigger = (ground arith, ground arith);
    target = ground arith;
    wait = (ground arith, ground arith);
    assets = (ground arith, ground arith);
    share = (ground arith, ground arith);
    library = ground (arith, str_eq_iff s.icloud_library "PrimarySync");
  },
  λ r.
      let library = (str_eq_iff s.icloud_library "PrimarySync").1 r.library in
      let a = r.workers in
      let b = r.adapter_workers in
      let d = r.file_size in
      let e = r.free in
      let f = r.trigger in
      let g = r.target in let h = r.wait in let k = r.assets in let l = r.share in ground arith,
)

absolute_iff :
    (s : Settings)
    → (paths_are_absolute s ≡ true) ↔ (
        AllAbsolute (
          s.active_root ∷ s.backup_root ∷ s.staging_root ∷ s.source_root ∷ s.kopia_repository
          ∷ s.kopia_config_file ∷ s.rclone_config_file ∷ s.icloud_session_directory
          ∷ s.icloud_import_root ∷ s.file_provider_upload_root ∷ s.telegram_bot_token_file ∷ [])
        × (scratch_is_absolute s.scratch_root ≡ true))
unfolding paths_are_absolute
absolute_iff s = (λ h. ground arith, λ w. ground arith)

Rules-IsConfigured : (split : Split) (s : Settings) → Rules split s → IsConfigured split s
Rules-IsConfigured split s r =
    let (paths, scratch) = (absolute_iff s).0 r.absolute in
    record {
      absolute = paths;
      scratch = scratch;
      in_range = (range_iff s).0 r.in_range;
      team = (either (IsTeam-iff (split s.cloudflare_team_domain))).0 r.team;
      audience = (either (given-text s.cloudflare_audience)).0 r.audience;
      uploads_inside = (either same).0 r.uploads_inside;
      public_origin = (either (IsPublic-iff (split s.file_provider_public_url))).0 r.public_origin;
      apple_id = (either (given-text s.icloud_apple_id)).0 r.apple_id;
      imports_inside = (either same).0 r.imports_inside;
      target_below_trigger =
          (either (less s.icloud_cleanup_target_percent s.icloud_cleanup_trigger_percent)).0
            r.target_below_trigger;
      direct_s3 = (generic_or s.s3_provider (transport_iff s.cold_storage_transport)).0 r.direct_s3;
      european_region = (generic_or s.s3_provider (region_iff s.s3_region)).0 r.european_region;
      own_endpoint =
          (generic_or s.s3_provider
              (str_eq_iff s.s3_endpoint_url (scaleway_endpoint s.s3_region))).0
            r.own_endpoint;
      positive_ids = r.positive_ids;
      someone_allowed = (either (nonempty_iff s.telegram_allowed_user_ids)).0 r.someone_allowed;
    }

IsConfigured-Rules : (split : Split) (s : Settings) → IsConfigured split s → Rules split s
IsConfigured-Rules split s o = record {
  absolute = (absolute_iff s).1 (o.absolute, o.scratch);
  in_range = (range_iff s).1 o.in_range;
  team = (either (IsTeam-iff (split s.cloudflare_team_domain))).1 o.team;
  audience = (either (given-text s.cloudflare_audience)).1 o.audience;
  uploads_inside = (either same).1 o.uploads_inside;
  public_origin = (either (IsPublic-iff (split s.file_provider_public_url))).1 o.public_origin;
  apple_id = (either (given-text s.icloud_apple_id)).1 o.apple_id;
  imports_inside = (either same).1 o.imports_inside;
  target_below_trigger =
      (either (less s.icloud_cleanup_target_percent s.icloud_cleanup_trigger_percent)).1
        o.target_below_trigger;
  direct_s3 = (generic_or s.s3_provider (transport_iff s.cold_storage_transport)).1 o.direct_s3;
  european_region = (generic_or s.s3_provider (region_iff s.s3_region)).1 o.european_region;
  own_endpoint =
      (generic_or s.s3_provider (str_eq_iff s.s3_endpoint_url (scaleway_endpoint s.s3_region))).1
        o.own_endpoint;
  positive_ids = o.positive_ids;
  someone_allowed = (either (nonempty_iff s.telegram_allowed_user_ids)).1 o.someone_allowed;
}

-- A configuration is accepted exactly when its paths are absolute, its numbers are in range, its iCloud
-- library is the primary one, and each
-- feature that is on has what it needs: Cloudflare Access a team origin and an audience, the File
-- Provider a public HTTPS origin and an upload root inside active storage, iCloud an Apple ID, an
-- import root inside active storage and a target below its trigger, Scaleway its own endpoint of an
-- allowed region over S3, and Telegram a user; no Telegram user has an id below one.
pub validate_accepts_iff :
    (split : Split) (s : Settings) → (validate split s ≡ ok tt) ↔ IsConfigured split s
validate_accepts_iff split s =
    let (to, from) = validate-Rules split s in
    (λ h. Rules-IsConfigured split s (to h), λ o. from (IsConfigured-Rules split s o))
