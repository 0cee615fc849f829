-- ===== src/Config/Validation/Rules.antt =====
-- The validators of settings.py as one test a rule.
use mnema.Prelude.{
  ◌≡◌, ◌↔◌, refl, true, not, ◌&&◌, ◌||◌, ltb, any, all, str_eq, List, [], ◌∷◌, arith,
}
use mnema.Runtime.Errors.{ok, err, is_ok}
use mnema.Config.Options.{ℤ, is_positive, Settings}
use mnema.Config.Validation.{
  Verdict, Split, is_text, path_within, paths_are_absolute, fields_are_in_range, is_team_url,
  is_public_url, cloudflare_access_is_complete, file_provider_configuration_is_safe,
  icloud_configuration_is_complete, is_scaleway, is_s3, scaleway_endpoint,
  scaleway_glacier_configuration_is_safe, is_nonempty, telegram_configuration_is_safe, validate,
}

-- The rules as tests; a rule about a feature binds where the feature is on.
pub record Rules (split : Split) (s : Settings) : Type 0 where
  pub absolute : paths_are_absolute s ≡ true
  pub in_range : fields_are_in_range s ≡ true
  pub team :
      (not s.cloudflare_access_required || is_team_url (split s.cloudflare_team_domain)) ≡ true
  pub audience : (not s.cloudflare_access_required || is_text s.cloudflare_audience) ≡ true
  pub uploads_inside :
      (not s.file_provider_enabled || path_within s.file_provider_upload_root s.active_root) ≡ true
  pub public_origin :
      (not s.file_provider_enabled || is_public_url (split s.file_provider_public_url)) ≡ true
  pub apple_id : (not s.icloud_enabled || is_text s.icloud_apple_id) ≡ true
  pub imports_inside :
      (not s.icloud_enabled || path_within s.icloud_import_root s.active_root) ≡ true
  pub target_below_trigger :
      (not s.icloud_enabled || ltb s.icloud_cleanup_target_percent s.icloud_cleanup_trigger_percent)
      ≡ true
  pub direct_s3 : (not (is_scaleway s.s3_provider) || is_s3 s.cold_storage_transport) ≡ true
  pub european_region :
      (not (is_scaleway s.s3_provider)
        || (str_eq s.s3_region "fr-par" || str_eq s.s3_region "nl-ams"))
      ≡ true
  pub own_endpoint :
      (not (is_scaleway s.s3_provider) || str_eq s.s3_endpoint_url (scaleway_endpoint s.s3_region))
      ≡ true
  pub positive_ids : all is_positive s.telegram_allowed_user_ids ≡ true
  pub someone_allowed : (not s.telegram_enabled || is_nonempty s.telegram_allowed_user_ids) ≡ true

any-not : (ids : List ℤ) → any (λ id. not (is_positive id)) ids ≡ not (all is_positive ids)
any-not [] = refl
any-not (id ∷ ids) = ground (arith, any-not ids)

module _ (split : Split) (s : Settings) where
  cloudflare_lem : is_ok (cloudflare_access_is_complete split s) ≡ (
      not s.cloudflare_access_required
      || (is_team_url (split s.cloudflare_team_domain) && is_text s.cloudflare_audience))
  unfolding cloudflare_access_is_complete
  cloudflare_lem = ground arith

  file_provider_lem : is_ok (file_provider_configuration_is_safe split s) ≡ (
      not s.file_provider_enabled
      || (path_within s.file_provider_upload_root s.active_root
          && is_public_url (split s.file_provider_public_url)))
  unfolding file_provider_configuration_is_safe
  file_provider_lem = ground arith

  icloud_lem : is_ok (icloud_configuration_is_complete s) ≡ (
      not s.icloud_enabled
      || (is_text s.icloud_apple_id
          && (path_within s.icloud_import_root s.active_root
              && ltb s.icloud_cleanup_target_percent s.icloud_cleanup_trigger_percent)))
  unfolding icloud_configuration_is_complete
  icloud_lem = ground arith

  scaleway_lem : is_ok (scaleway_glacier_configuration_is_safe s) ≡ (
      not (is_scaleway s.s3_provider)
      || (is_s3 s.cold_storage_transport
          && ((str_eq s.s3_region "fr-par" || str_eq s.s3_region "nl-ams")
              && str_eq s.s3_endpoint_url (scaleway_endpoint s.s3_region))))
  unfolding scaleway_glacier_configuration_is_safe
  scaleway_lem = ground arith

  telegram_lem : is_ok (telegram_configuration_is_safe s) ≡ (
      all is_positive s.telegram_allowed_user_ids
      && (not s.telegram_enabled || is_nonempty s.telegram_allowed_user_ids))
  unfolding telegram_configuration_is_safe
  telegram_lem = ground (arith, any-not s.telegram_allowed_user_ids)

  validate_lem : is_ok (validate split s) ≡ (
      paths_are_absolute s
      && (fields_are_in_range s
          && (is_ok (cloudflare_access_is_complete split s)
              && (is_ok (file_provider_configuration_is_safe split s)
                  && (is_ok (icloud_configuration_is_complete s)
                      && (is_ok (scaleway_glacier_configuration_is_safe s)
                          && is_ok (telegram_configuration_is_safe s)))))))
  unfolding validate
  validate_lem = ground arith

  accepted : validate split s ≡ ok tt → is_ok (validate split s) ≡ true
  accepted h = ground arith

  is_ok-ok : (r : Verdict) → is_ok r ≡ true → r ≡ ok tt
  is_ok-ok (ok tt') h = refl
  is_ok-ok (err e) h = cc

-- A configuration is accepted exactly when every test passes.
pub validate-Rules : (split : Split) (s : Settings) → (validate split s ≡ ok tt) ↔ Rules split s
validate-Rules split s = (
  λ h.
      let valid = accepted split s h in
      ground (
        arith,
        validate_lem split s,
        cloudflare_lem split s,
        file_provider_lem split s,
        icloud_lem split s,
        scaleway_lem split s,
        telegram_lem split s,
      ),
  λ h. is_ok-ok split s (validate split s) (
      ground (
        arith,
        validate_lem split s,
        cloudflare_lem split s,
        file_provider_lem split s,
        icloud_lem split s,
        scaleway_lem split s,
        telegram_lem split s,
      )),
)
