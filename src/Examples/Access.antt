-- ===== src/Examples/Access.antt =====
-- One device: its pairing, its tokens and its revocation.
use mnema.Prelude.{
  ◌≡◌, refl, false, none, some, [], ◌∷◌, if◌then◌else◌, String, ltb, minutes, days, arith,
}
use mnema.Runtime.Errors.{permission_error, err}
use mnema.Jobs.Models.FileProvider.{FileProviderDevice}
use mnema.FileProvider.Auth.{
  IssuedTokens, Claims, Crypto, Credentials, access_claims, access_token, new_device,
  exchange_pairing_code, rotate_refresh_token, verify_access_token, revoke_device,
}
use mnema.FileProvider.Auth.Tokens.{
  rotated_token_is_refused, revoked_device_is_locked_out, gives_tokens_to, accepts_device,
}
use mnema.FileProvider.Auth.Pairing.{pairing_code_is_single_use}

-- Tokens that carry only a device's id.
abbrev claims : String → Claims
claims id = record {
  sub = id;
  aud = "mnema-file-provider";
  iat = 0;
  exp = minutes 15;
  scope = "files:read files:upload";
  token_type = "access";
}

abbrev crypto : Crypto
crypto = record {
  hash = λ text. text;
  encode = λ c key. c.sub;
  decode = λ token key now. if ltb now (minutes 15) then some (claims token) else none;
  short_name = λ text. text;
}

abbrev creds : Credentials
creds = record {
  codes =
      record { id = "c1"; code_hash = "code"; expires_at = minutes 10; consumed_at = none } ∷ [];
  devices = [];
}

abbrev device : FileProviderDevice
device = record {
  id = "d1";
  name = "phone";
  refresh_token_hash = "r1";
  refresh_expires_at = days 90;
  last_used_at = none;
  revoked_at = none;
}

abbrev paired : Credentials
paired = record {
  codes =
      record { id = "c1"; code_hash = "code"; expires_at = minutes 10; consumed_at = some 0 } ∷ [];
  devices = device ∷ [];
}

abbrev tokens : IssuedTokens
tokens = record { access_token = "d1"; refresh_token = "r1"; expires_in = 900; device_id = "d1" }

pairing_code_is_single_use_example :
    exchange_pairing_code crypto 5 "r2" "d2" "code" "other" "k" paired
    ≡ (err (permission_error "pairing code is invalid or expired"), paired)
unfolding exchange_pairing_code access_token access_claims new_device
pairing_code_is_single_use_example =
    pairing_code_is_single_use crypto 0 5 "r1" "r2" "d1" "d2" "code" "phone" "other" "k" "k" creds
      {creds' = paired} {tokens = tokens} refl

abbrev rotated_creds : Credentials
rotated_creds = record paired {
  devices =
      record device {
        refresh_token_hash = "r2";
        refresh_expires_at = days 91;
        last_used_at = some (days 1);
      }
      ∷ [];
}

abbrev rotated_tokens : IssuedTokens
rotated_tokens = record {
  access_token = "d1";
  refresh_token = "r2";
  expires_in = 900;
  device_id = "d1";
}

rotated_token_is_refused_example :
    rotate_refresh_token crypto (days 2) "r3" "r1" "k" rotated_creds
    ≡ (err (permission_error "refresh token is invalid or expired"), rotated_creds)
unfolding rotate_refresh_token access_token access_claims
rotated_token_is_refused_example =
    rotated_token_is_refused crypto (days 1) (days 2) "r2" "r3" "r1" "k" "k" paired
      {creds' = rotated_creds} {tokens = rotated_tokens} (omega arith) refl refl

abbrev revoked_creds : Credentials
revoked_creds = record paired { devices = record device { revoked_at = some 3 } ∷ [] }

revoked_device_is_locked_out_example :
    (gives_tokens_to "d1" (rotate_refresh_token crypto 4 "r2" "r1" "k" revoked_creds).0 ≡ false)
    × (accepts_device "d1" (verify_access_token crypto 4 "d1" "k" revoked_creds).0 ≡ false)
unfolding revoke_device
revoked_device_is_locked_out_example =
    revoked_device_is_locked_out crypto 3 4 "d1" "r2" "r1" "d1" "k" paired {creds' = revoked_creds}
      (omega arith) refl
