-- ===== src/FileProvider/Auth.antt =====
-- The credentials of paired devices (src/mnema/file_provider/auth.py). Each operation takes the
-- time that `datetime.now(UTC)` returns and the random texts that it draws, and gives back the two
-- tables that it leaves.
pub mod Lookup
pub mod Tokens
pub mod Pairing
use mnema.Prelude.{
  ℕ, ◌+◌, ◌≡◌, refl, Bool, true, false, ◌&&◌, ◌||◌, Option, none, some, List, [], ◌∷◌, ◌++◌, find,
  leb, if◌then◌else◌, is_some, String, str_eq, DateTime, minutes, days,
}
use mnema.Runtime.Errors.{Error, permission_error, Result, ok, err}
use mnema.Jobs.Models.FileProvider.{FileProviderPairingCode, FileProviderDevice}

pub record IssuedTokens : Type 0 where
  pub access_token : String
  pub refresh_token : String
  pub expires_in : ℕ
  pub device_id : String

-- The claims of an access token.
pub record Claims : Type 0 where
  pub sub : String
  pub aud : String
  pub iat : DateTime
  pub exp : DateTime
  pub scope : String
  pub token_type : String

-- What the module calls: SHA-256 in hexadecimal, PyJWT's `encode` and `decode`, and the text methods
-- `strip()[:100]`. `encode` writes times in whole seconds. `decode` is given the time; `none` is a
-- `PyJWTError`.
pub record Crypto : Type 0 where
  pub hash : String → String
  pub encode : Claims → String → String
  pub decode : String → String → DateTime → Option Claims
  pub short_name : String → String

pub record Credentials : Type 0 where
  pub codes : List FileProviderPairingCode
  pub devices : List FileProviderDevice

module _ {A : Type 0} where
  -- A change to the object that a query found.
  abbrev pub update_first : (A → Bool) → (A → A) → List A → List A
  update_first p f [] = []
  update_first p f (x ∷ xs) = if p x then f x ∷ xs else x ∷ update_first p f xs

-- `create_pairing_code`
unfoldable pub create_pairing_code :
    Crypto → DateTime → String → String → Credentials → String × Credentials
create_pairing_code c now code id creds =
    let row : FileProviderPairingCode = record {
      id = id;
      code_hash = c.hash code;
      expires_at = now + minutes 10;
      consumed_at = none;
    } in
    (code, record creds { codes = creds.codes ++ row ∷ [] })

abbrev pub audience : String
audience = "mnema-file-provider"

abbrev pub full_scope : String
full_scope = "files:read files:upload"

unfoldable pub access_claims : DateTime → String → Claims
access_claims now device_id = record {
  sub = device_id;
  aud = audience;
  iat = now;
  exp = now + minutes 15;
  scope = full_scope;
  token_type = "access";
}

-- `_access_token`
unfoldable pub access_token : Crypto → DateTime → String → String → String
unfolding access_claims
access_token c now key device_id = c.encode (access_claims now device_id) key

abbrev pub has_code : String → FileProviderPairingCode → Bool
has_code hashed p = str_eq p.code_hash hashed

abbrev pub has_refresh : String → FileProviderDevice → Bool
has_refresh hashed d = str_eq d.refresh_token_hash hashed

abbrev pub has_device : String → FileProviderDevice → Bool
has_device id d = str_eq d.id id

abbrev pub consumed : DateTime → FileProviderPairingCode → FileProviderPairingCode
consumed now p = record p { consumed_at = some now }

unfoldable pub new_device : Crypto → DateTime → String → String → String → FileProviderDevice
new_device c now id device_name refresh =
    let name = c.short_name device_name in
    record {
      id = id;
      name = if str_eq name "" then "iPhone" else name;
      refresh_token_hash = c.hash refresh;
      refresh_expires_at = now + days 90;
      last_used_at = none;
      revoked_at = none;
    }

-- `exchange_pairing_code`; `refresh` and `id` are drawn at random.
unfoldable pub exchange_pairing_code :
    Crypto
    → DateTime
    → String
    → String
    → String
    → String
    → String
    → Credentials
    → Result IssuedTokens × Credentials
exchange_pairing_code c now refresh id code device_name key creds =
    elim (find (has_code (c.hash code)) creds.codes) [
      | none ↦ (err (permission_error "pairing code is invalid or expired"), creds)
      | some pairing ↦
          if is_some pairing.consumed_at || leb pairing.expires_at now
          then (err (permission_error "pairing code is invalid or expired"), creds)
          else (
            ok (record {
              access_token = access_token c now key id;
              refresh_token = refresh;
              expires_in = 900;
              device_id = id;
            }),
            record {
              codes = update_first (has_code (c.hash code)) (consumed now) creds.codes;
              devices = creds.devices ++ new_device c now id device_name refresh ∷ [];
            },
          )
    ]

abbrev pub rotated : Crypto → DateTime → String → FileProviderDevice → FileProviderDevice
rotated c now replacement d = record d {
  refresh_token_hash = c.hash replacement;
  refresh_expires_at = now + days 90;
  last_used_at = some now;
}

-- `rotate_refresh_token`; `replacement` is drawn at random.
unfoldable pub rotate_refresh_token :
    Crypto → DateTime → String → String → String → Credentials → Result IssuedTokens × Credentials
rotate_refresh_token c now replacement refresh key creds =
    elim (find (has_refresh (c.hash refresh)) creds.devices) [
      | none ↦ (err (permission_error "refresh token is invalid or expired"), creds)
      | some device ↦
          if is_some device.revoked_at || leb device.refresh_expires_at now
          then (err (permission_error "refresh token is invalid or expired"), creds)
          else (
            ok (record {
              access_token = access_token c now key device.id;
              refresh_token = replacement;
              expires_in = 900;
              device_id = device.id;
            }),
            record creds {
              devices =
                  update_first (has_refresh (c.hash refresh)) (rotated c now replacement)
                    creds.devices;
            },
          )
    ]

abbrev pub used : DateTime → FileProviderDevice → FileProviderDevice
used now d = record d { last_used_at = some now }

-- `verify_access_token`
unfoldable pub verify_access_token :
    Crypto → DateTime → String → String → Credentials → Result FileProviderDevice × Credentials
verify_access_token c now token key creds = elim (c.decode token key now) [
  | none ↦ (err (permission_error "access token is invalid"), creds)
  | some payload ↦
      if str_eq payload.token_type "access" && str_eq payload.scope full_scope
      then (elim (find (has_device payload.sub) creds.devices) [
        | none ↦ (err (permission_error "device is revoked"), creds)
        | some device ↦
            if is_some device.revoked_at
            then (err (permission_error "device is revoked"), creds)
            else (
              ok (used now device),
              record creds {
                devices = update_first (has_device payload.sub) (used now) creds.devices;
              },
            )
      ])
      else (err (permission_error "access token scope is invalid"), creds)
]

abbrev pub revoked : DateTime → FileProviderDevice → FileProviderDevice
revoked now d = record d { revoked_at = some now }

-- `revoke_device`
unfoldable pub revoke_device : DateTime → String → Credentials → Bool × Credentials
revoke_device now device_id creds = elim (find (has_device device_id) creds.devices) [
  | none ↦ (false, creds)
  | some device ↦ (
    true,
    record creds { devices = update_first (has_device device_id) (revoked now) creds.devices },
  )
]
