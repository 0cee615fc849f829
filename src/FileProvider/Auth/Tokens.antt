-- ===== src/FileProvider/Auth/Tokens.antt =====
-- Refresh tokens that were rotated and devices that were revoked (auth.py).
use mnema.Prelude.{
  ◌≤◌, ◌≡◌, refl, Bool, true, false, none, some, List, [], ◌∷◌, find, count, all, if◌then◌else◌,
  is_some, String, str_eq, Option-cases, inl, inr, DateTime, arith,
}
use mnema.Runtime.Errors.{permission_error, Result, ok, err}
use mnema.Jobs.Models.FileProvider.{FileProviderDevice}
use mnema.FileProvider.Auth.{
  IssuedTokens, Crypto, Credentials, update_first, has_refresh, has_device, rotate_refresh_token,
  verify_access_token, revoke_device, rotated, revoked,
}
use mnema.FileProvider.Auth.Lookup.{find-update_first-none}

rotate-inv :
    (c : Crypto) (now : DateTime) (replacement refresh key : String) (creds : Credentials)
    {creds' : Credentials} {tokens : IssuedTokens}
    → rotate_refresh_token c now replacement refresh key creds ≡ (ok tokens, creds')
    → (d : FileProviderDevice) × (find (has_refresh (c.hash refresh)) creds.devices ≡ some d)
      × (tokens.device_id ≡ d.id)
      × (is_some d.revoked_at ≡ false)
      × (creds'.devices
          ≡ update_first (has_refresh (c.hash refresh)) (rotated c now replacement) creds.devices)
unfolding rotate_refresh_token
rotate-inv c now replacement refresh key creds {creds'} {tokens} h =
    elim (Option-cases (find (has_refresh (c.hash refresh)) creds.devices)) [
      | inl missing ↦ absurd (ground arith)
      | inr (d, found) ↦ (d, found, ground arith, ground arith, ground arith)
    ]

unknown_refresh :
    (c : Crypto) (now : DateTime) (replacement refresh key : String) (creds : Credentials)
    → find (has_refresh (c.hash refresh)) creds.devices ≡ none
    → rotate_refresh_token c now replacement refresh key creds
      ≡ (err (permission_error "refresh token is invalid or expired"), creds)
unfolding rotate_refresh_token
unknown_refresh c now replacement refresh key creds missing = ground arith

-- A refresh token works once: where the table keeps at most one row for its hash and the replacement
-- has another hash, no rotation with it succeeds after the first, and the attempt changes nothing.
pub rotated_token_is_refused :
    (c : Crypto) (now later : DateTime) (replacement replacement' refresh key key' : String)
    (creds : Credentials) {creds' : Credentials} {tokens : IssuedTokens}
    → count (has_refresh (c.hash refresh)) creds.devices ≤ 1
    → str_eq (c.hash replacement) (c.hash refresh) ≡ false
    → rotate_refresh_token c now replacement refresh key creds ≡ (ok tokens, creds')
    → rotate_refresh_token c later replacement' refresh key' creds'
      ≡ (err (permission_error "refresh token is invalid or expired"), creds')
rotated_token_is_refused c now later replacement replacement' refresh key key' creds {creds'} unique
      fresh h =
    let (d, found, same, live, changed) = rotate-inv c now replacement refresh key creds h in
    unknown_refresh c later replacement' refresh key' creds' (
      rw changed (
        find-update_first-none (has_refresh (c.hash refresh)) (rotated c now replacement)
          creds.devices {x = d} unique fresh found))

-- Whether a rotation gave tokens to a device, and whether a token was accepted for it.
unfoldable pub gives_tokens_to : String → Result IssuedTokens → Bool
gives_tokens_to id (ok tokens) = str_eq tokens.device_id id
gives_tokens_to id (err e) = false

unfoldable pub accepts_device : String → Result FileProviderDevice → Bool
accepts_device id (ok d) = str_eq d.id id
accepts_device id (err e) = false

-- The row of a device, if there is one, is revoked.
abbrev revoked_row : String → FileProviderDevice → Bool
revoked_row id d = if str_eq d.id id then is_some d.revoked_at else true

revoke-inv :
    (now : DateTime) (id : String) (xs : List FileProviderDevice)
    → count (has_device id) xs ≤ 1
    → all (revoked_row id) (update_first (has_device id) (revoked now) xs) ≡ true
revoke-inv now id [] unique = refl
revoke-inv now id (x ∷ xs) unique = ground (arith, revoke-inv now id xs, none_left xs)
  where
    none_left :
        (ys : List FileProviderDevice)
        → count (has_device id) ys ≡ 0
        → all (revoked_row id) ys ≡ true
    none_left [] h = refl
    none_left (y ∷ ys) h = ground (arith, none_left ys)

find-all :
    (p q : FileProviderDevice → Bool) (xs : List FileProviderDevice) {x : FileProviderDevice}
    → all q xs ≡ true
    → find p xs ≡ some x
    → q x ≡ true
find-all p q [] holds h = cc
find-all p q (y ∷ ys) {x} holds h = ground (arith, find-all p q ys {x = x})

revoked_rotation :
    (c : Crypto) (now : DateTime) (id replacement refresh key : String) (creds : Credentials)
    → all (revoked_row id) creds.devices ≡ true
    → gives_tokens_to id (rotate_refresh_token c now replacement refresh key creds).0 ≡ false
unfolding rotate_refresh_token gives_tokens_to
revoked_rotation c now id replacement refresh key creds gone =
    elim (Option-cases (find (has_refresh (c.hash refresh)) creds.devices)) [
      | inl missing ↦ ground arith
      | inr (d, found) ↦
          ground
            (arith, find-all (has_refresh (c.hash refresh)) (revoked_row id) creds.devices {x = d})
    ]

revoked_access :
    (c : Crypto) (now : DateTime) (id token key : String) (creds : Credentials)
    → all (revoked_row id) creds.devices ≡ true
    → accepts_device id (verify_access_token c now token key creds).0 ≡ false
unfolding verify_access_token accepts_device
revoked_access c now id token key creds gone = elim (Option-cases (c.decode token key now)) [
  | inl refused ↦ ground arith
  | inr (payload, decoded) ↦ elim (Option-cases (find (has_device payload.sub) creds.devices)) [
    | inl missing ↦ ground arith
    | inr (d, found) ↦
        ground (arith, find-all (has_device payload.sub) (revoked_row id) creds.devices {x = d})
  ]
]

-- A revoked device is locked out: after `revoke_device` found its row, the only one with that id, no
-- refresh token gives new tokens to the device and no access token is accepted for it, whichever
-- tokens are shown and whenever.
pub revoked_device_is_locked_out :
    (c : Crypto) (now later : DateTime) (id replacement refresh token key : String)
    (creds : Credentials) {creds' : Credentials}
    → count (has_device id) creds.devices ≤ 1
    → revoke_device now id creds ≡ (true, creds')
    → (gives_tokens_to id (rotate_refresh_token c later replacement refresh key creds').0 ≡ false)
      × (accepts_device id (verify_access_token c later token key creds').0 ≡ false)
unfolding revoke_device
revoked_device_is_locked_out c now later id replacement refresh token key creds {creds'} unique h =
    (
      revoked_rotation c later id replacement refresh key creds' gone,
      revoked_access c later id token key creds' gone,
    )
  where
    changed : creds'.devices ≡ update_first (has_device id) (revoked now) creds.devices
    changed = ground arith

    gone : all (revoked_row id) creds'.devices ≡ true
    gone = rw changed (revoke-inv now id creds.devices unique)
