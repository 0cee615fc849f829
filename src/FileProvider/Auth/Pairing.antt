-- ===== src/FileProvider/Auth/Pairing.antt =====
-- What a pairing code of auth.py is good for.
use mnema.Prelude.{
  ◌+◌, ◌-◌, ◌%◌, ◌≡◌, refl, true, some, find, find-passes, is_some, String, Option-cases, inl, inr,
  DateTime, minutes, arith,
}
use mnema.Runtime.Errors.{permission_error, ok, err}
use mnema.Jobs.Models.FileProvider.{FileProviderPairingCode}
use mnema.FileProvider.Auth.{
  IssuedTokens, Claims, Crypto, Credentials, update_first, access_claims, has_code,
  exchange_pairing_code, consumed,
}
use mnema.FileProvider.Auth.Lookup.{find-update_first}

exchange-inv :
    (c : Crypto) (now : DateTime) (refresh id code name key : String) (creds : Credentials)
    {creds' : Credentials} {tokens : IssuedTokens}
    → exchange_pairing_code c now refresh id code name key creds ≡ (ok tokens, creds')
    → (p : FileProviderPairingCode) × (find (has_code (c.hash code)) creds.codes ≡ some p)
      × (creds'.codes ≡ update_first (has_code (c.hash code)) (consumed now) creds.codes)
unfolding exchange_pairing_code
exchange-inv c now refresh id code name key creds {creds'} {tokens} h =
    elim (Option-cases (find (has_code (c.hash code)) creds.codes)) [
      | inl missing ↦ absurd (ground arith)
      | inr (p, found) ↦ (p, found, ground arith)
    ]

spent_code :
    (c : Crypto) (now : DateTime) (refresh id code name key : String) (creds : Credentials)
    {p : FileProviderPairingCode}
    → find (has_code (c.hash code)) creds.codes ≡ some p
    → is_some p.consumed_at ≡ true
    → exchange_pairing_code c now refresh id code name key creds
      ≡ (err (permission_error "pairing code is invalid or expired"), creds)
unfolding exchange_pairing_code
spent_code c now refresh id code name key creds {p} found spent = ground arith

-- A pairing code works once: after an exchange that it won, no exchange with it succeeds, whatever
-- the time, the device's name and the key, and the second attempt changes nothing.
pub pairing_code_is_single_use :
    (c : Crypto) (now later : DateTime) (refresh refresh' id id' code name name' key key' : String)
    (creds : Credentials) {creds' : Credentials} {tokens : IssuedTokens}
    → exchange_pairing_code c now refresh id code name key creds ≡ (ok tokens, creds')
    → exchange_pairing_code c later refresh' id' code name' key' creds'
      ≡ (err (permission_error "pairing code is invalid or expired"), creds')
pairing_code_is_single_use c now later refresh refresh' id id' code name name' key key' creds
      {creds'} h =
    let (p, found, changed) = exchange-inv c now refresh id code name key creds h in
    spent_code c later refresh' id' code name' key' creds' {p = consumed now p}
      (rw changed (
        find-update_first (has_code (c.hash code)) (consumed now) creds.codes {x = p}
          (find-passes (has_code (c.hash code)) creds.codes found) found))
      refl

-- A `datetime` claim in a token: its whole seconds.
unfoldable pub whole_seconds : DateTime → DateTime
whole_seconds t = t - t % 1000000

-- The claims that PyJWT puts into the token and reads back.
abbrev pub carried_claims : DateTime → String → Claims
carried_claims now id = record (access_claims now id) {
  iat = whole_seconds now;
  exp = whole_seconds (now + minutes 15);
}
