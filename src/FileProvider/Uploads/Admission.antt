-- ===== src/FileProvider/Uploads/Admission.antt =====
-- Which uploads `create_upload` (src/mnema/file_provider/service.py) admits.
use Prim.Native.String.{len, count}
use mnema.Prelude.{
  ℕ, ◌+◌, ◌-◌, ◌*◌, ◌<◌, ◌↔◌, any, all, ◌==◌, none, codes, str_eq_iff, ◌≤◌, ◌≡◌, refl, Bool, true,
  false, ◌&&◌, Option, some, List, [], ◌∷◌, leb, String, arith, Bool-cases, inl, inr,
}
use mnema.Runtime.Errors.{Error, err, ok, is_ok, Result-cases}
use mnema.Runtime.Floats.{quotient, of_percent}
use mnema.Domain.Storage.{safe_relative_path}
use mnema.FileProvider.Uploads.{
  Site, DiskUsage, validate_upload_name, last_part, is_hex, is_sha256, has_room,
}

-- Every character of the text is a lowercase hexadecimal digit.
abbrev pub IsHexadecimal : List ℕ → Type 0
IsHexadecimal [] = Unit
IsHexadecimal (c ∷ cs) = (any (λ d. d == c) (codes "0123456789abcdef") ≡ true) × IsHexadecimal cs

abbrev pub IsDigest : Option String → Type 0
IsDigest none = Unit
IsDigest (some t) = (count t ≡ 64) × IsHexadecimal (codes t)

-- What `create_upload` asks of a request and of the disk.
pub record IsAdmissible (site : Site) (usage : DiskUsage) (name : String) (size : ℕ)
    (sha256 : Option String) : Type 0 where
  pub parts : List String
  pub safe : safe_relative_path site.host.lib (site.strip name) ≡ ok parts
  pub one_name : last_part parts ≡ site.strip name
  pub no_dot : ¬ (site.strip name ≡ ".")
  pub no_dots : ¬ (site.strip name ≡ "..")
  pub short : len (site.strip name) ≤ 255
  pub within_limit : size ≤ site.max_file_size
  pub fits_thrice : size + size + size ≤ usage.free
  pub disk_exists : 0 < usage.total
  pub reserve :
      of_percent site.minimum_free_percent
      ≤ quotient ((usage.free - (size + size + size)) * 100) usage.total
  pub digest : IsDigest sha256

hex_digit : (c : ℕ) → is_hex c ≡ any (λ d. d == c) (codes "0123456789abcdef")
hex_digit c = ground arith

all_hex : (cs : List ℕ) → (all is_hex cs ≡ true) ↔ IsHexadecimal cs
all_hex [] = (λ h. tt, λ h. refl)
all_hex (c ∷ cs) =
    let (to, from) = all_hex cs in
    let digit = hex_digit c in
    (
      λ h. (ground arith, to (ground arith)),
      λ w. (let rest = from w.1 in let first = w.0 in ground arith),
    )

-- The guards of `create_upload`.
unfoldable pub admits : Site → DiskUsage → String → ℕ → Option String → Bool
admits site usage name size sha256 =
    is_ok (validate_upload_name site name)
    && leb size site.max_file_size
    && has_room site usage size
    && is_sha256 sha256

is_sha256-IsDigest : (sha256 : Option String) → (is_sha256 sha256 ≡ true) ↔ IsDigest sha256
is_sha256-IsDigest none = (λ h. tt, λ h. refl)
is_sha256-IsDigest (some t) =
    let (to, from) = all_hex (codes t) in
    (
      λ h. (ground arith, to (ground arith)),
      λ w. (let digits = from w.1 in let number = w.0 in ground arith),
    )

admits-inv :
    (site : Site) (usage : DiskUsage) (name : String) (size : ℕ) (sha256 : Option String)
    → admits site usage name size sha256 ≡ true
    → (is_ok (validate_upload_name site name) ≡ true)
      × (size ≤ site.max_file_size)
      × (size + size + size ≤ usage.free)
      × (0 < usage.total)
      × (of_percent site.minimum_free_percent
          ≤ quotient ((usage.free - (size + size + size)) * 100) usage.total)
      × (is_sha256 sha256 ≡ true)
unfolding admits has_room
admits-inv site usage name size sha256 h =
    let thrice : size * 3 ≡ size + size + size = omega arith in
    (ground arith, ground arith, ground arith, ground arith, ground arith, ground arith)

admits-intro :
    (site : Site) (usage : DiskUsage) (name : String) (size : ℕ) (sha256 : Option String)
    → is_ok (validate_upload_name site name) ≡ true
    → size ≤ site.max_file_size
    → size + size + size ≤ usage.free
    → 0 < usage.total
    → of_percent site.minimum_free_percent
      ≤ quotient ((usage.free - (size + size + size)) * 100) usage.total
    → is_sha256 sha256 ≡ true
    → admits site usage name size sha256 ≡ true
unfolding admits has_room
admits-intro site usage name size sha256 valid limit fits disk reserve digest =
    let thrice : size * 3 ≡ size + size + size = omega arith in ground arith

pub true-false : {b : Bool} → b ≡ true → b ≡ false → ⊥
true-false {b} yes' no' = ground arith

is_false : {b : Bool} → (b ≡ true → ⊥) → b ≡ false
is_false {b} no' = elim (Bool-cases b) [ inl e ↦ absurd (no' e) | inr e ↦ e ]

unsafe_name :
    (site : Site) (name : String) {e : Error}
    → safe_relative_path site.host.lib (site.strip name) ≡ err e
    → is_ok (validate_upload_name site name) ≡ true
    → ⊥
unfolding validate_upload_name
unsafe_name site name {e} bad valid = ground arith

name_valid :
    (site : Site) (name : String) {parts : List String}
    → safe_relative_path site.host.lib (site.strip name) ≡ ok parts
    → (is_ok (validate_upload_name site name) ≡ true) ↔ (
        (last_part parts ≡ site.strip name)
        × (¬ (site.strip name ≡ "."))
        × (¬ (site.strip name ≡ ".."))
        × (len (site.strip name) ≤ 255))
unfolding validate_upload_name
name_valid site name {parts} safe =
    let one = str_eq_iff (last_part parts) (site.strip name) in
    let dot = str_eq_iff (site.strip name) "." in
    let dots = str_eq_iff (site.strip name) ".." in
    (
      λ h. (ground (arith, one), λ e. ground (arith, dot), λ e. ground (arith, dots), ground arith),
      λ w.
          let named = one.1 w.0 in
          let no_dot = is_false (λ e. w.1 (dot.0 e)) in
          let no_dots = is_false (λ e. w.2 (dots.0 e)) in let short = w.3 in ground arith,
    )

pub admits_iff :
    (site : Site) (usage : DiskUsage) (name : String) (size : ℕ) (sha256 : Option String)
    → (admits site usage name size sha256 ≡ true) ↔ IsAdmissible site usage name size sha256
admits_iff site usage name size sha256 = (
  λ h.
      let (valid, limit, fits, disk, reserve, digest) = admits-inv site usage name size sha256 h in
      elim (Result-cases (safe_relative_path site.host.lib (site.strip name))) [
        | inl (e, bad) ↦ absurd (unsafe_name site name bad valid)
        | inr (parts, safe) ↦
            let (named, no_dot, no_dots, short) =
              (name_valid site name {parts = parts} safe).0 valid in
            record {
              parts = parts;
              safe = safe;
              one_name = named;
              no_dot = no_dot;
              no_dots = no_dots;
              short = short;
              within_limit = limit;
              fits_thrice = fits;
              disk_exists = disk;
              reserve = reserve;
              digest = (is_sha256-IsDigest sha256).0 digest;
            }
      ],
  λ o.
      admits-intro site usage name size sha256
        ((name_valid site name {parts = o.parts} o.safe).1
          (o.one_name, o.no_dot, o.no_dots, o.short))
        o.within_limit o.fits_thrice o.disk_exists o.reserve
        ((is_sha256-IsDigest sha256).1 o.digest),
)
