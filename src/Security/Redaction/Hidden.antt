-- ===== src/Security/Redaction/Hidden.antt =====
-- What `redact` (src/mnema/security/redaction.py) guarantees of every value that is stored.
use mnema.Prelude.{◌≡◌, refl, Bool, true, false, not, ◌&&◌, ◌||◌, String, str_eq, ap, arith}
use mnema.Security.Redaction.{
  Value, null, flag, num, str, mapping, sequence, Fields, end, field, Values, nil, cons, Patterns,
  redact, redact_fields, redact_values,
}

abbrev pub is_mark : Value → Bool
is_mark (str s) = str_eq s "[REDACTED]"
is_mark _ = false

-- Under a sensitive key there stands the mark, at every depth.
unfoldable mutual
  pub is_hidden : Patterns → Value → Bool
  is_hidden re null = true
  is_hidden re (flag b) = true
  is_hidden re (num n) = true
  is_hidden re (str s) = true
  is_hidden re (mapping fs) = are_hidden re fs
  is_hidden re (sequence vs) = all_hidden re vs

  pub are_hidden : Patterns → Fields → Bool
  are_hidden re end = true
  are_hidden re (field key v fs) =
      (not (re.sensitive key) || is_mark v) && is_hidden re v && are_hidden re fs

  pub all_hidden : Patterns → Values → Bool
  all_hidden re nil = true
  all_hidden re (cons v vs) = is_hidden re v && all_hidden re vs

mutual
  unfolding redact is_hidden

  hidden : (v : Value) (re : Patterns) → is_hidden re (redact re v) ≡ true
  hidden null re = refl
  hidden (flag b) re = refl
  hidden (num n) re = refl
  hidden (str s) re = refl
  hidden (mapping fs) re = hidden_fields fs re
  hidden (sequence vs) re = hidden_values vs re

  hidden_fields : (fs : Fields) (re : Patterns) → are_hidden re (redact_fields re fs) ≡ true
  hidden_fields end re = refl
  hidden_fields (field key v fs) re = ground (arith, hidden v re, hidden_fields fs re)

  hidden_values : (vs : Values) (re : Patterns) → all_hidden re (redact_values re vs) ≡ true
  hidden_values nil re = refl
  hidden_values (cons v vs) re = ground (arith, hidden v re, hidden_values vs re)

-- Whatever the value, no sensitive key of the redacted one, at any depth, holds anything but the
-- text [REDACTED].
pub redact-IsHidden : (re : Patterns) (v : Value) → is_hidden re (redact re v) ≡ true
redact-IsHidden re v = hidden v re

module _ (re : Patterns)
    (idem : (s : String) → re.bearer_sub (re.bearer_sub s) ≡ re.bearer_sub s) where
  mutual
    unfolding redact

    twice : (v : Value) → redact re (redact re v) ≡ redact re v
    twice null = refl
    twice (flag b) = refl
    twice (num n) = refl
    twice (str s) = ap str (idem s)
    twice (mapping fs) = ap mapping (twice_fields fs)
    twice (sequence vs) = ap sequence (twice_values vs)

    twice_fields : (fs : Fields) → redact_fields re (redact_fields re fs) ≡ redact_fields re fs
    twice_fields end = refl
    twice_fields (field key v fs) = ground (arith, twice v, twice_fields fs)

    twice_values : (vs : Values) → redact_values re (redact_values re vs) ≡ redact_values re vs
    twice_values nil = refl
    twice_values (cons v vs) = cc (twice v, twice_values vs)

-- Where the bearer pattern's substitution is idempotent, so is redaction: a value that was redacted
-- once more on its way to a second log is the same value.
redact_idem :
    (re : Patterns)
    → ((s : String) → re.bearer_sub (re.bearer_sub s) ≡ re.bearer_sub s)
    → (v : Value) → redact re (redact re v) ≡ redact re v
redact_idem re idem v = twice re idem v
