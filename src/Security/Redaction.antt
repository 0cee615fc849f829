-- ===== src/Security/Redaction.antt =====
-- What audit events and job logs keep of a value (src/mnema/security/redaction.py).
pub mod Hidden
use mnema.Prelude.{ℕ, Bool, String, if◌then◌else◌}

-- A JSON value. A list that holds values is declared with them.
mutual
  pub data Value : Type 0 where
    null : Value
    flag : Bool → Value
    num : ℕ → Value
    str : String → Value
    mapping : Fields → Value
    sequence : Values → Value

  pub data Fields : Type 0 where
    end : Fields
    field : String → Value → Fields → Fields

  pub data Values : Type 0 where
    nil : Values
    cons : Value → Values → Values

-- The two regular expressions, as Python's `re` runs them: `_SENSITIVE.search` and `_BEARER.sub`.
pub record Patterns : Type 0 where
  pub sensitive : String → Bool
  pub bearer_sub : String → String

unfoldable mutual
  pub redact : Patterns → Value → Value
  redact re null = null
  redact re (flag b) = flag b
  redact re (num n) = num n
  redact re (str s) = str (re.bearer_sub s)
  redact re (mapping fs) = mapping (redact_fields re fs)
  redact re (sequence vs) = sequence (redact_values re vs)

  pub redact_fields : Patterns → Fields → Fields
  redact_fields re end = end
  redact_fields re (field key item fs) =
      field key (if re.sensitive key then str "[REDACTED]" else redact re item)
        (redact_fields re fs)

  pub redact_values : Patterns → Values → Values
  redact_values re nil = nil
  redact_values re (cons v vs) = cons (redact re v) (redact_values re vs)
