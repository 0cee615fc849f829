-- ===== src/Runtime/Errors.antt =====
-- The exceptions that the modelled operations raise or handle, and the result of a call.
use mnema.Prelude.{◌≡◌, refl, ◌⊎◌, inl, inr, Bool, String}

pub data Error : Type 0 where
  file_not_found os_error source_changed_error invalid_transition assertion_error : Error
  unsafe_path value_error runtime_error permission_error verification_failure other : String → Error

pub data Result {ℓ} (A : Type ℓ) : Type ℓ where
  ok : A → Result A
  err : Error → Result A

abbrev pub is_ok {ℓ} : {A : Type ℓ} → Result A → Bool
is_ok (ok a) = Bool.true
is_ok (err e) = Bool.false

-- `except OSError`: `FileNotFoundError` and `PermissionError` are subclasses.
abbrev pub is_os_error : Error → Bool
is_os_error Error.file_not_found = Bool.true
is_os_error Error.os_error = Bool.true
is_os_error (Error.permission_error message) = Bool.true
is_os_error _ = Bool.false

-- `except ValueError`: `UnsafePath` and `InvalidTransition` are subclasses.
abbrev pub is_value_error : Error → Bool
is_value_error (Error.value_error message) = Bool.true
is_value_error (Error.unsafe_path message) = Bool.true
is_value_error Error.invalid_transition = Bool.true
is_value_error _ = Bool.false

-- `except RuntimeError`: `VerificationFailure` and `SourceChangedError` are subclasses.
abbrev pub is_runtime_error : Error → Bool
is_runtime_error (Error.runtime_error message) = Bool.true
is_runtime_error (Error.verification_failure message) = Bool.true
is_runtime_error Error.source_changed_error = Bool.true
is_runtime_error _ = Bool.false

pub Result-cases {ℓ} :
    {A : Type ℓ} (r : Result A) → ((e : Error) × (r ≡ err e)) ⊎ ((a : A) × (r ≡ ok a))
Result-cases (ok a) = inr (a, refl)
Result-cases (err e) = inl (e, refl)

abbrev pub is_unsafe_path : Error → Bool
is_unsafe_path (Error.unsafe_path message) = Bool.true
is_unsafe_path _ = Bool.false

abbrev pub is_source_changed : Error → Bool
is_source_changed Error.source_changed_error = Bool.true
is_source_changed _ = Bool.false
