-- ===== src/Policies/Eligibility.antt =====
-- Which discovered objects may be archived (src/mnema/policies/eligibility.py). `fnmatch` and the
-- parts of a `PurePosixPath` are Python's, and parameters here.
pub mod Rules
use mnema.Prelude.{
  ℕ, ◌+◌, ◌<◌, ◌≤◌, max, ◌≡◌, refl, ◌↔◌, ◌⊎◌, inl, inr, Bool, true, false, not, ◌&&◌, ◌||◌, Option,
  none, some, List, [], ◌∷◌, ◌++◌, any, ltb, if◌then◌else◌, String, str_eq, DateTime, hours, days,
  arith,
}
use mnema.Config.Settings.{SourcePolicy}
use mnema.Domain.Source.{SourceObject}
use mnema.Policies.Deletion.{is_empty, blocker_if}

pub record PolicyDecision : Type 0 where
  pub eligible : Bool
  pub reasons : List String

pub record Matching : Type 0 where
  pub parts : String → List String
  pub fnmatch : String → String → Bool

abbrev pub is_in : String → List String → Bool
is_in s = any (str_eq s)

-- `path.parts[0]`, an `IndexError` on an empty path, is only reached with a list of directories.
unfoldable pub not_included : List String → List String → Option Bool
not_included [] included = if is_empty included then some false else none
not_included (first ∷ rest) included = some (not (is_empty included) && not (is_in first included))

unfoldable pub is_excluded : List String → List String → Bool
is_excluded [] excluded = false
is_excluded (first ∷ rest) excluded = is_in first excluded

unfoldable pub is_above : ℕ → Option ℕ → Bool
is_above size none = false
is_above size (some maximum) = ltb maximum size

unfoldable pub required_age : SourcePolicy → ℕ
required_age policy = max (days policy.archive_after_days) (hours policy.stability_window_hours)

-- The reasons after the first test, whose condition is `outside`.
unfoldable pub policy_reasons :
    Matching → SourceObject → SourcePolicy → DateTime → Bool → List String
policy_reasons m item policy now outside =
    blocker_if outside "directory not included"
    ++ (blocker_if (is_excluded (m.parts item.relative_path) policy.excluded_directories)
          "directory excluded"
        ++ (blocker_if
              (not (is_empty policy.included_globs)
                && not (any (m.fnmatch item.relative_path) policy.included_globs))
              "pattern not included"
            ++ (blocker_if (any (m.fnmatch item.relative_path) policy.excluded_globs)
                  "pattern excluded"
                ++ (blocker_if (ltb item.size policy.minimum_file_size) "below minimum file size"
                    ++ (blocker_if (is_above item.size policy.maximum_file_size)
                          "above maximum file size"
                        ++ blocker_if (ltb now (item.modified_at + required_age policy))
                            "age or stability window not reached")))))

-- `evaluate_policy`. `none` is the `IndexError` of a path without parts.
unfoldable pub evaluate_policy :
    Matching → SourceObject → SourcePolicy → DateTime → Option PolicyDecision
evaluate_policy m item policy now =
    elim (not_included (m.parts item.relative_path) policy.included_directories) [
      | none ↦ none
      | some outside ↦
          let reasons = policy_reasons m item policy now outside in
          some (record { eligible = is_empty reasons; reasons = reasons })
    ]
