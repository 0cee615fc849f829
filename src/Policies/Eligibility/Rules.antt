-- ===== src/Policies/Eligibility/Rules.antt =====
-- When an object is eligible (src/mnema/policies/eligibility.py).
use mnema.Prelude.{
  ◌⊎◌, inl, inr, ℕ, Option, none, List, [], ◌∷◌, String, str_eq, str_eq_iff, Bool-cases,
  Option-cases, refl, ◌+◌, ◌≤◌, ◌≡◌, ◌↔◌, Bool, true, false, not, ◌&&◌, ◌||◌, some, any, ltb,
  DateTime, hours, days, arith,
}
use mnema.Config.Settings.{SourcePolicy}
use mnema.Domain.Source.{SourceObject}
use mnema.Policies.Deletion.{is_empty}
use mnema.Policies.Deletion.Gate.{is_empty-append, is_empty-blocker_if}
use mnema.Policies.Eligibility.{
  PolicyDecision, Matching, is_in, not_included, is_excluded, is_above, required_age,
  policy_reasons, evaluate_policy,
}

-- The first directory of a path is one of `directories`.
abbrev pub IsWithin : List String → List String → Type 0
IsWithin [] directories = ⊥
IsWithin (first ∷ rest) [] = ⊥
IsWithin (first ∷ rest) (directory ∷ directories) =
    (first ≡ directory) ⊎ IsWithin (first ∷ rest) directories

-- Some pattern of the list matches the path.
abbrev pub IsMatched : Matching → String → List String → Type 0
IsMatched m path [] = ⊥
IsMatched m path (pattern ∷ patterns) = (m.fnmatch path pattern ≡ true) ⊎ IsMatched m path patterns

abbrev pub IsAtMost : ℕ → Option ℕ → Type 0
IsAtMost size none = Unit
IsAtMost size (some maximum) = size ≤ maximum

pub record IsEligible (m : Matching) (item : SourceObject) (policy : SourcePolicy) (now : DateTime)
    : Type 0 where
  pub included :
      (policy.included_directories ≡ [])
      ⊎ IsWithin (m.parts item.relative_path) policy.included_directories
  pub not_excluded : ¬ (IsWithin (m.parts item.relative_path) policy.excluded_directories)
  pub matched : (policy.included_globs ≡ []) ⊎ IsMatched m item.relative_path policy.included_globs
  pub unmatched : ¬ (IsMatched m item.relative_path policy.excluded_globs)
  pub large_enough : policy.minimum_file_size ≤ item.size
  pub small_enough : IsAtMost item.size policy.maximum_file_size
  pub old_enough : item.modified_at + days policy.archive_after_days ≤ now
  pub stable : item.modified_at + hours policy.stability_window_hours ≤ now

is_false : {b : Bool} → (b ≡ true → ⊥) → b ≡ false
is_false {b} no' = elim (Bool-cases b) [ inl e ↦ absurd (no' e) | inr e ↦ e ]

is_in-IsWithin :
    (first : String) (rest directories : List String)
    → (is_in first directories ≡ true) ↔ IsWithin (first ∷ rest) directories
is_in-IsWithin first rest [] = (λ h. ground arith, λ h. absurd h)
is_in-IsWithin first rest (directory ∷ directories) =
    let (to, from) = is_in-IsWithin first rest directories in
    let (same, equal) = str_eq_iff first directory in
    (
      λ h. elim (Bool-cases (str_eq first directory)) [
        | inl e ↦ inl (same e)
        | inr other ↦ inr (to (ground arith))
      ],
      λ w. elim w [
        | inl e ↦ (let e' = equal e in ground arith)
        | inr more ↦ (let more' = from more in ground arith)
      ],
    )

any-IsMatched :
    (m : Matching) (path : String) (patterns : List String)
    → (any (m.fnmatch path) patterns ≡ true) ↔ IsMatched m path patterns
any-IsMatched m path [] = (λ h. ground arith, λ h. absurd h)
any-IsMatched m path (pattern ∷ patterns) =
    let (to, from) = any-IsMatched m path patterns in
    (
      λ h. elim (Bool-cases (m.fnmatch path pattern)) [
        | inl e ↦ inl e
        | inr other ↦ inr (to (ground arith))
      ],
      λ w. elim w [ inl e ↦ ground arith | inr more ↦ (let more' = from more in ground arith) ],
    )

negated : {a b : Bool} → a ≡ not b → a ≡ false → b ≡ true
negated {a} {b} h e = ground arith

turned : {a b : Bool} → a ≡ not b → b ≡ true → a ≡ false
turned {a} {b} h e = ground arith

nonempty : {d : String} {ds : List String} → d ∷ ds ≡ [] → ⊥
nonempty {d} {ds} h = ground arith

not_included_lem :
    (first : String) (rest : List String) (d : String) (ds : List String) {outside : Bool}
    → not_included (first ∷ rest) (d ∷ ds) ≡ some outside
    → outside ≡ not (is_in first (d ∷ ds))
unfolding not_included
not_included_lem first rest d ds {outside} h = ground arith

included_iff :
    (parts directories : List String) {outside : Bool}
    → not_included parts directories ≡ some outside
    → (outside ≡ false) ↔ ((directories ≡ []) ⊎ IsWithin parts directories)
unfolding not_included
included_iff parts [] {outside} h = (λ e. inl refl, λ e. ground arith)
included_iff [] (d ∷ ds) {outside} h = absurd (ground arith)
included_iff (first ∷ rest) (d ∷ ds) {outside} h =
    let outside_is = not_included_lem first rest d ds h in
    let (to, from) = is_in-IsWithin first rest (d ∷ ds) in
    (
      λ e. inr (to (negated outside_is e)),
      λ w. elim w [ inl e ↦ absurd (nonempty e) | inr within ↦ turned outside_is (from within) ],
    )

excluded_iff :
    (parts directories : List String)
    → (is_excluded parts directories ≡ false) ↔ (¬ (IsWithin parts directories))
unfolding is_excluded
excluded_iff [] directories = (λ h w. w, λ h. refl)
excluded_iff (first ∷ rest) directories =
    let (to, from) = is_in-IsWithin first rest directories in
    (λ h w. (let known = from w in absurd (ground arith)), λ away. is_false (λ e. away (to e)))

IsMatched-iff :
    (m : Matching) (path : String) (patterns : List String)
    → ((is_empty patterns || any (m.fnmatch path) patterns) ≡ true)
      ↔ ((patterns ≡ []) ⊎ IsMatched m path patterns)
IsMatched-iff m path [] = (λ h. inl refl, λ h. refl)
IsMatched-iff m path (p ∷ ps) =
    let (to, from) = any-IsMatched m path (p ∷ ps) in
    (λ h. inr (to h), λ w. elim w [ inl e ↦ absurd (ground arith) | inr w' ↦ from w' ])

unmatched_iff :
    (m : Matching) (path : String) (patterns : List String)
    → (any (m.fnmatch path) patterns ≡ false) ↔ (¬ (IsMatched m path patterns))
unmatched_iff m path patterns =
    let (to, from) = any-IsMatched m path patterns in
    (λ h w. (let known = from w in absurd (ground arith)), λ away. is_false (λ e. away (to e)))

is_above_iff :
    (size : ℕ) (maximum : Option ℕ) → (is_above size maximum ≡ false) ↔ IsAtMost size maximum
unfolding is_above
is_above_iff size none = (λ h. tt, λ h. refl)
is_above_iff size (some maximum) = (λ h. ground arith, λ h. ground arith)

reasons_lem :
    (m : Matching) (item : SourceObject) (policy : SourcePolicy) (now : DateTime) (outside : Bool)
    → is_empty (policy_reasons m item policy now outside) ≡ (
        not outside
        && (not (is_excluded (m.parts item.relative_path) policy.excluded_directories)
            && (not (
                  not (is_empty policy.included_globs)
                  && not (any (m.fnmatch item.relative_path) policy.included_globs))
                && (not (any (m.fnmatch item.relative_path) policy.excluded_globs)
                    && (not (ltb item.size policy.minimum_file_size)
                        && (not (is_above item.size policy.maximum_file_size)
                            && not (ltb now (item.modified_at + required_age policy))))))))
unfolding policy_reasons
reasons_lem m item policy now outside = simp (is_empty-append, is_empty-blocker_if)

-- Where the policy decides, it calls an object eligible exactly when the first directory of its path is
-- an included one, where there is a list of them, and no excluded one, its path matches an included
-- pattern, where there is a list of them, and no excluded one, its size is within the bounds, and it is
-- both as old as the policy asks and past the stability window.
pub eligible_iff :
    (m : Matching) (item : SourceObject) (policy : SourcePolicy) (now : DateTime)
    {d : PolicyDecision}
    → evaluate_policy m item policy now ≡ some d
    → (d.eligible ≡ true) ↔ IsEligible m item policy now
unfolding evaluate_policy required_age
eligible_iff m item policy now {d} h =
    elim (Option-cases (not_included (m.parts item.relative_path) policy.included_directories)) [
      | inl raised ↦ absurd (ground arith)
      | inr (outside, tested) ↦
          let (in_to, in_from) =
            included_iff (m.parts item.relative_path) policy.included_directories
              {outside = outside} tested in
          let (ex_to, ex_from) =
            excluded_iff (m.parts item.relative_path) policy.excluded_directories in
          let (match_to, match_from) = IsMatched-iff m item.relative_path policy.included_globs in
          let (un_to, un_from) = unmatched_iff m item.relative_path policy.excluded_globs in
          let (max_to, max_from) = is_above_iff item.size policy.maximum_file_size in
          let reasons = reasons_lem m item policy now outside in
          (
            λ e. record {
              included = in_to (ground arith);
              not_excluded = ex_to (ground arith);
              matched = match_to (ground arith);
              unmatched = un_to (ground arith);
              large_enough = ground arith;
              small_enough = max_to (ground arith);
              old_enough = ground arith;
              stable = ground arith;
            },
            λ o.
                let known = in_from o.included in
                let apart = ex_from o.not_excluded in
                let hit = match_from o.matched in
                let miss = un_from o.unmatched in
                let small = max_from o.small_enough in
                let large = o.large_enough in
                let old = o.old_enough in let stable = o.stable in ground arith,
          )
    ]
