-- ===== src/Domain/States.antt =====
-- The archive states and their transitions (src/mnema/domain/states.py).
pub mod Graph
use mnema.Prelude.{
  ℕ, suc, ◌+◌, ◌≡◌, refl, sym, ◌∙◌, ap, ◌↔◌, Bool, true, false, ◌||◌, Option, none, some, List, [],
  ◌∷◌, ◌++◌, get_elem?, any, ◌==◌, ==_iff, if◌then◌else◌,
}

pub data ArchiveState : Type 0 where
  discovered ineligible eligible queued downloading local_staged local_verified : ArchiveState
  local_committed local_backup_pending local_backup_verified : ArchiveState
  cold_upload_pending cold_uploaded cold_verified cold_archive_pending : ArchiveState
  cold_archived quarantined ready_for_revalidation ready_for_deletion : ArchiveState
  deleting deleted_from_source archived restore_requested restoring : ArchiveState
  restored source_changed failed_retryable manual_review test_cleaned : ArchiveState

-- The position of a member in the enumeration, by which members are compared.
abbrev pub index : ArchiveState → ℕ
index discovered = 0
index ineligible = 1
index eligible = 2
index queued = 3
index downloading = 4
index local_staged = 5
index local_verified = 6
index local_committed = 7
index local_backup_pending = 8
index local_backup_verified = 9
index cold_upload_pending = 10
index cold_uploaded = 11
index cold_verified = 12
index cold_archive_pending = 13
index cold_archived = 14
index quarantined = 15
index ready_for_revalidation = 16
index ready_for_deletion = 17
index deleting = 18
index deleted_from_source = 19
index archived = 20
index restore_requested = 21
index restoring = 22
index restored = 23
index source_changed = 24
index failed_retryable = 25
index manual_review = 26
index test_cleaned = 27

abbrev pub all_states : List ArchiveState
all_states =
    discovered ∷ ineligible ∷ eligible ∷ queued ∷ downloading ∷ local_staged ∷ local_verified
    ∷ local_committed ∷ local_backup_pending ∷ local_backup_verified ∷ cold_upload_pending
    ∷ cold_uploaded ∷ cold_verified ∷ cold_archive_pending ∷ cold_archived ∷ quarantined
    ∷ ready_for_revalidation ∷ ready_for_deletion ∷ deleting ∷ deleted_from_source ∷ archived
    ∷ restore_requested ∷ restoring ∷ restored ∷ source_changed ∷ failed_retryable ∷ manual_review
    ∷ test_cleaned ∷ []

pub get_elem?-index : (s : ArchiveState) → get_elem? all_states (index s) ≡ some s
get_elem?-index discovered = refl
get_elem?-index _ = refl

abbrev pub state_eq : ArchiveState → ArchiveState → Bool
state_eq s t = index s == index t

pub state_eq_iff : (s t : ArchiveState) → (state_eq s t ≡ true) ↔ (s ≡ t)
state_eq_iff s t = (
  λ h. some_injective (
      sym (get_elem?-index s)
      ∙ ap (get_elem? all_states) ((==_iff (index s) (index t)).0 h)
      ∙ get_elem?-index t),
  λ e. (==_iff (index s) (index t)).1 (ap index e),
)
  where
    some_injective : {a b : ArchiveState} → some a ≡ some b → a ≡ b
    some_injective e = cc

-- `state in {...}`
abbrev pub member : ArchiveState → List ArchiveState → Bool
member s = any (state_eq s)

-- `_LINEAR`
abbrev pub linear : List ArchiveState
linear =
    discovered ∷ eligible ∷ queued ∷ downloading ∷ local_staged ∷ local_verified ∷ local_committed
    ∷ local_backup_pending ∷ local_backup_verified ∷ cold_upload_pending ∷ cold_uploaded
    ∷ cold_verified ∷ cold_archive_pending ∷ cold_archived ∷ quarantined ∷ ready_for_revalidation
    ∷ ready_for_deletion ∷ deleting ∷ deleted_from_source ∷ archived ∷ []

-- The dictionary comprehension over `_LINEAR[:-1]`: the state after this one, if there is one.
unfoldable pub linear_next : ArchiveState → List ArchiveState → List ArchiveState
linear_next s [] = []
linear_next s (t ∷ []) = []
linear_next s (t ∷ u ∷ rest) = if state_eq s t then u ∷ [] else linear_next s (u ∷ rest)

-- `ALLOWED_TRANSITIONS.get(current, frozenset())`: the entries of the `update` replace those of the
-- comprehension, and a state with no entry has the empty set.
unfoldable pub allowed_transitions : ArchiveState → List ArchiveState
unfolding linear_next
allowed_transitions discovered = eligible ∷ ineligible ∷ []
allowed_transitions ineligible = eligible ∷ ineligible ∷ []
allowed_transitions source_changed = queued ∷ []
allowed_transitions failed_retryable = queued ∷ manual_review ∷ []
allowed_transitions manual_review = queued ∷ []
allowed_transitions local_staged = local_verified ∷ test_cleaned ∷ []
allowed_transitions archived = restore_requested ∷ []
allowed_transitions restore_requested = restoring ∷ []
allowed_transitions restoring = restored ∷ failed_retryable ∷ []
allowed_transitions restored = archived ∷ []
allowed_transitions s = linear_next s linear

abbrev pub failure_targets : List ArchiveState
failure_targets = failed_retryable ∷ manual_review ∷ source_changed ∷ []

-- `validate_transition`: true where it returns, false where it raises `InvalidTransition`.
unfoldable pub validate_transition : ArchiveState → ArchiveState → Bool
unfolding allowed_transitions
validate_transition current target =
    state_eq target current || member target (allowed_transitions current ++ failure_targets)
