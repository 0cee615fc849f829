-- ===== src/Domain/States/Graph.antt =====
-- What the transition table of states.py allows, over whole lives of an item.
use mnema.Prelude.{
  ◌≤◌, ◌≡◌, refl, Bool, true, false, not, ◌&&◌, ◌||◌, List, [], ◌∷◌, all, get_elem?-all, ltb, leb,
  inl, inr, Bool-cases, and_left, and_right, arith,
}
use mnema.Domain.States.{
  ArchiveState, discovered, queued, downloading, local_staged, local_verified, local_committed,
  local_backup_pending, local_backup_verified, cold_upload_pending, cold_uploaded, cold_verified,
  cold_archive_pending, cold_archived, quarantined, archived, restored, manual_review, index,
  all_states, get_elem?-index, state_eq, member, validate_transition,
}

-- Each state of a path is a target that `validate_transition` accepts from the one before.
abbrev pub is_walk : ArchiveState → List ArchiveState → Bool
is_walk s [] = true
is_walk s (t ∷ path) = validate_transition s t && is_walk t path

abbrev pub last : ArchiveState → List ArchiveState → ArchiveState
last s [] = s
last s (t ∷ path) = last t path

-- The states that an item can be in with stage `g` still ahead of it: those before `g` on the line,
-- and those off the line that lead back to QUEUED or nowhere.
is_before : ArchiveState → ArchiveState → Bool
is_before g s = ltb (index s) (index g) || ltb (index restored) (index s)

stays_before : ArchiveState → ArchiveState → ArchiveState → Bool
unfolding is_before
stays_before g s t =
    not (leb (index queued) (index g) && leb (index g) (index archived))
    || not (is_before g s)
    || not (validate_transition s t)
    || state_eq g t
    || is_before g t

stays_before_table :
    all (λ g. all (λ s. all (stays_before g s) all_states) all_states) all_states ≡ true
unfolding validate_transition stays_before
stays_before_table = refl

stays_before_all : (g s t : ArchiveState) → stays_before g s t ≡ true
stays_before_all g s t =
    let by_g = λ (x : ArchiveState). all (λ y. all (stays_before x y) all_states) all_states in
    let by_s = λ (y : ArchiveState). all (stays_before g y) all_states in
    let rows = get_elem?-all by_g all_states (index g) stays_before_table (get_elem?-index g) in
    let row = get_elem?-all by_s all_states (index s) rows (get_elem?-index s) in
    get_elem?-all (stays_before g s) all_states (index t) row (get_elem?-index t)

-- One accepted step leaves the stage ahead, or enters it.
step_stays :
    (g s t : ArchiveState)
    → index queued ≤ index g
    → index g ≤ index archived
    → is_before g s ≡ true
    → validate_transition s t ≡ true
    → state_eq g t ≡ false
    → is_before g t ≡ true
unfolding is_before stays_before
step_stays g s t lo hi b v e = ground (arith, stays_before_all g s t)

walk_visits :
    (g s : ArchiveState) (path : List ArchiveState)
    → index queued ≤ index g
    → index g ≤ index archived
    → is_before g s ≡ true
    → is_walk s path ≡ true
    → is_before g (last s path) ≡ false
    → member g path ≡ true
walk_visits g s [] lo hi b w e = cc
walk_visits g s (t ∷ path) lo hi b w e = elim (Bool-cases (state_eq g t)) [
  | inl here ↦ rw here
  | inr later ↦ rw later (
      walk_visits g t path lo hi (step_stays g s t lo hi b (and_left _ _ w) later) (and_right _ _ w)
        e)
]

discovered_before : (g : ArchiveState) → index queued ≤ index g → is_before g discovered ≡ true
unfolding is_before
discovered_before g lo = ground arith

beyond : (g s : ArchiveState) → index g ≤ index s → index s ≤ index restored → is_before g s ≡ false
unfolding is_before
beyond g s reached on_line = ground arith

-- No stage from QUEUED to ARCHIVED can be skipped: an item that began as DISCOVERED and stands at
-- that stage or past it, restore states included, has been in that stage.
pub stage_never_skipped :
    (g : ArchiveState) (path : List ArchiveState)
    → index queued ≤ index g
    → index g ≤ index archived
    → is_walk discovered path ≡ true
    → index g ≤ index (last discovered path)
    → index (last discovered path) ≤ index restored
    → member g path ≡ true
stage_never_skipped g path lo hi w reached on_line =
    walk_visits g discovered path lo hi (discovered_before g lo) w
      (beyond g (last discovered path) reached on_line)

-- From every state the table has a way to QUARANTINED: by review, and once more through the line.
quarantine_reachable :
    (s : ArchiveState)
    → is_walk s (
        manual_review ∷ queued ∷ downloading ∷ local_staged ∷ local_verified ∷ local_committed
        ∷ local_backup_pending ∷ local_backup_verified ∷ cold_upload_pending ∷ cold_uploaded
        ∷ cold_verified ∷ cold_archive_pending ∷ cold_archived ∷ quarantined ∷ [])
      ≡ true
unfolding validate_transition
quarantine_reachable discovered = refl
quarantine_reachable _ = refl
