-- ===== src/Jobs/StateService/Trail.antt =====
-- The audit trail that `transition_item` (state_service.py) leaves: played back, it gives the state.
use mnema.Prelude.{
  ◌≡◌, true, ◌&&◌, Option, none, some, List, [], ◌∷◌, ◌++◌, String, str_eq, str_eq_iff,
  Option-cases, inl, inr, if◌then◌else◌, arith,
}
use mnema.Security.Redaction.{Value, Patterns}
use mnema.Domain.States.{ArchiveState, discovered, state_eq, state_eq_iff, validate_transition}
use mnema.Jobs.Models.Archive.{ArchiveItem, AuditEvent}
use mnema.Jobs.StateService.{Ledger, transition_event, transition_item}

abbrev pub endpoints :
    ArchiveState → Option ArchiveState → Option ArchiveState → Option ArchiveState
endpoints s (some from) (some to) =
    if state_eq s from && validate_transition from to then some to else none
endpoints s _ _ = none

-- A transition must begin where the trail stands and be one that the table allows; any other event
-- leaves the state alone.
unfoldable pub replay_event : ArchiveState → AuditEvent → Option ArchiveState
replay_event s e =
    if str_eq e.event_type "state_transition" then endpoints s e.from_state e.to_state else some s

abbrev pub replay : ArchiveState → List AuditEvent → Option ArchiveState
replay s [] = some s
replay s (e ∷ es) = elim (replay_event s e) [ none ↦ none | some t ↦ replay t es ]

abbrev pub IsAudited : Ledger → Type 0
IsAudited l = replay discovered l.events ≡ some l.item.state

pub replay-append :
    (s : ArchiveState) (es : List AuditEvent) (e : AuditEvent) {t : ArchiveState}
    → replay s es ≡ some t
    → replay s (es ++ e ∷ []) ≡ replay_event t e
replay-append s [] e {t} h = ground arith
replay-append s (x ∷ es) e {t} h = elim (Option-cases (replay_event s x)) [
  | inl refused ↦ absurd (ground arith)
  | inr (u, taken) ↦ rw (taken, replay) (replay-append u es e (ground arith))
]

replay-transition :
    (re : Patterns) (i : ArchiveItem) (target : ArchiveState) (actor : String) (details : Value)
    → validate_transition i.state target ≡ true
    → replay_event i.state (transition_event re i target actor details) ≡ some target
unfolding replay_event transition_event
replay-transition re i target actor details v =
    ground (arith, state_eq_iff i.state i.state, str_eq_iff "state_transition" "state_transition")

-- A transition that is accepted keeps the trail in step with the item: played back from DISCOVERED,
-- through transitions that are each allowed, the events end in the item's state.
pub transition_item-IsAudited :
    (re : Patterns) (l : Ledger) (target : ArchiveState) (actor : String) (details : Value)
    {l' : Ledger}
    → IsAudited l
    → transition_item re l target actor details ≡ some l'
    → IsAudited l'
unfolding transition_item
transition_item-IsAudited re l target actor details {l'} audited h = ground (
  arith,
  replay-append discovered l.events (transition_event re l.item target actor details)
      {t = l.item.state},
  replay-transition re l.item target actor details,
)
