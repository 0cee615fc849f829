-- ===== src/Jobs/StateService.antt =====
-- One transition of an item and the audit event that records it (src/mnema/jobs/state_service.py).
pub mod Trail
use mnema.Prelude.{some, Option, none, String, List, [], ◌∷◌, ◌++◌, if◌then◌else◌}
use mnema.Security.Redaction.{Value, Patterns, redact}
use mnema.Domain.States.{ArchiveState, validate_transition}
use mnema.Jobs.Models.Archive.{ArchiveItem, AuditEvent}

-- The rows that belong to one item: its row of `archive_items` and its audit events, oldest first.
pub record Ledger : Type 0 where
  pub item : ArchiveItem
  pub events : List AuditEvent

unfoldable pub transition_event :
    Patterns → ArchiveItem → ArchiveState → String → Value → AuditEvent
transition_event re item target actor details = record {
  archive_item_id = some item.id;
  event_type = "state_transition";
  from_state = some item.state;
  to_state = some target;
  actor = actor;
  details = redact re details;
}

-- `transition_item`. `none` is the exception `InvalidTransition`, raised before anything is written.
unfoldable pub transition_item : Patterns → Ledger → ArchiveState → String → Value → Option Ledger
unfolding transition_event
transition_item re l target actor details =
    if validate_transition l.item.state target
    then some (record {
      item = record (l.item) { state = target };
      events = l.events ++ transition_event re l.item target actor details ∷ [];
    })
    else none
