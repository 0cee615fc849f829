-- ===== src/Examples/Archive.antt =====
-- The photograph's way through the archive, its deletion and a restart.
use mnema.Prelude.{◌≡◌, refl, true, false, List, [], ◌∷◌, String}
use mnema.Runtime.Errors.{permission_error, ok, err}
use mnema.Runtime.Session.{Session}
use mnema.Domain.States.{
  discovered, eligible, queued, quarantined, downloading, deleting, validate_transition,
  allowed_transitions, linear_next,
}
use mnema.Domain.Source.{SourceCapabilities}
use mnema.Jobs.StateService.{Ledger, transition_event, transition_item}
use mnema.Jobs.StateService.Trail.{IsAudited, replay_event, transition_item-IsAudited}
use mnema.Domain.Workflow.{no_details, archive}
use mnema.Domain.Workflow.Evidence.{Copies, off_line-HasEvidence}
use mnema.Domain.Workflow.Sound.{IsVouched, IsSound, archive-IsSound}
use mnema.Domain.Removal.{source_matches, announce, delete_at_source, settle, delete_test_item}
use mnema.Domain.Removal.Guarded.{
  may_delete, IsConfirmed, deletion_recorded_guarded, refused_deletion_is_inert,
}
use mnema.Policies.Deletion.{GateDecision}
use mnema.Examples.Data.{re, item_in, rows_in, wf, world, session_in}

abbrev eligible_rows : Ledger
unfolding transition_event
eligible_rows = record {
  item = item_in eligible;
  events = transition_event re (item_in discovered) eligible "scanner" no_details ∷ [];
}

eligible_rows-IsAudited : IsAudited eligible_rows
unfolding eligible_rows replay_event validate_transition allowed_transitions
eligible_rows-IsAudited = refl

abbrev queued_rows : Ledger
unfolding transition_event
queued_rows = record {
  item = item_in queued;
  events =
      transition_event re (item_in discovered) eligible "scanner" no_details
      ∷ transition_event re (item_in eligible) queued "worker" no_details
      ∷ [];
}

transition_item-IsAudited_example : IsAudited queued_rows
unfolding transition_item validate_transition allowed_transitions linear_next
transition_item-IsAudited_example =
    transition_item-IsAudited re eligible_rows queued "worker" no_details {l' = queued_rows}
      eligible_rows-IsAudited refl

abbrev eligible_session : Session (Unit {0})
eligible_session = record { world = world; ledger = eligible_rows; saved = eligible_rows }

-- The verifications of the example's adapters always answer yes, and every copy is good.
abbrev copies : Copies
copies = record { restores = λ id sha256. true; decrypts = λ id sha256. true }

eligible_rows-IsVouched : IsVouched copies eligible_rows
unfolding eligible_rows
eligible_rows-IsVouched = record {
  evidence = off_line-HasEvidence copies (item_in eligible) refl;
  audited = eligible_rows-IsAudited;
}

archive-IsSound_example : IsSound copies (archive wf eligible_session).1
archive-IsSound_example =
    archive-IsSound wf copies (λ receipt sha256 w e. refl) (λ receipt sha256 w e. refl)
      eligible_session
      (record { at_hand = eligible_rows-IsVouched; committed = eligible_rows-IsVouched })

abbrev allowing : GateDecision
allowing = record { allowed = true; blockers = [] }

abbrev after_deletion : Session (Unit {0})
unfolding delete_test_item announce delete_at_source settle source_matches transition_item
    validate_transition allowed_transitions linear_next
after_deletion = (delete_test_item wf allowing (session_in quarantined)).1

deletion_recorded_guarded_example :
    (allowing.allowed ≡ true)
    × (may_delete (session_in quarantined).ledger.item.state ≡ true)
    × IsConfirmed wf (session_in quarantined)
unfolding delete_test_item announce delete_at_source settle source_matches transition_item
    validate_transition allowed_transitions linear_next
deletion_recorded_guarded_example =
    deletion_recorded_guarded wf allowing (session_in quarantined) {t = after_deletion} {r = ok tt}
      refl refl refl

abbrev refusing : GateDecision
refusing = record { allowed = false; blockers = "safety lock active" ∷ [] }

abbrev capable : SourceCapabilities
capable = record { can_delete = true; supports_cursor = true; stable_versions = true }

refused_deletion_is_inert_example :
    (message : String) × (delete_test_item wf refusing (session_in quarantined)
      ≡ (err (permission_error message), session_in quarantined))
refused_deletion_is_inert_example =
    refused_deletion_is_inert wf refusing (session_in quarantined) {capabilities = capable}
      {w = world} refl refl

abbrev interrupted : List Ledger
interrupted = rows_in deleting ∷ rows_in downloading ∷ rows_in quarantined ∷ []
