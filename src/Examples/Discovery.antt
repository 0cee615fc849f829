-- ===== src/Examples/Discovery.antt =====
-- A scan that finds one photograph, and the configuration it runs under.
use mnema.Prelude.{◌≡◌, ◌↔◌, refl, true, false, none, some, List, [], ◌∷◌, find, days}
use mnema.Runtime.Errors.{ok}
use mnema.Config.Options.{default_settings}
use mnema.Config.Validation.{Split, validate}
use mnema.Config.Validation.Accepted.{IsConfigured, validate_accepts_iff}
use mnema.Domain.Workflow.Evidence.{Copies}
use mnema.Domain.States.{eligible, validate_transition, allowed_transitions}
use mnema.Domain.Source.{DiscoveryPage}
use mnema.Domain.Removal.{source_matches}
use mnema.Jobs.StateService.{Ledger, transition_item, transition_event}
use mnema.Policies.Deletion.{blocker_if}
use mnema.Policies.Eligibility.{
  not_included, is_excluded, is_above, required_age, policy_reasons, evaluate_policy,
}
use mnema.Domain.Discovery.{
  Scanner, policy_reasons_of, judge, new_item, is_item_of, scan_object, scan_page, discover,
}
use mnema.Domain.Discovery.Recorded.{AllVouched, discover-AllVouched, scan_object_recorded}
use mnema.Examples.Data.{re, policy, source_object}

abbrev split : Split
split text = none

validate_accepts_iff_example :
    (validate split default_settings ≡ ok tt) ↔ IsConfigured split default_settings
validate_accepts_iff_example = validate_accepts_iff split default_settings

abbrev copies : Copies
copies = record { restores = λ id sha256. false; decrypts = λ id sha256. false }

abbrev scanner : Scanner
scanner = record {
  re = re;
  matching = record { parts = λ path. path ∷ []; fnmatch = λ path pattern. false };
  policy = policy;
  source_provider = "local";
  now = days 2;
  next_id = λ rows. 1;
}

abbrev scanned : List Ledger
unfolding transition_event new_item
scanned =
    record {
      item = record (new_item 1 "local" source_object) { state = eligible };
      events =
          transition_event re (new_item 1 "local" source_object) eligible "scanner"
            (policy_reasons_of (record { eligible = true; reasons = [] }))
          ∷ [];
    }
    ∷ []

scan_object_recorded_example :
    (m : Ledger) × (find (is_item_of "local" source_object) scanned ≡ some m)
    × (source_matches m.item source_object ≡ true)
unfolding scan_object judge transition_item validate_transition allowed_transitions blocker_if
    evaluate_policy not_included policy_reasons is_excluded is_above required_age scanned
scan_object_recorded_example =
    scan_object_recorded scanner 1 source_object [] {rows' = scanned} refl

abbrev page : DiscoveryPage
page = record { objects = source_object ∷ []; next_cursor = none }

discover-AllVouched_example : AllVouched copies scanned
unfolding discover scan_page scan_object judge transition_item validate_transition
    allowed_transitions blocker_if evaluate_policy not_included policy_reasons is_excluded is_above
    required_age scanned
discover-AllVouched_example =
    discover-AllVouched copies scanner (page ∷ []) [] {rows' = scanned} tt refl
