-- ===== src/Domain/Discovery.antt =====
-- `discover` and `_new_item` of `ArchiveWorkflow` (src/mnema/domain/workflow.py). The answers of the
-- source's `discover` are given as a list of pages, and the primary key of a new row by `next_id`.
pub mod Rows
pub mod Recorded
use mnema.Prelude.{
  ℕ, Bool, true, false, ◌&&◌, Option, none, some, List, [], ◌∷◌, ◌++◌, if◌then◌else◌, String,
  str_eq, DateTime,
}
use mnema.Security.Redaction.{
  Value, Values, nil, cons, str, sequence, mapping, field, end, Patterns,
}
use mnema.Config.Settings.{SourcePolicy}
use mnema.Domain.States.{discovered, eligible, ineligible, source_changed, state_eq}
use mnema.Domain.Source.{SourceObject, DiscoveryPage}
use mnema.Domain.Removal.{source_has_changed}
use mnema.Jobs.Models.Archive.{ArchiveItem}
use mnema.Jobs.StateService.{Ledger, transition_item}
use mnema.Policies.Eligibility.{PolicyDecision, Matching, evaluate_policy}

-- What `discover` reads beside the rows and the pages.
pub record Scanner : Type 0 where
  pub re : Patterns
  pub matching : Matching
  pub policy : SourcePolicy
  pub source_provider : String
  pub now : DateTime
  pub next_id : List Ledger → ℕ

-- `_new_item`
unfoldable pub new_item : ℕ → String → SourceObject → ArchiveItem
new_item id source_provider source = record {
  id = id;
  source_provider = source_provider;
  source_identifier = source.source_id;
  original_path = source.relative_path;
  original_size = source.size;
  original_modified_at = source.modified_at;
  source_version = source.version;
  state = discovered;
  plaintext_sha256 = none;
  nas_path = none;
  nas_verified_at = none;
  kopia_snapshot_id = none;
  kopia_verified_at = none;
  remote_provider = none;
  remote_bucket = none;
  remote_object_identifier = none;
  encryption_mode = none;
  remote_size = none;
  remote_checksum = none;
  uploaded_at = none;
  remote_verified_at = none;
  remote_verification_method = none;
  cold_archived_at = none;
  quarantine_expires_at = none;
  deletion_timestamp = none;
  restore_test_status = none;
}

abbrev pub texts : List String → Values
texts [] = nil
texts (t ∷ ts) = cons (str t) (texts ts)

abbrev pub policy_reasons_of : PolicyDecision → Value
policy_reasons_of d = mapping (field "policy_reasons" (sequence (texts d.reasons)) end)

-- `evaluate_policy` and the transition to its answer.
unfoldable pub judge : Scanner → SourceObject → Ledger → Option Ledger
judge c source l = elim (evaluate_policy c.matching source c.policy c.now) [
  | none ↦ none
  | some decision ↦
      transition_item c.re l (if decision.eligible then eligible else ineligible) "scanner"
        (policy_reasons_of decision)
]

-- The columns that follow the source once it has changed.
abbrev pub refreshed : SourceObject → Ledger → Ledger
refreshed source l = record l {
  item = record (l.item) {
    original_path = source.relative_path;
    original_size = source.size;
    original_modified_at = source.modified_at;
    source_version = source.version;
  };
}

abbrev pub refresh : SourceObject → Option Ledger → Option Ledger
refresh source none = none
refresh source (some l) = some (refreshed source l)

-- The two `elif`s, on the rows of a known item.
unfoldable pub scan_known : Scanner → SourceObject → Ledger → Option Ledger
scan_known c source l =
    if source_has_changed l.item source
    then refresh source (
        transition_item c.re l source_changed "scanner"
          (mapping (field "reason" (str "source metadata changed") end)))
    else if state_eq l.item.state ineligible
    then judge c source l
    else some l

-- The query for the item of a source object.
abbrev pub is_item_of : String → SourceObject → Ledger → Bool
is_item_of source_provider source l =
    str_eq l.item.source_provider source_provider
    && str_eq l.item.source_identifier source.source_id

abbrev pub put : List Ledger → Option Ledger → Option (List Ledger)
put rest none = none
put rest (some l) = some (l ∷ rest)

abbrev pub keep : Ledger → Option (List Ledger) → Option (List Ledger)
keep l none = none
keep l (some rest) = some (l ∷ rest)

-- The body of the loop over `page.objects`, on the rows of all items: `none` is an exception. `id` is
-- the key of the row that is added where no row is found.
unfoldable pub scan_object : Scanner → ℕ → SourceObject → List Ledger → Option (List Ledger)
scan_object c id source [] =
    put [] (judge c source (record { item = new_item id c.source_provider source; events = [] }))
scan_object c id source (l ∷ rows) =
    let rest = scan_object c id source rows in
    if is_item_of c.source_provider source l then put rows (scan_known c source l) else keep l rest

unfoldable pub scan_page : Scanner → List SourceObject → List Ledger → Option (List Ledger)
scan_page c [] rows = some rows
scan_page c (source ∷ objects) rows = elim (scan_object c (c.next_id rows) source rows) [
  | none ↦ none
  | some rows' ↦ scan_page c objects rows'
]

-- `discover`: the pages up to the first without a next cursor. Where the list ends before that page
-- the source raised, and so does the call.
unfoldable pub discover : Scanner → List DiscoveryPage → List Ledger → Option (List Ledger)
discover c [] rows = none
discover c (page ∷ pages) rows = elim (scan_page c page.objects rows) [
  | none ↦ none
  | some rows' ↦ elim page.next_cursor [ none ↦ some rows' | some cursor ↦ discover c pages rows' ]
]
