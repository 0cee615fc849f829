-- ===== src/Domain/Discovery/Rows.antt =====
-- What a scan (workflow.py) leaves in the rows of one item.
use mnema.Prelude.{
  ℕ, ◌≡◌, true, false, ◌&&◌, Option, some, [], if◌then◌else◌, Option-cases, Bool-cases, inl, inr,
  String, str_eq_iff, arith,
}
use mnema.Domain.States.{ArchiveState, local_staged, eligible, ineligible, source_changed, state_eq}
use mnema.Domain.Source.{SourceObject}
use mnema.Domain.Removal.{source_matches, source_has_changed}
use mnema.Domain.Workflow.Evidence.{Copies, is_at, off_line-HasEvidence}
use mnema.Domain.Workflow.Sound.{IsVouched}
use mnema.Jobs.StateService.{Ledger, transition_item}
use mnema.Jobs.StateService.Trail.{IsAudited, transition_item-IsAudited}
use mnema.Policies.Eligibility.{PolicyDecision, evaluate_policy}
use mnema.Security.Redaction.{Value, Patterns, mapping, field, str, end}
use mnema.Domain.Discovery.{
  Scanner, new_item, policy_reasons_of, judge, refreshed, scan_known, is_item_of,
}

moved_state :
    (re : Patterns) (l : Ledger) (target : ArchiveState) (actor : String) (details : Value)
    {m : Ledger}
    → transition_item re l target actor details ≡ some m
    → m.item ≡ record (l.item) { state = target }
unfolding transition_item
moved_state re l target actor details {m} h = ground arith

module _ (c : Scanner) (source : SourceObject) where
  judged : (l : Ledger) (decision : PolicyDecision) → Option Ledger
  judged l decision =
      transition_item c.re l (if decision.eligible then eligible else ineligible) "scanner"
        (policy_reasons_of decision)

  judge-inv :
      (l : Ledger) {m : Ledger}
      → judge c source l ≡ some m
      → (d : PolicyDecision) × (judged l d ≡ some m)
  unfolding judge judged
  judge-inv l {m} h = elim (Option-cases (evaluate_policy c.matching source c.policy c.now)) [
    | inl raised ↦ absurd (ground arith)
    | inr (d, decided) ↦ (d, ground arith)
  ]

  judge_off_line :
      (l : Ledger) {m : Ledger}
      → judge c source l ≡ some m
      → is_at local_staged m.item.state ≡ false
  unfolding judged
  judge_off_line l {m} h =
      let (d, moved) = judge-inv l h in
      ground (
        arith,
        moved_state c.re l (if d.eligible then eligible else ineligible) "scanner"
            (policy_reasons_of d) {m = m},
      )

  pub judge-IsVouched :
      (o : Copies) (l : Ledger) {m : Ledger}
      → IsAudited l
      → judge c source l ≡ some m
      → IsVouched o m
  unfolding judged
  judge-IsVouched o l {m} audited h =
      let (d, moved) = judge-inv l h in
      record {
        evidence = off_line-HasEvidence o m.item (judge_off_line l h);
        audited =
            transition_item-IsAudited c.re l (if d.eligible then eligible else ineligible) "scanner"
              (policy_reasons_of d) audited moved;
      }

  judge_keeps :
      (l : Ledger) {m : Ledger}
      → judge c source l ≡ some m
      → record (m.item) { state = l.item.state } ≡ l.item
  unfolding judged
  judge_keeps l {m} h =
      let (d, moved) = judge-inv l h in
      ground (
        arith,
        moved_state c.re l (if d.eligible then eligible else ineligible) "scanner"
            (policy_reasons_of d) {m = m},
      )

  abbrev changed : Ledger → Option Ledger
  changed l =
      transition_item c.re l source_changed "scanner"
        (mapping (field "reason" (str "source metadata changed") end))

  changed-inv :
      (l : Ledger) {m : Ledger}
      → source_has_changed l.item source ≡ true
      → scan_known c source l ≡ some m
      → (k : Ledger) × (changed l ≡ some k) × (m ≡ refreshed source k)
  unfolding scan_known
  changed-inv l {m} differs h = elim (Option-cases (changed l)) [
    | inl raised ↦ absurd (ground arith)
    | inr (k, moved) ↦ (k, moved, ground arith)
  ]

  pub known-IsVouched :
      (o : Copies) (l : Ledger) {m : Ledger}
      → IsVouched o l
      → scan_known c source l ≡ some m
      → IsVouched o m
  unfolding scan_known
  known-IsVouched o l {m} v h = elim (Bool-cases (source_has_changed l.item source)) [
    | inl differs ↦
        let (k, moved, is_m) = changed-inv l differs h in
        let at : k.item ≡ record (l.item) { state = source_changed } =
          moved_state c.re l source_changed "scanner" _ moved in
        rw is_m (record {
          evidence = off_line-HasEvidence o (refreshed source k).item (ground arith);
          audited = transition_item-IsAudited c.re l source_changed "scanner" _ v.audited moved;
        })
    | inr same ↦ elim (Bool-cases (state_eq l.item.state ineligible)) [
      | inl again ↦ judge-IsVouched o l v.audited (ground arith)
      | inr settled ↦ let is_l : m ≡ l = ground arith in rw is_l v
    ]
  ]

  pub known_matches :
      (l : Ledger) {m : Ledger}
      → is_item_of c.source_provider source l ≡ true
      → scan_known c source l ≡ some m
      → (is_item_of c.source_provider source m && source_matches m.item source) ≡ true
  unfolding scan_known source_has_changed source_matches
  known_matches l {m} found h = elim (Bool-cases (source_matches l.item source)) [
    | inr differs ↦
        let (k, moved, is_m) = changed-inv l (ground arith) h in
        let at : k.item ≡ record (l.item) { state = source_changed } =
          moved_state c.re l source_changed "scanner" _ moved in
        refreshed_matches k is_m at
    | inl same ↦ elim (Bool-cases (state_eq l.item.state ineligible)) [
      | inl again ↦ let kept = judge_keeps l {m = m} (ground arith) in ground (arith, kept)
      | inr settled ↦ ground arith
    ]
  ]
    where
      refreshed_matches :
          (k : Ledger)
          → m ≡ refreshed source k
          → k.item ≡ record (l.item) { state = source_changed }
          → (is_item_of c.source_provider source m && source_matches m.item source) ≡ true
      refreshed_matches k is_m at = ground (
        arith,
        str_eq_iff source.source_id l.item.source_identifier,
        str_eq_iff l.item.source_identifier source.source_id,
        str_eq_iff source.relative_path source.relative_path,
        str_eq_iff source.version source.version,
      )

  pub new_matches :
      (id : ℕ) {m : Ledger}
      → judge c source (record { item = new_item id c.source_provider source; events = [] })
        ≡ some m
      → (is_item_of c.source_provider source m && source_matches m.item source) ≡ true
  unfolding new_item source_matches
  new_matches id {m} h =
      let kept =
        judge_keeps (record { item = new_item id c.source_provider source; events = [] }) h in
      ground (
        arith,
        kept,
        str_eq_iff source.source_id source.source_id,
        str_eq_iff c.source_provider c.source_provider,
        str_eq_iff source.relative_path source.relative_path,
        str_eq_iff source.version source.version,
      )
