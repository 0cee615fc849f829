-- ===== src/Domain/Removal/Guarded.antt =====
-- When the guarded deletion (workflow.py) reaches the source, and what it leaves behind.
use mnema.Prelude.{
  ◌≡◌, refl, Bool, true, false, ◌&&◌, [], ◌∷◌, is_some, inl, inr, Bool-cases, String, arith,
}
use mnema.Runtime.Errors.{invalid_transition, permission_error, Result, ok, err, Result-cases}
use mnema.Runtime.Session.{World, Session, ◌>>◌}
use mnema.Domain.States.{
  ArchiveState, validate_transition, member, quarantined, ready_for_revalidation,
  ready_for_deletion, deleting,
}
use mnema.Domain.Source.{SourceCapabilities, SourceObject, DeleteReceipt}
use mnema.Domain.Protocols.{Workflow}
use mnema.Jobs.StateService.{transition_item}
use mnema.Policies.Deletion.{GateDecision}
use mnema.Domain.Removal.{source_matches, announce, delete_at_source, settle, delete_test_item}

abbrev pub may_delete : ArchiveState → Bool
may_delete s = member s (quarantined ∷ ready_for_revalidation ∷ ready_for_deletion ∷ deleting ∷ [])

module _ {Ext : Type 0} (wf : Workflow Ext) where
  announce_others :
      (s : Session Ext)
      → may_delete s.ledger.item.state ≡ false
      → announce wf s ≡ (err invalid_transition, s)
  unfolding announce transition_item validate_transition
  announce_others s h = ground arith

  announce_ready :
      (s : Session Ext)
      → may_delete s.ledger.item.state ≡ true
      → let (r, t) = announce wf s in
        (r ≡ ok tt)
        × (t.world ≡ s.world)
        × (t.ledger.item ≡ record (s.ledger.item) { state = deleting })
        × (t.saved ≡ t.ledger)
  unfolding announce transition_item validate_transition
  announce_ready s h = ground arith

  -- A deletion is recorded only on a receipt that confirms the object's absence.
  settle_recorded :
      (s : Session Ext) (r : Result DeleteReceipt) {t : Session Ext} {r' : Result (Unit {0})}
      → s.ledger.item.state ≡ deleting
      → settle wf wf.error_name (r, s) ≡ (r', t)
      → is_some s.ledger.item.deletion_timestamp ≡ false
      → is_some t.ledger.item.deletion_timestamp ≡ true
      → (receipt : DeleteReceipt) × (r ≡ ok receipt) × (receipt.confirmed_absent ≡ true)
  unfolding settle transition_item validate_transition
  settle_recorded s (ok receipt) {t} {r'} at h old new = (receipt, refl, ground arith)
  settle_recorded s (err e) {t} {r'} at h old new = absurd (ground arith)

  -- What the source is asked and answers on the way to a recorded deletion.
  abbrev pub IsConfirmed : Session Ext → Type 0
  IsConfirmed s =
      (capabilities : SourceCapabilities) × (w : World Ext) × (current : SourceObject) × (w' : World
        Ext)
      × (receipt : DeleteReceipt) × (wf.adapters.capabilities s.world ≡ (ok capabilities, w))
      × (capabilities.can_delete ≡ true)
      × (wf.adapters.stat s.ledger.item.source_identifier w ≡ (ok current, w'))
      × (source_matches s.ledger.item current ≡ true)
      × ((wf.adapters.delete s.ledger.item.source_identifier s.ledger.item.source_version w').0
          ≡ ok receipt)
      × (receipt.confirmed_absent ≡ true)

  deleting_recorded :
      (s : Session Ext) {t : Session Ext} {r : Result (Unit {0})}
      → (announce wf >> delete_at_source wf) s ≡ (r, t)
      → is_some s.ledger.item.deletion_timestamp ≡ false
      → is_some t.ledger.item.deletion_timestamp ≡ true
      → (may_delete s.ledger.item.state ≡ true)
        × (receipt : DeleteReceipt) × ((wf.adapters.delete s.ledger.item.source_identifier
              s.ledger.item.source_version s.world).0
            ≡ ok receipt)
        × (receipt.confirmed_absent ≡ true)
  unfolding delete_at_source
  deleting_recorded s {t} {r} h old new = elim (Bool-cases (may_delete s.ledger.item.state)) [
    | inl may ↦
        let t' = (announce wf s).1 in
        let (went, same_world, row, saved) = announce_ready s may in
        let answer =
          wf.adapters.delete t'.ledger.item.source_identifier t'.ledger.item.source_version
            t'.world in
        let asked : Session Ext = record t' { world = answer.1 } in
        let settled : settle wf wf.error_name (answer.0, asked) ≡ (r, t) = ground arith in
        let (receipt, answered, absent) =
          settle_recorded asked answer.0 {t = t} {r' = r} (ground arith) settled (ground arith)
            new in
        (may, receipt, ground arith, absent)
    | inr other ↦ absurd (ground (arith, announce_others s other))
  ]

  recorded :
      (decision : GateDecision) (s : Session Ext) {t : Session Ext} {r : Result (Unit {0})}
      → delete_test_item wf decision s ≡ (r, t)
      → is_some s.ledger.item.deletion_timestamp ≡ false
      → is_some t.ledger.item.deletion_timestamp ≡ true
      → (decision.allowed ≡ true) × (may_delete s.ledger.item.state ≡ true) × IsConfirmed s
  unfolding delete_test_item transition_item
  recorded decision s {t} {r} h old new = elim (Result-cases (wf.adapters.capabilities s.world).0) [
    | inl (e, failed) ↦ absurd (ground arith)
    | inr (capabilities, allowed) ↦
        let w = (wf.adapters.capabilities s.world).1 in
        let looked = wf.adapters.stat s.ledger.item.source_identifier w in
        elim (Result-cases looked.0) [
          | inl (e, failed) ↦ absurd (ground arith)
          | inr (current, found) ↦
              let at_source : Session Ext = record s { world = looked.1 } in
              let h' : (announce wf >> delete_at_source wf) at_source ≡ (r, t) = ground arith in
              let (may, receipt, answered, absent) = deleting_recorded at_source h' old new in
              (
                ground arith,
                may,
                (
                  capabilities,
                  w,
                  current,
                  looked.1,
                  receipt,
                  ground arith,
                  ground arith,
                  ground arith,
                  ground arith,
                  answered,
                  absent,
                ),
              )
        ]
  ]

-- A call records a deletion on an item that had none only if the gate allowed it, the item stood in quarantine or in
-- one of the states after it, the source can delete, the source still showed the object exactly as
-- recorded, and the source's own receipt confirmed that the object is gone.
pub deletion_recorded_guarded :
    {Ext : Type 0} (wf : Workflow Ext) (decision : GateDecision) (s : Session Ext) {t : Session Ext}
    {r : Result (Unit {0})}
    → delete_test_item wf decision s ≡ (r, t)
    → is_some s.ledger.item.deletion_timestamp ≡ false
    → is_some t.ledger.item.deletion_timestamp ≡ true
    → (decision.allowed ≡ true) × (may_delete s.ledger.item.state ≡ true) × IsConfirmed wf s
deletion_recorded_guarded wf decision s h old new = recorded wf decision s h old new

-- Where the gate refuses or the source cannot delete, the call raises, no row changes, and the source
-- has been asked for its capabilities and nothing else.
pub refused_deletion_is_inert :
    {Ext : Type 0} (wf : Workflow Ext) (decision : GateDecision) (s : Session Ext)
    {capabilities : SourceCapabilities} {w : World Ext}
    → wf.adapters.capabilities s.world ≡ (ok capabilities, w)
    → (capabilities.can_delete && decision.allowed) ≡ false
    → (message : String) × (delete_test_item wf decision s
        ≡ (err (permission_error message), record s { world = w }))
unfolding delete_test_item
refused_deletion_is_inert wf decision s {capabilities} {w} asked refused =
    elim (Bool-cases capabilities.can_delete) [
      | inl can ↦ ("deletion is blocked", ground arith)
      | inr cannot ↦ ("source deletion is unavailable", ground arith)
    ]
