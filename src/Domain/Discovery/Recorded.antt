-- ===== src/Domain/Discovery/Recorded.antt =====
-- What a scan of the source (workflow.py) leaves in the rows of all items.
use mnema.Prelude.{
  ℕ, ◌≡◌, refl, true, some, List, [], ◌∷◌, find, Option-cases, Bool-cases, and_left, and_right, inl,
  inr, arith,
}
use mnema.Domain.Source.{SourceObject, DiscoveryPage}
use mnema.Domain.Removal.{source_matches}
use mnema.Domain.Workflow.Evidence.{Copies}
use mnema.Domain.Workflow.Sound.{IsVouched}
use mnema.Jobs.StateService.{Ledger}
use mnema.Jobs.StateService.Trail.{IsAudited}
use mnema.Domain.Discovery.{
  Scanner, new_item, judge, scan_known, is_item_of, scan_object, scan_page, discover,
}
use mnema.Domain.Discovery.Rows.{judge-IsVouched, known-IsVouched, known_matches, new_matches}

abbrev pub AllVouched : Copies → List Ledger → Type 0
AllVouched o [] = Unit
AllVouched o (l ∷ rows) = IsVouched o l × AllVouched o rows

module _ (c : Scanner) (source : SourceObject) where
  object-AllVouched :
      (o : Copies) (id : ℕ) (rows : List Ledger) {rows' : List Ledger}
      → AllVouched o rows
      → scan_object c id source rows ≡ some rows'
      → AllVouched o rows'
  unfolding scan_object new_item
  object-AllVouched o id [] {rows'} v h =
      elim (Option-cases
        (judge c source (record { item = new_item id c.source_provider source; events = [] }))) [
          | inl raised ↦ absurd (ground arith)
          | inr (m, judged_new) ↦
              let only : rows' ≡ m ∷ [] = ground arith in
              rw only (judge-IsVouched c source o _ new-IsAudited judged_new, tt)
        ]
    where
      new-IsAudited :
          IsAudited (record { item = new_item id c.source_provider source; events = [] })
      new-IsAudited = refl
  object-AllVouched o id (l ∷ rows) {rows'} (v, vs) h =
      elim (Bool-cases (is_item_of c.source_provider source l)) [
        | inl found ↦ elim (Option-cases (scan_known c source l)) [
          | inl raised ↦ absurd (ground arith)
          | inr (m, scanned) ↦
              let there : rows' ≡ m ∷ rows = ground arith in
              rw there (known-IsVouched c source o l v scanned, vs)
        ]
        | inr other ↦ elim (Option-cases (scan_object c id source rows)) [
          | inl raised ↦ absurd (ground arith)
          | inr (ms, scanned) ↦
              let there : rows' ≡ l ∷ ms = ground arith in
              rw there (v, object-AllVouched o id rows vs scanned)
        ]
      ]

  object_recorded :
      (id : ℕ) (rows : List Ledger) {rows' : List Ledger}
      → scan_object c id source rows ≡ some rows'
      → (m : Ledger) × (find (is_item_of c.source_provider source) rows' ≡ some m)
        × (source_matches m.item source ≡ true)
  unfolding scan_object
  object_recorded id [] {rows'} h =
      elim (Option-cases
        (judge c source (record { item = new_item id c.source_provider source; events = [] }))) [
          | inl raised ↦ absurd (ground arith)
          | inr (m, judged_new) ↦
              let only : rows' ≡ m ∷ [] = ground arith in
              let both = new_matches c source id judged_new in
              let found =
                and_left (is_item_of c.source_provider source m) (source_matches m.item source)
                  both in
              (
                m,
                rw only (ground arith),
                and_right (is_item_of c.source_provider source m) (source_matches m.item source)
                    both,
              )
        ]
  object_recorded id (l ∷ rows) {rows'} h =
      elim (Bool-cases (is_item_of c.source_provider source l)) [
        | inl found ↦ elim (Option-cases (scan_known c source l)) [
          | inl raised ↦ absurd (ground arith)
          | inr (m, scanned) ↦
              let there : rows' ≡ m ∷ rows = ground arith in
              let both = known_matches c source l found scanned in
              let still =
                and_left (is_item_of c.source_provider source m) (source_matches m.item source)
                  both in
              (
                m,
                rw there (ground arith),
                and_right (is_item_of c.source_provider source m) (source_matches m.item source)
                    both,
              )
        ]
        | inr other ↦ elim (Option-cases (scan_object c id source rows)) [
          | inl raised ↦ absurd (ground arith)
          | inr (ms, scanned) ↦
              let there : rows' ≡ l ∷ ms = ground arith in
              let (m, at, same) = object_recorded id rows scanned in
              (m, rw there (ground arith), same)
        ]
      ]

page-AllVouched :
    (o : Copies) (c : Scanner) (objects : List SourceObject) (rows : List Ledger)
    {rows' : List Ledger}
    → AllVouched o rows
    → scan_page c objects rows ≡ some rows'
    → AllVouched o rows'
unfolding scan_page
page-AllVouched o c [] rows {rows'} v h = let same : rows' ≡ rows = ground arith in rw same v
page-AllVouched o c (source ∷ objects) rows {rows'} v h =
    elim (Option-cases (scan_object c (c.next_id rows) source rows)) [
      | inl raised ↦ absurd (ground arith)
      | inr (mid, scanned) ↦
          page-AllVouched o c objects mid
            (object-AllVouched c source o (c.next_id rows) rows v scanned) (ground arith)
    ]

-- A scan of the source, whatever pages it answers with, keeps the invariant of every item: its state
-- vouches for its evidence (the columns of its stage, a snapshot that restores to bytes with the
-- recorded SHA-256 and a remote object that decrypts to such), and the audit trail ends in the item's state. A new
-- item begins with it.
pub discover-AllVouched :
    (o : Copies) (c : Scanner) (pages : List DiscoveryPage) (rows : List Ledger)
    {rows' : List Ledger}
    → AllVouched o rows
    → discover c pages rows ≡ some rows'
    → AllVouched o rows'
unfolding discover
discover-AllVouched o c [] rows {rows'} v h = cc
discover-AllVouched o c (page ∷ pages) rows {rows'} v h =
    elim (Option-cases (scan_page c page.objects rows)) [
      | inl raised ↦ absurd (ground arith)
      | inr (mid, scanned) ↦
          let kept = page-AllVouched o c page.objects rows v scanned in
          elim (Option-cases page.next_cursor) [
            | inl last ↦ let same : rows' ≡ mid = ground arith in rw same kept
            | inr (cursor, more) ↦ discover-AllVouched o c pages mid kept (ground arith)
          ]
    ]

-- After an object was scanned, the query for its item finds a row, and the row agrees with the object
-- in identifier, path, size, time and version, whether the item was new, changed or as before.
pub scan_object_recorded :
    (c : Scanner) (id : ℕ) (source : SourceObject) (rows : List Ledger) {rows' : List Ledger}
    → scan_object c id source rows ≡ some rows'
    → (m : Ledger) × (find (is_item_of c.source_provider source) rows' ≡ some m)
      × (source_matches m.item source ≡ true)
scan_object_recorded c id source rows h = object_recorded c source id rows h
