-- ===== src/FileProvider/Items/Feed.antt =====
-- A phone that follows the cursors of `changes` (api.py) misses nothing and sees nothing twice.
use mnema.Prelude.{
  ℕ, zero, suc, ◌+◌, ◌≤◌, ◌<◌, ◌≡◌, refl, sym, ◌∙◌, Bool, Bool-cases, inl, inr, true, ◌&&◌, Option,
  none, some, List, [], ◌∷◌, ◌++◌, take, length, length-append, keep_if, ltb, if◌then◌else◌, String,
  DateTime, arith, map,
}
use mathlib.Core.List.{map-append, append_assoc, append-nil}
use mnema.Jobs.Models.FileProvider.{FileProviderItem, FileProviderChange}
use mnema.FileProvider.Items.{
  Tables, next_sequence, record_change, is_after, last_sequence, clamp_limit, changes_page,
}

abbrev drop : ℕ → List FileProviderChange → List FileProviderChange
drop zero cs = cs
drop (suc n) [] = []
drop (suc n) (c ∷ cs) = drop n cs

-- The keys rise, from above `s`.
abbrev rises : ℕ → List FileProviderChange → Bool
rises s [] = true
rises s (c ∷ cs) = ltb s c.sequence && rises c.sequence cs

take-drop : (n : ℕ) (cs : List FileProviderChange) → take n cs ++ drop n cs ≡ cs
take-drop zero cs = refl
take-drop (suc n) [] = refl
take-drop (suc n) (c ∷ cs) = ground (arith, take-drop n cs)

take-take : (n : ℕ) (cs : List FileProviderChange) → take n (take (n + 1) cs) ≡ take n cs
take-take zero cs = refl
take-take (suc n) [] = ground arith
take-take (suc n) (c ∷ cs) = ground (arith, take-take n cs)

take_all : (n : ℕ) (cs : List FileProviderChange) → length (take (suc n) cs) ≤ n → take n cs ≡ cs
take_all zero [] h = refl
take_all zero (c ∷ cs) h = absurd (omega arith)
take_all (suc n) [] h = refl
take_all (suc n) (c ∷ cs) h = ground (arith, take_all n cs)

length-drop :
    (n : ℕ) (cs : List FileProviderChange)
    → n < length (take (suc n) cs)
    → length (drop n cs) + n ≡ length cs
length-drop zero cs h = omega arith
length-drop (suc n) [] h = absurd (omega arith)
length-drop (suc n) (c ∷ cs) h = ground (arith, length-drop n cs)

rises_mono :
    (s t : ℕ) (cs : List FileProviderChange) → s ≤ t → rises t cs ≡ true → rises s cs ≡ true
rises_mono s t [] le h = refl
rises_mono s t (c ∷ cs) le h = ground arith

keep_risen :
    (s : ℕ) (cs : List FileProviderChange) → rises s cs ≡ true → keep_if (is_after s) cs ≡ cs
keep_risen s [] h = refl
keep_risen s (c ∷ cs) h = ground (arith, keep_risen s cs, rises_mono s c.sequence cs)

rises-keep_if :
    (s b : ℕ) (cs : List FileProviderChange)
    → rises b cs ≡ true
    → rises s (keep_if (is_after s) cs) ≡ true
rises-keep_if s b [] h = refl
rises-keep_if s b (c ∷ cs) h =
    ground (arith, rises-keep_if s c.sequence cs, keep_risen s cs, rises_mono s c.sequence cs)

last_le :
    (n s : ℕ) (cs : List FileProviderChange) → rises s cs ≡ true → s ≤ last_sequence s (take n cs)
last_le zero s cs h = omega arith
last_le (suc n) s [] h = omega arith
last_le (suc n) s (c ∷ cs) h = ground (arith, last_le n c.sequence cs)

-- The rows after the last one taken are those that were not taken.
keep_after_take :
    (n s : ℕ) (cs : List FileProviderChange)
    → rises s cs ≡ true
    → keep_if (is_after (last_sequence s (take n cs))) cs ≡ drop n cs
keep_after_take zero s cs h = keep_risen s cs h
keep_after_take (suc n) s [] h = refl
keep_after_take (suc n) s (c ∷ cs) h =
    ground (arith, keep_after_take n c.sequence cs, last_le n c.sequence cs)

keep_twice :
    (s t : ℕ) (cs : List FileProviderChange)
    → s ≤ t
    → keep_if (is_after t) (keep_if (is_after s) cs) ≡ keep_if (is_after t) cs
keep_twice s t [] le = refl
keep_twice s t (c ∷ cs) le = ground (arith, keep_twice s t cs)

abbrev pub joined :
    List FileProviderChange → Option (List FileProviderChange) → Option (List FileProviderChange)
joined rows none = none
joined rows (some rest) = some (rows ++ rest)

-- What a phone does: it asks for the page after its cursor until a page says that there is no more.
-- `none` means that the fuel ran out.
abbrev pub pull : ℕ → ℕ → ℕ → List FileProviderChange → Option (List FileProviderChange)
pull zero limit sequence cs = none
pull (suc fuel) limit sequence cs =
    let page = changes_page limit sequence cs in
    let rest = pull fuel limit page.last cs in
    if page.more then joined page.rows rest else some page.rows

pull_lem :
    (fuel limit s b : ℕ) (cs : List FileProviderChange)
    → rises b cs ≡ true
    → length (keep_if (is_after s) cs) < fuel
    → pull fuel limit s cs ≡ some (keep_if (is_after s) cs)
unfolding changes_page
pull_lem zero limit s b cs h enough = absurd (omega arith)
pull_lem (suc fuel) limit s b cs h enough =
    let n = clamp_limit 1000 limit in
    let rows = keep_if (is_after s) cs in
    let last = last_sequence s (take n rows) in
    let risen : rises s rows ≡ true = rises-keep_if s b cs h in
    let rest : keep_if (is_after last) cs ≡ drop n rows =
      sym (keep_twice s last cs (last_le n s rows risen)) ∙ keep_after_take n s rows risen in
    let same : take n (take (n + 1) rows) ≡ take n rows = take-take n rows in
    elim (Bool-cases (ltb n (length (take (n + 1) rows)))) [
      | inr all_taken ↦ rw same (ground (arith, take_all n rows))
      | inl more ↦ rw same (
          ground
            (arith, pull_lem fuel limit last b cs h, rest, length-drop n rows, take-drop n rows))
    ]

-- A row of the log as a call asked for it, and the tables after a series of calls.
abbrev pub noted : FileProviderChange → String × String
noted c = (c.item_id, c.operation)

abbrev pub asked : DateTime × String × String → String × String
asked (now, item_id, operation) = (item_id, operation)

abbrev pub recorded : List (DateTime × String × String) → Tables → Tables
recorded [] t = t
recorded ((now, item_id, operation) ∷ calls) t =
    recorded calls (record_change now item_id operation t).1

rises-append :
    (b : ℕ) (cs : List FileProviderChange) (c : FileProviderChange)
    → rises b cs ≡ true
    → b < c.sequence
    → next_sequence cs ≤ c.sequence
    → rises b (cs ++ c ∷ []) ≡ true
unfolding next_sequence
rises-append b [] c h lt le = ground arith
rises-append b (x ∷ cs) c h lt le = ground (arith, rises-append x.sequence cs c)

next_pos : (cs : List FileProviderChange) → 0 < next_sequence cs
unfolding next_sequence
next_pos [] = omega arith
next_pos (c ∷ cs) = omega (arith, next_pos cs)

recorded-rises :
    (calls : List (DateTime × String × String)) (t : Tables)
    → rises 0 t.changes ≡ true
    → rises 0 (recorded calls t).changes ≡ true
unfolding record_change
recorded-rises [] t h = h
recorded-rises ((now, item_id, operation) ∷ calls) t h =
    recorded-rises calls (record_change now item_id operation t).1
      (rises-append 0 t.changes _ h (next_pos t.changes) (omega arith))

recorded_all :
    (calls : List (DateTime × String × String)) (t : Tables)
    → map noted (recorded calls t).changes ≡ map noted t.changes ++ map asked calls
unfolding record_change
recorded_all [] t = sym (append-nil (map noted t.changes))
recorded_all ((now, item_id, operation) ∷ calls) t =
    simp (recorded_all calls (record_change now item_id operation t).1, map-append, append_assoc)

length-recorded :
    (calls : List (DateTime × String × String)) (t : Tables)
    → length (recorded calls t).changes ≡ length t.changes + length calls
unfolding record_change
length-recorded [] t = omega arith
length-recorded ((now, item_id, operation) ∷ calls) t = omega (
  arith,
  length-recorded calls (record_change now item_id operation t).1,
  length-append t.changes (
      record { sequence = next_sequence t.changes; item_id = item_id; operation = operation } ∷ []),
)

kept_le :
    (p : FileProviderChange → Bool) (cs : List FileProviderChange)
    → length (keep_if p cs) ≤ length cs
kept_le p [] = omega arith
kept_le p (c ∷ cs) = ground (arith, kept_le p cs)

-- In a log that began empty, a phone that follows the cursors gets every change after its cursor,
-- each once and in order, whatever page size it asks for, and needs at most one page more than there
-- were calls. From cursor 0 these are the calls, item by item and operation by operation.
pub feed_is_complete :
    (calls : List (DateTime × String × String)) (items : List FileProviderItem)
    (limit sequence fuel : ℕ)
    → length calls < fuel
    → let t = recorded calls (record { items = items; changes = [] }) in
      (pull fuel limit sequence t.changes ≡ some (keep_if (is_after sequence) t.changes))
      × (keep_if (is_after 0) t.changes ≡ t.changes)
      × (map noted t.changes ≡ map asked calls)
feed_is_complete calls items limit sequence fuel enough =
    let t : Tables = recorded calls (record { items = items; changes = [] }) in
    let risen : rises 0 t.changes ≡ true = recorded-rises calls _ refl in
    (
      pull_lem fuel limit sequence 0 t.changes risen (
          omega (
            arith,
            kept_le (is_after sequence) t.changes,
            length-recorded calls (record { items = items; changes = [] }),
          )),
      keep_risen 0 t.changes risen,
      recorded_all calls (record { items = items; changes = [] }),
    )
