-- ===== src/FileProvider/Items/Names.antt =====
-- The names that `unique_child_name` (service.py) gives: the index on parent and name is kept.
use Prim.Native.String.{◌++◌ as str_append, slice}
use mnema.Prelude.{
  ◌≡◌, refl, Bool, true, false, not, ◌&&◌, ◌||◌, Option, none, some, List, [], ◌∷◌, find,
  find-passes, any, is_none, ℕ, ◌⊎◌, String, str_eq, str_eq_iff, DateTime, Option-cases, Bool-cases,
  inl, inr, arith,
}
use mnema.Runtime.Errors.{ok}
use mnema.Domain.Storage.{Pathlib}
use mnema.Jobs.Models.Archive.{ArchiveItem}
use mnema.Jobs.Models.FileProvider.{FileProviderItem, ready, item_status_eq}
use mnema.Domain.States.{member}
use mnema.FileProvider.Auth.{update_first}
use mnema.FileProvider.Items.{
  Tables, get, parent_is, suffixed, clashes, first_free, unique_child_name, has_id, versioned,
  record_change, promoted, promote_upload, uploads_id, ready_states, with_prefix, next_sequence,
}

abbrev parents_match : Option String → Option String → Bool
parents_match none b = false
parents_match (some p) none = false
parents_match (some p) (some q) = str_eq p q

-- Two rows that the unique index on parent and name would refuse.
abbrev pub same_place : FileProviderItem → FileProviderItem → Bool
same_place a b = parents_match a.parent_id b.parent_id && str_eq a.name b.name

abbrev pub has_unique_names : List FileProviderItem → Bool
has_unique_names [] = true
has_unique_names (i ∷ items) = not (any (same_place i) items) && has_unique_names items

abbrev pub has_unique_ids : List FileProviderItem → Bool
has_unique_ids [] = true
has_unique_ids (i ∷ items) = not (any (has_id i.id) items) && has_unique_ids items

str_eq_comm : (s t : String) → str_eq s t ≡ str_eq t s
str_eq_comm s t = ground (arith, str_eq_iff s t, str_eq_iff t s)

match_flip : (p : String) (o : Option String) → parents_match (some p) o ≡ parent_is o p
match_flip p none = refl
match_flip p (some q) = str_eq_comm p q

match_as_is : (o : Option String) (p : String) → parents_match o (some p) ≡ parent_is o p
match_as_is none p = refl
match_as_is (some q) p = refl

-- A name that is given has no clash.
free_name :
    (parent_id item_id : String) (candidates : List String) (items : List FileProviderItem)
    {name : String}
    → first_free parent_id item_id candidates items ≡ some name
    → find (clashes parent_id name item_id) items ≡ none
unfolding first_free
free_name parent_id item_id [] items h = cc
free_name parent_id item_id (c ∷ cs) items {name} h =
    ground (arith, free_name parent_id item_id cs items {name = name})

given_name :
    (lib : Pathlib) (parent_id desired item_id : String) (items : List FileProviderItem)
    {name : String}
    → unique_child_name lib parent_id desired item_id items ≡ some name
    → find (clashes parent_id name item_id) items ≡ none
unfolding unique_child_name
given_name lib parent_id desired item_id items h =
    free_name parent_id item_id
      (desired ∷ suffixed lib desired (slice item_id 0 8) ∷ suffixed lib desired item_id ∷ []) items
      h

module _ (parent_id name id : String) (f : FileProviderItem → FileProviderItem)
    (placed : (i : FileProviderItem) → (f i).parent_id ≡ some parent_id)
    (named : (i : FileProviderItem) → (f i).name ≡ name) where
  -- No other row of the table is where the changed row goes.
  after_row :
      (i : FileProviderItem) (xs : List FileProviderItem)
      → find (clashes parent_id name id) xs ≡ none
      → any (has_id id) xs ≡ false
      → any (same_place (f i)) xs ≡ false
  unfolding clashes
  after_row i [] clear alone = refl
  after_row i (x ∷ xs) clear alone = ground (
    arith,
    after_row i xs,
    placed i,
    named i,
    match_flip parent_id x.parent_id,
    str_eq_comm name x.name,
  )

  before_row :
      (y : FileProviderItem) (xs : List FileProviderItem)
      → str_eq y.id id ≡ false
      → clashes parent_id name id y ≡ false
      → any (same_place y) xs ≡ false
      → any (same_place y) (update_first (has_id id) f xs) ≡ false
  unfolding clashes
  before_row y [] other clear apart = refl
  before_row y (x ∷ xs) other clear apart =
      ground (arith, before_row y xs, placed x, named x, match_as_is y.parent_id parent_id)

  place-HasUniqueNames :
      (xs : List FileProviderItem)
      → has_unique_names xs ≡ true
      → has_unique_ids xs ≡ true
      → find (clashes parent_id name id) xs ≡ none
      → has_unique_names (update_first (has_id id) f xs) ≡ true
  place-HasUniqueNames [] u ids clear = refl
  place-HasUniqueNames (x ∷ xs) u ids clear = elim (Bool-cases (str_eq x.id id)) [
    | inl here ↦ ground (arith, after_row x xs, str_eq_iff x.id id)
    | inr other ↦ ground (arith, place-HasUniqueNames xs, before_row x xs)
  ]

-- A change that keeps parent and name keeps the index.
module _ (p : FileProviderItem → Bool) (g : FileProviderItem → FileProviderItem)
    (placed : (i : FileProviderItem) → (g i).parent_id ≡ i.parent_id)
    (named : (i : FileProviderItem) → (g i).name ≡ i.name) where
  any_same :
      (y : FileProviderItem) (xs : List FileProviderItem)
      → any (same_place y) (update_first p g xs) ≡ any (same_place y) xs
  any_same y [] = refl
  any_same y (x ∷ xs) = ground (arith, any_same y xs, placed x, named x)

  any_of_same :
      (x : FileProviderItem) (xs : List FileProviderItem)
      → any (same_place (g x)) xs ≡ any (same_place x) xs
  any_of_same x [] = refl
  any_of_same x (y ∷ ys) = ground (arith, any_of_same x ys, placed x, named x)

  keep-HasUniqueNames :
      (xs : List FileProviderItem)
      → has_unique_names xs ≡ true
      → has_unique_names (update_first p g xs) ≡ true
  keep-HasUniqueNames [] u = refl
  keep-HasUniqueNames (x ∷ xs) u =
      ground (arith, keep-HasUniqueNames xs, any_same x xs, any_of_same x xs)

find-id :
    (id : String) (xs : List FileProviderItem) {i : FileProviderItem}
    → find (has_id id) xs ≡ some i
    → i.id ≡ id
find-id id xs {i} h = (str_eq_iff i.id id).0 (find-passes (has_id id) xs h)

promote-inv :
    (lib : Pathlib) (str_of : ℕ → String) (now : DateTime) (archive : ArchiveItem)
    (item_id : String) (t : Tables) {t' : Tables}
    → promote_upload lib str_of now archive item_id t ≡ ok t'
    → (t' ≡ t)
      ⊎ ((item : FileProviderItem) × (name : String) × (sequence : ℕ) × (find
              (has_id item_id)
              t.items
            ≡ some item)
          × (find (clashes uploads_id name item.id) t.items ≡ none)
          × (t'.items
              ≡ update_first
                  (has_id item.id)
                  (versioned now sequence)
                  (update_first (has_id item_id) (promoted name) t.items)))
unfolding promote_upload record_change
promote-inv lib str_of now archive item_id t {t'} h =
    elim (Bool-cases
      (not (member archive.state ready_states) || is_none archive.cold_archived_at)) [
        | inl early ↦ inl (ground arith)
        | inr going ↦ elim (Option-cases (get item_id t)) [
          | inl missing ↦ inl (ground arith)
          | inr (item, found) ↦ elim (Bool-cases (item_status_eq item.status ready)) [
            | inl already ↦ inl (ground arith)
            | inr fresh ↦
                elim (Option-cases
                  (unique_child_name lib uploads_id (desired item) item.id t.items)) [
                    | inl clash ↦ absurd (ground arith)
                    | inr (name, free) ↦ inr (
                      item,
                      name,
                      next_sequence t.changes,
                      found,
                      given_name lib uploads_id (desired item) item.id t.items free,
                      ground arith,
                    )
                  ]
          ]
        ]
      ]
  where
    desired : FileProviderItem → String
    desired item = with_prefix (str_append (str_of archive.id) "-") item.name

-- A promotion that succeeds keeps the unique index on parent and name: the phone's name may clash in
-- the folder of uploads, the name that is given does not.
pub promote_upload-HasUniqueNames :
    (lib : Pathlib) (str_of : ℕ → String) (now : DateTime) (archive : ArchiveItem)
    (item_id : String) (t : Tables) {t' : Tables}
    → has_unique_ids t.items ≡ true
    → has_unique_names t.items ≡ true
    → promote_upload lib str_of now archive item_id t ≡ ok t'
    → has_unique_names t'.items ≡ true
promote_upload-HasUniqueNames lib str_of now archive item_id t {t'} ids u h =
    elim (promote-inv lib str_of now archive item_id t h) [
      | inl same ↦ rw same u
      | inr (item, name, sequence, found, clear, changed) ↦ rw changed (
          keep-HasUniqueNames (has_id item.id) (versioned now sequence) (λ i. refl) (λ i. refl) _
            (place-HasUniqueNames uploads_id name item_id (promoted name) (λ i. refl) (λ i. refl)
              t.items u ids (rw (find-id item_id t.items found) at clear)))
    ]
