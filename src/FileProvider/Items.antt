-- ===== src/FileProvider/Items.antt =====
-- The items that phones see and the log of their changes (src/mnema/file_provider/service.py, and
-- the handlers `changes` and `children` of src/mnema/file_provider/api.py). A table is a list of
-- rows in the order of their keys.
pub mod Feed
pub mod Names
pub mod Cursor
pub mod Projection
use Prim.Native.String.{◌++◌ as str_append, slice}
use text.Mathlib.Text.{starts_with}
use mnema.Prelude.{
  ℕ, ◌+◌, ◌-◌, min, max, Bool, true, false, not, ◌&&◌, ◌||◌, Option, none, some, List, [], ◌∷◌,
  ◌++◌, take, length, find, keep_if, ltb, leb, ◌==◌, if◌then◌else◌, is_some, is_none, String,
  str_eq, DateTime,
}
use mnema.Runtime.Errors.{value_error, Result, ok, err}
use mnema.Domain.Storage.{Pathlib}
use mnema.Domain.States.{
  ArchiveState, quarantined, ready_for_revalidation, ready_for_deletion, archived, member,
}
use mnema.Jobs.Models.Archive.{ArchiveItem}
use mnema.Jobs.Models.FileProvider.{
  FileProviderItem, FileProviderItemKind, folder, FileProviderItemStatus, ready, failed,
  item_status_eq, FileProviderChange,
}
use mnema.FileProvider.Auth.{update_first}

pub record Tables : Type 0 where
  pub items : List FileProviderItem
  pub changes : List FileProviderChange

abbrev pub has_id : String → FileProviderItem → Bool
has_id id i = str_eq i.id id

-- `session.get(FileProviderItem, id)`
abbrev pub get : String → Tables → Option FileProviderItem
get id t = find (has_id id) t.items

-- The key of a new row: one above the greatest, as SQLite numbers rows that are never deleted.
unfoldable pub next_sequence : List FileProviderChange → ℕ
next_sequence [] = 1
next_sequence (c ∷ cs) = max (c.sequence + 1) (next_sequence cs)

abbrev pub versioned : DateTime → ℕ → FileProviderItem → FileProviderItem
versioned now sequence i = record i { metadata_version = sequence; modified_at = now }

-- `record_change`
unfoldable pub record_change : DateTime → String → String → Tables → ℕ × Tables
record_change now item_id operation t =
    let sequence = next_sequence t.changes in
    (
      sequence,
      record {
        items = update_first (has_id item_id) (versioned now sequence) t.items;
        changes =
            t.changes
            ++ record { sequence = sequence; item_id = item_id; operation = operation } ∷ [];
      },
    )

-- `_suffixed`
unfoldable pub suffixed : Pathlib → String → String → String
suffixed lib name suffix =
    str_append (lib.stem name) (str_append "-" (str_append suffix (lib.suffix name)))

abbrev pub parent_is : Option String → String → Bool
parent_is none parent = false
parent_is (some p) parent = str_eq p parent

-- The query for a clash: another child of the parent with the name.
unfoldable pub clashes : String → String → String → FileProviderItem → Bool
clashes parent_id name item_id i =
    parent_is i.parent_id parent_id && str_eq i.name name && not (str_eq i.id item_id)

unfoldable pub first_free : String → String → List String → List FileProviderItem → Option String
first_free parent_id item_id [] items = none
first_free parent_id item_id (candidate ∷ candidates) items =
    let rest = first_free parent_id item_id candidates items in
    if is_none (find (clashes parent_id candidate item_id) items) then some candidate else rest

-- `unique_child_name`: `none` is its `ValueError`.
unfoldable pub unique_child_name :
    Pathlib → String → String → String → List FileProviderItem → Option String
unfolding first_free
unique_child_name lib parent_id desired item_id items =
    first_free parent_id item_id
      (desired ∷ suffixed lib desired (slice item_id 0 8) ∷ suffixed lib desired item_id ∷ []) items

abbrev pub ready_states : List ArchiveState
ready_states = quarantined ∷ ready_for_revalidation ∷ ready_for_deletion ∷ archived ∷ []

abbrev pub uploads_id : String
uploads_id = "archive-uploads"

abbrev pub promoted : String → FileProviderItem → FileProviderItem
promoted name i = record i {
  name = name;
  parent_id = some uploads_id;
  status = ready;
  error_message = none;
}

-- `item.name if item.name.startswith(prefix) else f"{prefix}{item.name}"`
abbrev pub with_prefix : String → String → String
with_prefix prefix name = if starts_with name prefix then name else str_append prefix name

-- `promote_upload`. `str_of` is Python's `str` of a number.
unfoldable pub promote_upload :
    Pathlib → (ℕ → String) → DateTime → ArchiveItem → String → Tables → Result Tables
promote_upload lib str_of now archive item_id t =
    if not (member archive.state ready_states) || is_none archive.cold_archived_at
    then ok t
    else elim (get item_id t) [
      | none ↦ ok t
      | some item ↦
          if item_status_eq item.status ready
          then ok t
          else elim (unique_child_name lib uploads_id
              (with_prefix (str_append (str_of archive.id) "-") item.name) item.id t.items) [
                | none ↦ err (value_error "cannot derive a unique File Provider name")
                | some name ↦
                    ok
                      (record_change now item.id "UPSERT" (record t {
                        items = update_first (has_id item_id) (promoted name) t.items;
                      })).1
              ]
    ]

abbrev pub broken : String → FileProviderItem → FileProviderItem
broken code i = record i { status = failed; error_message = some (slice code 0 120) }

-- `mark_upload_failed`
unfoldable pub mark_upload_failed : DateTime → String → String → Tables → Tables
mark_upload_failed now item_id code t = elim (get item_id t) [
  | none ↦ t
  | some item ↦
      (record_change now item.id "UPSERT"
        (record t { items = update_first (has_id item_id) (broken code) t.items })).1
]

abbrev pub new_folder : DateTime → String → Option String → String → FileProviderItem
new_folder now id parent_id name = record {
  id = id;
  parent_id = parent_id;
  name = name;
  kind = folder;
  status = ready;
  archive_item_id = none;
  size = 0;
  content_type = "application/octet-stream";
  content_version = "";
  metadata_version = 1;
  error_message = none;
  modified_at = now;
}

abbrev pub roots : List (String × Option String × String)
roots =
    ("root", none, "Mnema")
    ∷ ("inbox", some "root", "Inbox")
    ∷ ("archive", some "root", "Archive")
    ∷ ("archive-uploads", some "archive", "Uploads")
    ∷ ("archive-icloud", some "archive", "iCloud Photos")
    ∷ ("archive-local", some "archive", "Local Imports")
    ∷ []

unfoldable pub add_roots : DateTime → List (String × Option String × String) → Tables → Tables
add_roots now [] t = t
add_roots now ((id, parent_id, name) ∷ rest) t = add_roots now rest (
    if is_some (get id t)
    then t
    else (record_change now id "UPSERT"
        (record t { items = t.items ++ new_folder now id parent_id name ∷ [] })).1)

-- `bootstrap_roots`, less the setting that names the generation.
unfoldable pub bootstrap_roots : DateTime → Tables → Tables
unfolding add_roots
bootstrap_roots now t = add_roots now roots t

-- One answer of `changes` to a valid cursor: the rows, the next cursor's sequence, and `more`.
pub record Page : Type 0 where
  pub rows : List FileProviderChange
  pub last : ℕ
  pub more : Bool

abbrev pub is_after : ℕ → FileProviderChange → Bool
is_after sequence c = ltb sequence c.sequence

abbrev pub last_sequence : ℕ → List FileProviderChange → ℕ
last_sequence sequence [] = sequence
last_sequence sequence (c ∷ cs) = last_sequence c.sequence cs

-- `max(1, min(limit, 1000))`
abbrev pub clamp_limit : ℕ → ℕ → ℕ
clamp_limit top limit = max 1 (min limit top)

-- The query of `changes` and what follows it; `.limit(limit + 1)` shows whether there are more.
unfoldable pub changes_page : ℕ → ℕ → List FileProviderChange → Page
changes_page limit sequence changes =
    let size = clamp_limit 1000 limit in
    let rows = take (size + 1) (keep_if (is_after sequence) changes) in
    record {
      rows = take size rows;
      last = last_sequence sequence (take size rows);
      more = ltb size (length rows);
    }
