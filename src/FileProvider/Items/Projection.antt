-- ===== src/FileProvider/Items/Projection.antt =====
-- The items of verified archives (src/mnema/file_provider/service.py: project_verified_archives).
use Prim.Native.String.{◌++◌ as str_append}
use mnema.Prelude.{
  ℕ, ◌+◌, Bool, true, false, not, ◌&&◌, ◌||◌, Option, none, some, List, [], ◌∷◌, ◌++◌, find, ◌==◌,
  if◌then◌else◌, is_some, String, str_eq, DateTime,
}
use mnema.Runtime.Errors.{value_error, Result, ok, err}
use mnema.Domain.States.{member}
use mnema.Domain.Storage.{Pathlib, safe_relative_path}
use mnema.Jobs.Models.Archive.{ArchiveItem}
use mnema.Jobs.Models.FileProvider.{FileProviderItem, file, FileProviderItemStatus}
use mnema.FileProvider.Auth.{update_first}
use mnema.FileProvider.Items.{
  Tables, has_id, get, record_change, parent_is, unique_child_name, ready_states, uploads_id,
  new_folder, bootstrap_roots,
}

-- pathlib, Python's `str` of a number, and `str(uuid.uuid5(NAMESPACE_URL, text))`.
pub record Publisher : Type 0 where
  pub lib : Pathlib
  pub str_of : ℕ → String
  pub uuid5 : String → String

-- `COLLECTIONS`, with the default of `get`.
abbrev pub collection_of : String → String
collection_of provider =
    if str_eq provider "file_provider_upload"
    then uploads_id
    else if str_eq provider "icloud_photos"
    then "archive-icloud"
    else "archive-local"

-- `original.parts[:-1]` and `original.name`
abbrev pub folders_of : List String → List String
folders_of [] = []
folders_of (part ∷ []) = []
folders_of (part ∷ next ∷ parts) = part ∷ folders_of (next ∷ parts)

abbrev pub name_of : List String → String
name_of [] = ""
name_of (part ∷ []) = part
name_of (part ∷ next ∷ parts) = name_of (next ∷ parts)

-- `'/'.join(cumulative + [component])`
abbrev pub below : String → String → String
below cumulative component =
    if str_eq cumulative "" then component else str_append cumulative (str_append "/" component)

abbrev or_unnamed : Option String → Result String
or_unnamed none = err (value_error "cannot derive a unique File Provider name")
or_unnamed (some name) = ok name

module _ (p : Publisher) (now : DateTime) where
  abbrev free_name : String → String → String → Tables → Result String
  free_name parent_id desired item_id t =
      or_unnamed (unique_child_name p.lib parent_id desired item_id t.items)

  -- The folder of one component: the one that is there, or a new one.
  unfoldable pub add_folder : String → String → String → Tables → Result Tables
  add_folder folder_id parent_id component t =
      if is_some (get folder_id t) then ok t else elim (free_name parent_id component folder_id t) [
        | err e ↦ err e
        | ok name ↦
            ok
              (record_change now folder_id "UPSERT" (record t {
                items = t.items ++ new_folder now folder_id (some parent_id) name ∷ [];
              })).1
      ]

  -- The loop over the components: the last folder.
  unfoldable pub add_folders :
      String → String → String → List String → Tables → Result (String × Tables)
  unfolding add_folder
  add_folders provider parent_id cumulative [] t = ok (parent_id, t)
  add_folders provider parent_id cumulative (component ∷ components) t =
      let path = below cumulative component in
      let folder_id =
        p.uuid5 (str_append "mnema:collection:" (str_append provider (str_append ":" path))) in
      elim (add_folder folder_id parent_id component t) [
        | err e ↦ err e
        | ok t' ↦ add_folders provider folder_id path components t'
      ]

  -- Where an archive is shown: the folder and the name that are wished for.
  unfoldable pub place_of : ArchiveItem → List String → Tables → Result (String × String × Tables)
  unfolding add_folders
  place_of archive parts t =
      let collection = collection_of archive.source_provider in
      if str_eq archive.source_provider "icloud_photos"
      then elim (add_folders archive.source_provider collection "" (folders_of parts) t) [
        | err e ↦ err e
        | ok (parent_id, t') ↦ ok (parent_id, name_of parts, t')
      ]
      else ok (collection, str_append (p.str_of archive.id) (str_append "-" (name_of parts)), t)

  abbrev shows : ℕ → FileProviderItem → Bool
  shows id i = elim i.archive_item_id [ none ↦ false | some n ↦ n == id ]

  abbrev or_empty : Option String → String
  or_empty none = ""
  or_empty (some t) = t

  unfoldable pub new_item_of : ArchiveItem → String → String → String → FileProviderItem
  new_item_of archive identifier parent_id name = record {
    id = identifier;
    parent_id = some parent_id;
    name = name;
    kind = file;
    status = FileProviderItemStatus.ready;
    archive_item_id = some archive.id;
    size = archive.original_size;
    content_type = "application/octet-stream";
    content_version = or_empty archive.plaintext_sha256;
    metadata_version = 1;
    error_message = none;
    modified_at = archive.original_modified_at;
  }

  -- What is done with the place and the unique name: whether an item was projected.
  unfoldable pub show_at :
      ArchiveItem → Option FileProviderItem → String → String → String → Tables → Bool × Tables
  unfolding new_item_of
  show_at archive none identifier parent_id name t = (
    true,
    (record_change now identifier "UPSERT"
        (record t { items = t.items ++ new_item_of archive identifier parent_id name ∷ [] })).1,
  )
  show_at archive (some existing) identifier parent_id name t =
      if not (parent_is existing.parent_id parent_id) || not (str_eq existing.name name)
      then (
        true,
        (record_change now existing.id "UPSERT" (record t {
          items =
              update_first (has_id existing.id)
                (λ i. record i { parent_id = some parent_id; name = name }) t.items;
        })).1,
      )
      else (false, t)

  abbrev id_or : String → Option FileProviderItem → String
  id_or identifier none = identifier
  id_or identifier (some existing) = existing.id

  -- One turn of the loop for an archive that is ready.
  unfoldable pub project_one : ArchiveItem → Tables → Result (Bool × Tables)
  unfolding place_of show_at
  project_one archive t =
      let existing = find (shows archive.id) t.items in
      let identifier = p.uuid5 (str_append "mnema:archive:" (p.str_of archive.id)) in
      elim (safe_relative_path p.lib archive.original_path) [
        | err e ↦ err e
        | ok parts ↦ elim (place_of archive parts t) [
          | err e ↦ err e
          | ok (parent_id, desired, t') ↦
              elim (free_name parent_id desired (id_or identifier existing) t') [
                | err e ↦ err e
                | ok name ↦ ok (show_at archive existing identifier parent_id name t')
              ]
        ]
      ]

  abbrev is_shown : ArchiveItem → Bool
  is_shown archive =
      is_some archive.nas_path
      && member archive.state ready_states
      && is_some archive.cold_archived_at

  unfoldable pub project_all : List ArchiveItem → Tables → Result (ℕ × Tables)
  unfolding project_one
  project_all [] t = ok (0, t)
  project_all (archive ∷ archives) t =
      if not (is_shown archive) then project_all archives t else elim (project_one archive t) [
        | err e ↦ err e
        | ok (projected, t') ↦ elim (project_all archives t') [
          | err e ↦ err e
          | ok (n, t'') ↦ ok (if projected then n + 1 else n, t'')
        ]
      ]

  -- `project_verified_archives`. An exception leaves the rows, as the caller's session rolls back.
  unfoldable pub project_verified_archives : List ArchiveItem → Tables → Result (ℕ × Tables)
  unfolding project_all
  project_verified_archives archives t = project_all archives (bootstrap_roots now t)
