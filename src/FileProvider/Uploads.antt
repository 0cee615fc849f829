-- ===== src/FileProvider/Uploads.antt =====
-- Uploads of a phone (src/mnema/file_provider/service.py: upload_path, validate_upload_name and
-- create_upload; src/mnema/file_provider/api.py: append_upload). An exception rolls the rows back; what
-- was done to files stays. A symbolic link is taken to point at a file.
pub mod Bytes
pub mod Admission
pub mod Created
pub mod Refined
use Prim.Native.String.{◌++◌ as str_append, len, count}
use mnema.Prelude.{
  ℕ, zero, suc, ◌+◌, ◌-◌, ◌*◌, Bool, true, false, not, ◌&&◌, ◌||◌, Option, none, some, List, [],
  ◌∷◌, ◌++◌, take, length, all, any, find, ltb, leb, ◌==◌, if◌then◌else◌, is_some, String, str_eq,
  DateTime, hours, codes,
}
use mnema.Security.Redaction.{Patterns}
use mnema.Runtime.Errors.{Error, value_error, os_error, other, Result, ok, err}
use mnema.Runtime.Files.{
  FilePath, is_relative_to, Content, Node, regular, symlink, directory, Files, has_size, write,
}
use mnema.Config.Settings.{Percent}
use mnema.Runtime.Floats.{quotient, of_percent}
use mnema.Domain.States.{discovered, eligible, queued, downloading, ArchiveState}
use mnema.Domain.Source.{SourceObject}
use mnema.Domain.Storage.{safe_relative_path}
use mnema.Domain.Workflow.{no_details}
use mnema.Domain.Discovery.{new_item}
use mnema.Jobs.Models.Archive.{ArchiveItem}
use mnema.Jobs.Models.Work.{Job}
use mnema.Jobs.Models.FileProvider.{
  FileProviderItem, file, processing, FileProviderUpload, open_, upload_status_eq,
}
use mnema.Jobs.StateService.{Ledger, transition_item}
use mnema.Adapters.FileOps.{Host}
use mnema.FileProvider.Auth.{update_first}
use mnema.FileProvider.Items.{Tables, record_change, bootstrap_roots}

-- What the operations read of the settings, with Python's `str` of a number and of an exception,
-- `strip` of a text, and the key that the database gives a new job.
pub record Site : Type 0 where
  pub re : Patterns
  pub host : Host
  pub str_of : ℕ → String
  pub error_text : Error → String
  pub strip : String → String
  pub job_key : List Job → ℕ
  pub upload_root : FilePath
  pub staging_root : FilePath
  pub active_root : FilePath
  pub max_file_size : ℕ
  pub minimum_free_percent : Percent

-- The rows and the files that the operations work on.
pub record Server : Type 0 where
  pub files : Files
  pub uploads : List FileProviderUpload
  pub archives : List Ledger
  pub tables : Tables
  pub jobs : List Job

abbrev pub is_upload : String → FileProviderUpload → Bool
is_upload id u = str_eq u.id id

abbrev pub is_archive : ℕ → Ledger → Bool
is_archive id l = l.item.id == id

abbrev between : ℕ → ℕ → ℕ → Bool
between low high c = leb low c && leb c high

abbrev is_alnum : ℕ → Bool
is_alnum c = between b'0' b'9' c || between b'A' b'Z' c || between b'a' b'z' c

-- `upload_id.isascii() and upload_id.replace("-", "").isalnum()`
unfoldable pub is_upload_id : String → Bool
is_upload_id id = all (λ c. is_alnum c || c == b'-') (codes id) && any is_alnum (codes id)

-- `upload_path`
unfoldable pub upload_path : Site → Files → String → Result FilePath
upload_path site files upload_id =
    if not (is_upload_id upload_id)
    then err (value_error "invalid upload identifier")
    else let root = site.host.lib.resolve files site.upload_root in
      if not (
        is_relative_to (site.host.lib.resolve files root)
          (site.host.lib.resolve files site.active_root))
      then err (value_error "upload path escapes active storage")
      else ok (root ++ str_append upload_id ".upload" ∷ [])

abbrev pub last_part : List String → String
last_part [] = ""
last_part (part ∷ []) = part
last_part (part ∷ next ∷ parts) = last_part (next ∷ parts)

-- `validate_upload_name`
unfoldable pub validate_upload_name : Site → String → Result String
validate_upload_name site name =
    let candidate = site.strip name in
    elim (safe_relative_path site.host.lib candidate) [
      | err e ↦ err e
      | ok parts ↦
          if not (str_eq (last_part parts) candidate)
            || str_eq candidate "."
            || str_eq candidate ".."
          then err (value_error "uploads must use one safe file name")
          else if ltb 255 (len candidate)
          then err (value_error "upload name is too long")
          else ok candidate
    ]

abbrev pub is_hex : ℕ → Bool
is_hex c = between b'0' b'9' c || between b'a' b'f' c

abbrev pub is_sha256 : Option String → Bool
is_sha256 none = true
is_sha256 (some t) = count t == 64 && all is_hex (codes t)

-- `shutil.disk_usage(settings.active_root)`
pub record DiskUsage : Type 0 where
  pub free : ℕ
  pub total : ℕ

-- The reserve: three times the size must fit and leave the minimum. A disk of no size, where the
-- source divides by zero, has no room.
unfoldable pub has_room : Site → DiskUsage → ℕ → Bool
has_room site usage size =
    leb (size * 3) usage.free
    && not (usage.total == 0)
    && leb (of_percent site.minimum_free_percent)
        (quotient ((usage.free - size * 3) * 100) usage.total)

-- The loop over `(ELIGIBLE, QUEUED, DOWNLOADING)`.
unfoldable pub advance : Site → List ArchiveState → Ledger → Option Ledger
advance site [] l = some l
advance site (target ∷ targets) l =
    elim (transition_item site.re l target "file-provider" no_details) [
      | none ↦ none
      | some m ↦ advance site targets m
    ]

-- The identifiers that are drawn for a new upload, and the database's key of its archive item.
pub record Fresh : Type 0 where
  pub upload_id : String
  pub item_id : String
  pub archive_id : ℕ

unfoldable pub upload_item : Fresh → DateTime → String → ℕ → String → FileProviderItem
upload_item fresh now name size content_type = record {
  id = fresh.item_id;
  parent_id = some "inbox";
  name = name;
  kind = file;
  status = processing;
  archive_item_id = some fresh.archive_id;
  size = size;
  content_type = if str_eq content_type "" then "application/octet-stream" else content_type;
  content_version = "";
  metadata_version = 1;
  error_message = none;
  modified_at = now;
}

unfoldable pub upload_row : Fresh → DateTime → ℕ → Option String → FileProviderUpload
upload_row fresh now size sha256 = record {
  id = fresh.upload_id;
  item_id = fresh.item_id;
  archive_item_id = fresh.archive_id;
  expected_size = size;
  received_size = 0;
  expected_sha256 = sha256;
  status = open_;
  expires_at = now + hours 24;
}

abbrev pub upload_source : Fresh → DateTime → String → ℕ → SourceObject
upload_source fresh now name size = record {
  source_id = fresh.upload_id;
  relative_path = str_append "Uploads/" name;
  size = size;
  modified_at = now;
  version = fresh.upload_id;
}

-- The rows that a valid request adds.
unfoldable pub add_upload :
    Site
    → Fresh
    → DateTime
    → String
    → ℕ
    → String
    → Option String
    → Server
    → Result FileProviderUpload × Server
unfolding upload_item upload_row
add_upload site fresh now name size content_type sha256 s =
    let tables = bootstrap_roots now s.tables in
    let archive : Ledger = record {
      item = new_item fresh.archive_id "file_provider_upload" (upload_source fresh now name size);
      events = [];
    } in
    elim (advance site (eligible ∷ queued ∷ downloading ∷ []) archive) [
      | none ↦ (err Error.invalid_transition, s)
      | some l ↦
          let u = upload_row fresh now size sha256 in
          (
            ok u,
            record s {
              archives = s.archives ++ l ∷ [];
              uploads = s.uploads ++ u ∷ [];
              tables =
                  (record_change now fresh.item_id "UPSERT" (record tables {
                    items = tables.items ++ upload_item fresh now name size content_type ∷ [];
                  })).1;
            },
          )
    ]

-- `create_upload`
unfoldable pub create_upload :
    Site
    → DiskUsage
    → Fresh
    → DateTime
    → String
    → ℕ
    → String
    → Option String
    → Server
    → Result FileProviderUpload × Server
create_upload site usage fresh now name size content_type sha256 s =
    elim (validate_upload_name site name) [
      | err e ↦ (err e, s)
      | ok name' ↦
          if ltb site.max_file_size size
          then (err (value_error "upload size exceeds configured limit"), s)
          else if not (has_room site usage size)
          then (err os_error, s)
          else if not (is_sha256 sha256)
          then (err (value_error "SHA-256 must use 64 lowercase hexadecimal characters"), s)
          else add_upload site fresh now name' size content_type sha256 s
    ]

-- A handler's answer: a reply, an `HTTPException` with its status, or another exception.
pub data Reply {ℓ} (A : Type ℓ) : Type ℓ where
  reply : A → Reply A
  refused : ℕ → String → Reply A
  raised : Error → Reply A

-- The body of a request: its chunks, and whether it ends or the connection is lost.
pub data Stream : Type 0 where
  finished : Stream
  lost : Stream
  chunk : Content → Stream → Stream

-- The loop over the chunks: why it was left by an exception, and what was written.
unfoldable pub receive : ℕ → ℕ → Content → Stream → Option (Reply ℕ) × Content
receive expected offset written finished = (none, written)
receive expected offset written lost = (some (raised (other "ClientDisconnect")), written)
receive expected offset written (chunk bytes rest) =
    let more = receive expected offset (written ++ bytes) rest in
    if ltb expected (offset + length written + length bytes)
    then (some (refused 413 "upload exceeds declared size"), written)
    else more

abbrev pub zeros : ℕ → Content
zeros zero = []
zeros (suc n) = 0 ∷ zeros n

-- `output.truncate(size)`, which fills a shorter file up with zeros.
abbrev pub truncate : ℕ → Content → Content
truncate size bytes = take size bytes ++ zeros (size - length bytes)

-- From `path.open(mode)` on, with what the file held.
unfoldable pub append_bytes :
    FilePath
    → ℕ
    → Stream
    → Content
    → FileProviderUpload × Files
    → Reply ℕ × FileProviderUpload × Files
unfolding receive
append_bytes path offset stream held (u, files) =
    let (failure, written) = receive u.expected_size offset [] stream in
    elim failure [
      | some answer ↦
          (answer, u, write path (some (regular (truncate offset (held ++ written)))) files)
      | none ↦ (
        reply (u.received_size + length written),
        record u { received_size = u.received_size + length written },
        write path (some (regular (held ++ written))) files,
      )
    ]

-- The tests on the staged file. A directory that passes them cannot be opened.
unfoldable pub append_at :
    FilePath
    → ℕ
    → Stream
    → Option Node
    → FileProviderUpload × Files
    → Reply ℕ × FileProviderUpload × Files
append_at path offset stream none state = append_bytes path offset stream [] state
append_at path offset stream (some symlink) (u, files) =
    (refused 409 "upload staging state is inconsistent", u, files)
append_at path offset stream (some (directory n)) (u, files) = (
  if n == offset then raised os_error else refused 409 "upload staging state is inconsistent",
  u,
  files,
)
append_at path offset stream (some (regular bytes)) (u, files) =
    if length bytes == offset
    then append_bytes path offset stream bytes (u, files)
    else (refused 409 "upload staging state is inconsistent", u, files)

-- `append_upload` on the row that it found, with the path of its staged file.
unfoldable pub append_to :
    DateTime
    → Result FilePath
    → ℕ
    → Stream
    → FileProviderUpload × Files
    → Reply ℕ × FileProviderUpload × Files
append_to now path offset stream (u, files) =
    if not (upload_status_eq u.status open_) || leb u.expires_at now
    then (refused 409 "upload is closed or expired", u, files)
    else if not (u.received_size == offset)
    then (refused 409 "expected offset", u, files)
    else elim path [
      | err e ↦ (raised e, u, files)
      | ok p ↦ append_at p offset stream (files p) (u, files)
    ]

-- `append_upload`
unfoldable pub append_upload : Site → DateTime → String → ℕ → Stream → Server → Reply ℕ × Server
append_upload site now upload_id offset stream s = elim (find (is_upload upload_id) s.uploads) [
  | none ↦ (refused 404 "upload not found", s)
  | some u ↦
      let (answer, u', files) =
        append_to now (upload_path site s.files u.id) offset stream (u, s.files) in
      (
        answer,
        record s {
          uploads = update_first (is_upload upload_id) (λ _. u') s.uploads;
          files = files;
        },
      )
]
