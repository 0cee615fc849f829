-- ===== src/Examples/Uploads.antt =====
-- One upload: its creation, its bytes, its end, and what the phones are told.
use mnema.Prelude.{
  ℕ, ◌≡◌, refl, ◌≤◌, keep_if, true, false, none, some, List, [], ◌∷◌, map, length, count, any, find,
  is_some, String, if◌then◌else◌, hours, arith, DateTime,
}
use mnema.Runtime.Errors.{ok}
use mnema.Runtime.Files.{FilePath, path_eq, regular, Files, Content}
use mnema.Domain.States.{
  downloading, local_staged, quarantined, validate_transition, allowed_transitions, linear_next,
}
use mnema.Jobs.Models.Archive.{ArchiveItem}
use mnema.Jobs.Models.FileProvider.{
  FileProviderItem, FileProviderItemStatus, file, processing, FileProviderUpload,
  FileProviderUploadStatus, open_, sealing,
}
use mnema.Jobs.Queue.Table.{has_key}
use mnema.Jobs.StateService.{transition_item}
use mnema.Adapters.FileOps.{partial_path, check_staged}
use mnema.FileProvider.Items.{
  Tables, is_after, promote_upload, uploads_id, unique_child_name, first_free, clashes,
  record_change, next_sequence,
}
use mnema.FileProvider.Items.Feed.{pull, recorded, noted, asked, feed_is_complete}
use mnema.FileProvider.Items.Cursor.{
  Codec, rstrip, encode_cursor, decode_cursor, decode_cursor-encode_cursor,
}
use mnema.FileProvider.Items.Names.{has_unique_names, promote_upload-HasUniqueNames}
use mnema.FileProvider.Uploads.{
  Site, Server, DiskUsage, Fresh, chunk, finished, lost, Stream, upload_path, is_upload_id,
}
use mnema.FileProvider.Uploads.Bytes.{view, replied, IsStaged}
use mnema.FileProvider.Uploads.Refined.{serve, replay, serve_refines}
use mnema.FileProvider.Sealing.{
  hash_differs, seal_upload, seal_files, seal_rows, make_empty, check_candidate, put_staged,
  discard_source, upload_payload,
}
use mnema.FileProvider.Sealing.Sealed.{job_name, seal_upload_stages, seal_upload_again}
use mnema.FileProvider.Completion.{is_sealing, reconcile_sealing_uploads}
use mnema.FileProvider.Completion.Settled.{reconcile_settles}
use mnema.Examples.Data.{re, host, active_root, rows_in, item_in}

abbrev site : Site
site = record {
  re = re;
  host = host;
  str_of = λ n. "7";
  error_text = λ e. "error";
  strip = λ text. text;
  job_key = λ jobs. 1;
  upload_root = "active" ∷ "uploads" ∷ [];
  staging_root = "staging" ∷ [];
  active_root = active_root;
  max_file_size = 10;
  minimum_free_percent = 10;
}

abbrev source : FilePath
source = "active" ∷ "uploads" ∷ "u1.upload" ∷ []

abbrev upload_in : FileProviderUploadStatus → FileProviderUpload
upload_in status = record {
  id = "u1";
  item_id = "i1";
  archive_item_id = 7;
  expected_size = 2;
  received_size = 2;
  expected_sha256 = none;
  status = status;
  expires_at = hours 24;
}

abbrev item : FileProviderItem
item = record {
  id = "i1";
  parent_id = some "inbox";
  name = "photo";
  kind = file;
  status = processing;
  archive_item_id = some 7;
  size = 2;
  content_type = "image/jpeg";
  content_version = "";
  metadata_version = 1;
  error_message = none;
  modified_at = 0;
}

abbrev uploaded : Files
uploaded path = if path_eq path source then some (regular (1 ∷ 2 ∷ [])) else none

abbrev server_in : FileProviderUploadStatus → Server
server_in status = record {
  files = uploaded;
  uploads = upload_in status ∷ [];
  archives = rows_in downloading ∷ [];
  tables = record { items = item ∷ []; changes = [] };
  jobs = [];
}

abbrev calls : List (DateTime × String × String)
calls = (0, "i1", "UPSERT") ∷ (1, "i2", "UPSERT") ∷ (2, "i1", "DELETE") ∷ []

feed_is_complete_example :
    let t : Tables = recorded calls (record { items = item ∷ []; changes = [] }) in
    (pull 4 1 1 t.changes ≡ some (keep_if (is_after 1) t.changes))
    × (keep_if (is_after 0) t.changes ≡ t.changes)
    × (map noted t.changes ≡ map asked calls)
feed_is_complete_example = feed_is_complete calls (item ∷ []) 1 1 4 (omega arith)

-- Two bodies, one of them at a wrong offset, and one whose connection is lost.
abbrev requests : List (DateTime × ℕ × Stream)
requests =
    (0, 0, chunk (1 ∷ []) finished)
    ∷ (1, 0, chunk (2 ∷ []) finished)
    ∷ (2, 1, chunk (2 ∷ []) lost)
    ∷ []

abbrev empty : FileProviderUpload × Files
empty = (record (upload_in open_) { received_size = 0 }, λ path. none)

serve_refines_example :
    let (answers, u, files) = serve source requests empty in
    ((map replied answers, view source (u, files)) ≡ replay requests (view source empty))
    × IsStaged source (u, files)
serve_refines_example =
    serve_refines source requests empty
      (record { plain = refl; counted = refl; bounded = omega arith })

promote_upload-HasUniqueNames_example :
    has_unique_names (
      record item {
        name = "7-photo";
        parent_id = some uploads_id;
        status = FileProviderItemStatus.ready;
        metadata_version = 1;
        modified_at = 5;
      }
      ∷ [])
    ≡ true
unfolding promote_upload unique_child_name first_free clashes record_change next_sequence
promote_upload-HasUniqueNames_example =
    promote_upload-HasUniqueNames host.lib (λ n. "7") 5
      (record (item_in quarantined) { cold_archived_at = some 3 }) "i1"
      (record { items = item ∷ []; changes = [] })
      {t' = record {
        items =
            record item {
              name = "7-photo";
              parent_id = some uploads_id;
              status = FileProviderItemStatus.ready;
              metadata_version = 1;
              modified_at = 5;
            }
            ∷ [];
        changes = record { sequence = 1; item_id = "i1"; operation = "UPSERT" } ∷ [];
      }}
      refl refl refl

abbrev usage : DiskUsage
usage = record { free = 100; total = 200 }

abbrev fresh : Fresh
fresh = record { upload_id = "u1"; item_id = "i1"; archive_id = 7 }

abbrev sealed_server : Server
unfolding seal_upload
sealed_server = (seal_upload site 0 (upload_in sealing) (server_in sealing)).1

abbrev sealed_item : ArchiveItem
sealed_item = record (item_in downloading) { plaintext_sha256 = some "hash"; state = local_staged }

abbrev staged_at : FilePath
staged_at = "staging" ∷ "7.partial" ∷ []

seal_upload_stages_example :
    (bytes : Content) × (sealed_server.files staged_at ≡ some (regular bytes))
    × (length bytes ≡ 2)
    × (hash_differs none (site.host.sha256 bytes) ≡ false)
    × (sealed_item ≡ record ((rows_in downloading).item) {
      plaintext_sha256 = some (site.host.sha256 bytes);
      state = local_staged;
    })
    × (check_staged site.host (sealed_server.files staged_at) (site.host.sha256 bytes) 2 ≡ ok tt)
    × (sealed_server.files source ≡ none)
    × (is_some (find (has_key (job_name (upload_in sealing))) sealed_server.jobs) ≡ true)
unfolding seal_upload seal_files seal_rows upload_path is_upload_id make_empty check_candidate
    put_staged discard_source upload_payload transition_item validate_transition allowed_transitions
    linear_next partial_path
seal_upload_stages_example =
    seal_upload_stages site 0 (upload_in sealing) (server_in sealing) source (rows_in downloading)
      refl refl {a = sealed_item} {s' = sealed_server} refl refl refl

seal_upload_again_example :
    seal_upload site 0
      (upload_in sealing)
      (record (server_in sealing) { files = sealed_server.files })
    ≡ (ok sealed_item, sealed_server)
unfolding seal_upload seal_files seal_rows upload_path is_upload_id make_empty check_candidate
    put_staged discard_source upload_payload transition_item validate_transition allowed_transitions
    linear_next partial_path
seal_upload_again_example =
    seal_upload_again site 0 (upload_in sealing) (server_in sealing) source (rows_in downloading)
      refl refl {a = sealed_item} {s' = sealed_server} refl refl refl refl

reconcile_settles_example :
    let (answer, s') = reconcile_sealing_uploads site 0 (server_in sealing) in
    (n : ℕ) × (answer ≡ ok n)
    × (n ≤ count is_sealing (server_in sealing).uploads)
    × (any is_sealing s'.uploads ≡ false)
reconcile_settles_example = reconcile_settles site 0 (server_in sealing) refl

abbrev codec : Codec
codec = record {
  dumps = λ generation sequence. 123 ∷ 125 ∷ [];
  loads = λ payload. some ("g", 3);
  b64encode = λ payload. b'e' ∷ b'3' ∷ b'0' ∷ b'=' ∷ [];
  b64decode = λ text. some (123 ∷ 125 ∷ []);
}

decode_cursor-encode_cursor_example : decode_cursor codec (encode_cursor codec "g" 3) ≡ ok ("g", 3)
unfolding rstrip
decode_cursor-encode_cursor_example =
    decode_cursor-encode_cursor codec "g" 3 (b'e' ∷ b'3' ∷ b'0' ∷ []) 1 refl refl refl refl
      (omega arith) refl
