-- ===== src/FileProvider/Uploads/Created.antt =====
-- What `create_upload` (service.py) admits, and what it writes.
use mnema.Prelude.{ℕ, [], ◌∷◌, ◌++◌, String, DateTime}
use mnema.Domain.States.{ArchiveState, eligible, queued, downloading}
use mnema.Domain.Discovery.{new_item}
use mnema.Jobs.StateService.{Ledger, transition_event}
use mnema.Domain.Workflow.{no_details}
use mnema.FileProvider.Uploads.{Site, Fresh, upload_source}

new_archive : Site → Fresh → DateTime → String → ℕ → Ledger
new_archive site fresh now name size = record {
  item = new_item fresh.archive_id "file_provider_upload" (upload_source fresh now name size);
  events = [];
}

moved_to : Site → ArchiveState → Ledger → Ledger
moved_to site target l = record {
  item = record (l.item) { state = target };
  events = l.events ++ transition_event site.re l.item target "file-provider" no_details ∷ [];
}

advanced : Site → Ledger → Ledger
advanced site l = moved_to site downloading (moved_to site queued (moved_to site eligible l))
