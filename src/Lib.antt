-- ===== src/Lib.antt =====
-- Mnema archives photographs from a source (a directory, iCloud, uploads of a phone) to active
-- storage, a versioned local backup and cold storage, and may delete the original once every copy
-- is verified and a quarantine has passed. This library models the Python package src/mnema.
--
-- How the parts interact. The workflow (src/mnema/domain/workflow.py) discovers objects, judges them
-- by the eligibility policy, and moves one item along the states of src/mnema/domain/states.py. Each
-- move goes through transition_item, which checks the table and adds an audit event whose details
-- are redacted. The workflow commits a staged file with commit_staged and calls the source, the
-- backup and the cold storage through their protocols. The guarded deletion asks the gate of
-- src/mnema/policies/deletion.py first. Jobs wait in the durable queue of src/mnema/jobs/queue.py,
-- and a restart goes through the health checks and src/mnema/worker/recovery.py. Paired phones have
-- the credentials of src/mnema/file_provider/auth.py; their uploads grow body by body, are sealed into
-- the staging directory of the workflow, and become the jobs that archive them, while a log of changes
-- tells every phone what happened (src/mnema/file_provider/service.py and api.py). The cleanup of
-- src/mnema/domain/icloud_cleanup.py frees space in iCloud: it plans a manifest of archived assets, and
-- deletes them once it is approved, through the same gate.
--
-- Which file models what:
--   Prelude              numbers, Boolean tests, lists, times in microseconds
--   Runtime/Errors       the exceptions and the result of a call
--   Runtime/Files        paths and a file system: a function from paths to nodes
--   Runtime/Floats       the doubles of Python, as percentages use them
--   Runtime/Session      a database session over the rows of one item, beside the world: commit
--                        saves the rows, an exception leaves the saved ones
--                        (src/mnema/jobs/database.py)
--   Security/Redaction   src/mnema/security/redaction.py
--   Config/Settings, Config/Options, Config/Validation    src/mnema/config/settings.py
--   Policies/Deletion    src/mnema/policies/deletion.py: evaluate_deletion_gate
--   Policies/Eligibility src/mnema/policies/eligibility.py: evaluate_policy
--   Domain/States        src/mnema/domain/states.py: the table and validate_transition
--   Domain/Storage       src/mnema/domain/storage.py: safe_relative_path, resolve_beneath
--   Domain/Source, Domain/Protocols       the records and calls of the adapters' protocols
--   Domain/Workflow      src/mnema/domain/workflow.py: archive, one definition a step
--   Domain/Removal       the same file: deletion_decision and delete_test_item
--   Domain/Discovery     the same file: discover and _new_item
--   Domain/ICloudCleanup src/mnema/domain/icloud_cleanup.py, with the records of
--                        src/mnema/adapters/sources/icloud_control.py: Selection and Planning hold
--                        refresh_inventory and create_manifest, Execution holds execute
--   Adapters/FileOps     src/mnema/adapters/nas/fileops.py: commit_staged
--   Jobs/Models          src/mnema/jobs/models.py: the tables, by the columns that are read
--   Jobs/StateService    src/mnema/jobs/state_service.py: transition_item
--   Jobs/Queue           src/mnema/jobs/queue.py: DurableQueue
--   Worker/Recovery      src/mnema/worker/recovery.py
--   FileProvider/Auth    src/mnema/file_provider/auth.py
--   FileProvider/Items   src/mnema/file_provider/service.py: record_change, unique_child_name,
--                        promote_upload, mark_upload_failed, bootstrap_roots, the cursors,
--                        project_verified_archives; and the handler changes of
--                        src/mnema/file_provider/api.py
--   FileProvider/Uploads create_upload of service.py and append_upload of api.py
--   FileProvider/Sealing seal_upload of service.py
--   FileProvider/Completion  complete_upload of api.py, reconcile_sealing_uploads and
--                        reap_expired_uploads of service.py
--   Worker/Start         the checks of Worker.run in src/mnema/worker/main.py
--   Worker/Main          src/mnema/worker/main.py: Worker._process_file_provider_job and
--                        Worker._pause_deletion
--   Diagnostics/Health   src/mnema/diagnostics/health.py
--   Examples             every theorem with premises at concrete values
-- The children of a module hold what is proved of it.
--
-- Bounds and choices. Every loop of the code is over a list that is given, such as the pages that a
-- source answers with or the chunks of a body, so it needs no fuel. A phone that follows the cursors of
-- the log runs on fuel, and one page more than there are changes is enough. Integers of the database are
-- natural numbers, as the code keeps them nonnegative; the Telegram ids of the settings are signed. A
-- percentage is given in ten-thousandths of a percent, and computed with as Python does, on doubles
-- (Runtime/Floats). An instant is a number of microseconds, and a
-- naive one is UTC.
--
-- What is outside: pathlib, fnmatch, re, urlsplit, base64, JSON, SHA-256, PyJWT, the operating system's
-- answers and the adapters are parameters. Not modelled: downloads by range and authentication of
-- the File Provider's HTTP interface, the worker's loop
-- (its heartbeat and other workers are a function on the table of jobs), restores, the adapters to other services, and
-- the command line, web pages, bot and host administration, which are input and output around these
-- operations.
pub mod Prelude
pub mod Security
pub mod Runtime
pub mod Config
pub mod Policies
pub mod Domain
pub mod Adapters
pub mod Worker
pub mod Jobs
pub mod FileProvider
pub mod Diagnostics
pub mod Examples
