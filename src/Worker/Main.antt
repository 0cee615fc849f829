-- ===== src/Worker/Main.antt =====
-- One job of the worker (src/mnema/worker/main.py: _process_file_provider_job and _pause_deletion). The
-- heartbeat that runs beside a job, which prolongs its lease, and the other workers are a function on the
-- table of jobs.
pub mod Released
pub mod Leased
use Prim.Native.String.{◌++◌ as str_append}
use mnema.Prelude.{
  ℕ, Bool, true, false, Option, none, some, List, [], ◌∷◌, map, find, leb, ◌==◌, if◌then◌else◌,
  String, str_eq, DateTime,
}
use mnema.Security.Redaction.{Value, Fields, null, flag, num, str, mapping, sequence, field, end}
use mnema.Runtime.Errors.{Error, value_error, runtime_error, Result, ok, err}
use mnema.Runtime.Session.{World, Session}
use mnema.Domain.Protocols.{Workflow}
use mnema.Domain.Workflow.{archive}
use mnema.Domain.ICloudCleanup.{Rows, set_runtime}
use mnema.Jobs.Models.Work.{Job}
use mnema.Jobs.StateService.{Ledger}
use mnema.Jobs.Queue.{lease, succeed, fail}
use mnema.FileProvider.Auth.{update_first}
use mnema.FileProvider.Items.{Tables, promote_upload, mark_upload_failed}
use mnema.FileProvider.Items.Projection.{Publisher, project_verified_archives}

-- The rows and the world that a job works on.
pub record Shop (Ext : Type 0) : Type 0 where
  pub world : World Ext
  pub archives : List Ledger
  pub tables : Tables
  pub jobs : List Job

-- What the worker reads, with Python's `str` of an exception and of a payload's value, `int` of a text,
-- and what the heartbeat and the other workers do to the table of jobs while the job runs.
pub record Runner (Ext : Type 0) : Type 0 where
  pub wf : Workflow Ext
  pub publisher : Publisher
  pub worker_id : String
  pub per_adapter_concurrency : ℕ
  pub worker_concurrency : ℕ
  pub error_text : Error → String
  pub text_of : Value → String
  pub int_of : String → Option ℕ
  pub others : List Job → List Job

-- `payload.get(key)`
abbrev pub get_in : String → Fields → Option Value
get_in key end = none
get_in key (field k v fields) = if str_eq k key then some v else get_in key fields

abbrev pub get_field : String → Value → Option Value
get_field key (mapping fields) = get_in key fields
get_field key _ = none

module _ {Ext : Type 0} (r : Runner Ext) where
  -- `int(job.payload.get("archive_item_id", 0))`: `none` is its exception.
  abbrev pub number_of : Option Value → Option ℕ
  number_of none = some 0
  number_of (some (num n)) = some n
  number_of (some (flag b)) = some (if b then 1 else 0)
  number_of (some (str text)) = r.int_of text
  number_of (some _) = none

  abbrev pub words_of : Option Value → String
  words_of none = ""
  words_of (some v) = r.text_of v

  abbrev pub is_item : ℕ → Ledger → Bool
  is_item id l = l.item.id == id

  abbrev pub is_job : ℕ → Job → Bool
  is_job id j = j.id == id

  -- The end of the session that archives: the item is promoted and published, and the job has succeeded.
  unfoldable pub publish : ℕ → String → Ledger → Shop Ext → Result (Shop Ext)
  publish job_id provider_item_id l shop =
      let now = shop.world.clock in
      elim (promote_upload r.publisher.lib r.publisher.str_of now l.item provider_item_id
        shop.tables) [
          | err e ↦ err e
          | ok tables ↦
              elim (project_verified_archives r.publisher now (map (λ k. k.item) shop.archives)
                tables) [
                  | err e ↦ err e
                  | ok (n, tables') ↦ elim (find (is_job job_id) shop.jobs) [
                    | none ↦ err (runtime_error "queued File Provider job is missing")
                    | some j ↦ ok (record shop {
                      tables = tables';
                      jobs =
                          update_first (is_job job_id) (λ _. (succeed j r.worker_id).0) shop.jobs;
                    })
                  ]
                ]
        ]

  abbrev with_ledger : ℕ → Ledger → World Ext → Shop Ext → Shop Ext
  with_ledger item_id l w shop = record shop {
    world = w;
    archives = update_first (is_item item_id) (λ _. l) shop.archives;
  }

  -- The session of the job. Where it raises, the rows are those that `archive` committed.
  unfoldable pub run_item : ℕ → ℕ → String → Shop Ext → Result (Unit {0}) × Shop Ext
  unfolding publish
  run_item job_id item_id provider_item_id shop = elim (find (is_item item_id) shop.archives) [
    | none ↦ (err (runtime_error "queued File Provider archive item is missing"), shop)
    | some l ↦
        let (answer, t) = archive r.wf (record { world = shop.world; ledger = l; saved = l }) in
        let kept = with_ledger item_id t.saved t.world shop in
        elim answer [
          | err e ↦ (err e, kept)
          | ok done ↦
              elim (publish job_id provider_item_id t.ledger
                (with_ledger item_id t.ledger t.world shop)) [
                  | err e ↦ (err e, kept)
                  | ok shop' ↦ (ok tt, shop')
                ]
        ]
  ]

  -- The handler of an exception. `fail`'s backoff has the default of 5 seconds.
  unfoldable pub record_failure : ℕ → String → Error → Shop Ext → Shop Ext
  record_failure job_id provider_item_id e shop = elim (find (is_job job_id) shop.jobs) [
    | none ↦ shop
    | some j ↦
        let now = shop.world.clock in
        let (j', failed) = fail r.wf.re now 5 j r.worker_id (r.error_text e) in
        let jobs = update_first (is_job job_id) (λ _. j') shop.jobs in
        if leb j'.max_attempts j'.attempts
        then record shop {
          jobs = jobs;
          tables =
              mark_upload_failed now provider_item_id
                (str_append "archive_failed:job-" (r.publisher.str_of job_id)) shop.tables;
        }
        else record shop { jobs = jobs }
  ]

  unfoldable pub process : ℕ → ℕ → String → Shop Ext → Shop Ext
  unfolding run_item record_failure
  process job_id item_id provider_item_id shop =
      let busy = record shop { jobs = r.others shop.jobs } in
      let (answer, shop') = run_item job_id item_id provider_item_id busy in
      elim answer [ ok done ↦ shop' | err e ↦ record_failure job_id provider_item_id e shop' ]

  -- `_process_file_provider_job`
  unfoldable pub process_file_provider_job : Shop Ext → Result Bool × Shop Ext
  unfolding process
  process_file_provider_job shop =
      let (leased, jobs) =
        lease shop.world.clock r.worker_id "file_provider" 120 r.per_adapter_concurrency
          r.worker_concurrency shop.jobs in
      let shop' = record shop { jobs = jobs } in
      elim leased [
        | none ↦ (ok false, shop')
        | some j ↦ elim (number_of (get_field "archive_item_id" j.payload)) [
          | none ↦ (err (value_error "invalid literal for int()"), shop')
          | some item_id ↦ (
            ok true,
            process j.id item_id (words_of (get_field "file_provider_item_id" j.payload)) shop',
          )
        ]
      ]

-- `_pause_deletion`
unfoldable pub pause_deletion : Rows → Rows
pause_deletion rows =
    set_runtime "safety_lock" "true" (set_runtime "global_deletion_enabled" "false" rows)
