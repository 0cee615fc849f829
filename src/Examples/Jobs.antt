-- ===== src/Examples/Jobs.antt =====
-- Two jobs of one adapter, of which the one that was due first is leased, lost and retried, and an upload's
-- job that the worker runs.
use mnema.Prelude.{
  ◌≡◌, refl, ◌≤◌, true, none, some, List, [], ◌∷◌, find, count, all, map, seconds, arith,
}
use mnema.Security.Redaction.{null}
use mnema.Jobs.Models.Work.{Job, manual_review}
use mnema.Jobs.Queue.{
  new_job, enqueue, holds_lease, is_candidate, precedes, earliest, claimed_row, is_claimable, claim,
  lease, owns, recover_expired,
}
use mnema.Jobs.Queue.Limits.{serves, lease_within_limits, claim_exclusive}
use mnema.Jobs.Queue.Lifecycle.{is_sound, here, next, enqueued, leased, queue-IsSound}
use mnema.Jobs.Queue.Retries.{fail_rounds, retries_exhausted, is_lost, rescued, recover_expired_lem}
use mnema.Runtime.Errors.{ok}
use mnema.Security.Redaction.{Value, mapping, field, num, str, end}
use mnema.Domain.States.{local_staged}
use mnema.Worker.Main.{Shop, Runner, is_job, process_file_provider_job}
use mnema.Worker.Main.Released.{IsSettled}
use mnema.Worker.Main.Leased.{process_file_provider_job_releases}
use mnema.Examples.Data.{re, lib, wf, world, rows_in, item_in}

abbrev job : Job
unfolding new_job
job = new_job 1 0 "archive" "local" null "k1" 3

abbrev second : Job
unfolding new_job
second = new_job 2 5 "archive" "local" null "k2" 3

abbrev jobs : List Job
jobs = job ∷ second ∷ []

abbrev claimed : Job
unfolding claimed_row
claimed = claimed_row 10 "w1" 60 job

abbrev leased_jobs : List Job
leased_jobs = claimed ∷ second ∷ []

lease_within_limits_example :
    (count (holds_lease 10) leased_jobs ≤ 1) × (count (serves 10 "local") leased_jobs ≤ 1)
unfolding lease holds_lease is_candidate earliest precedes claim is_claimable claimed_row new_job
lease_within_limits_example =
    lease_within_limits 10 "w1" "local" 60 1 1 jobs {j = claimed} {jobs' = leased_jobs} refl

claim_exclusive_example : claim 11 "w2" 30 1 leased_jobs ≡ (none, leased_jobs)
unfolding claim is_claimable claimed_row new_job
claim_exclusive_example =
    claim_exclusive 10 11 "w1" "w2" 60 30 1 jobs {j = claimed} {jobs' = leased_jobs} refl

abbrev reached : List Job
unfolding enqueue lease
reached = (lease 10 "w1" "local" 60 1 1 (enqueue 1 0 [] "archive" "local" null "k1" 3).1).1

queue-IsSound_example : all is_sound reached ≡ true
unfolding lease reached
queue-IsSound_example = queue-IsSound {jobs = reached} (
    next (next here (enqueued 1 0 [] "archive" "local" null "k1" 3))
      (leased 10 "w1" "local" 60 1 1 (enqueue 1 0 [] "archive" "local" null "k1" 3).1))

retries_exhausted_example :
    let j' = fail_rounds re 20 60 5 "w1" "timeout" 3 job in
    (j'.attempts ≡ 3) × (j'.status ≡ manual_review)
unfolding new_job
retries_exhausted_example = retries_exhausted re 20 60 5 2 "w1" "timeout" job (omega arith)

recover_expired_example :
    let (n, jobs') = recover_expired (seconds 71) leased_jobs in
    (n ≡ count (is_lost (seconds 71)) leased_jobs)
    × (jobs' ≡ map (rescued (seconds 71)) leased_jobs)
    × (count (is_lost (seconds 71)) jobs' ≡ 0)
    × (count (holds_lease (seconds 71)) jobs' ≡ count (holds_lease (seconds 71)) leased_jobs)
recover_expired_example = recover_expired_lem (seconds 71) leased_jobs

abbrev runner : Runner (Unit {0})
runner = record {
  wf = wf;
  publisher = record { lib = lib; str_of = λ n. "7"; uuid5 = λ text. text };
  worker_id = "w1";
  per_adapter_concurrency = 1;
  worker_concurrency = 1;
  error_text = λ e. "error";
  text_of = λ v. "i1";
  int_of = λ text. none;
  others = λ jobs. jobs;
}

abbrev upload_payload : Value
upload_payload =
    mapping (field "archive_item_id" (num 7) (field "file_provider_item_id" (str "i1") end))

abbrev upload_job : Job
unfolding new_job
upload_job = new_job 4 0 "archive" "file_provider" upload_payload "k4" 3

abbrev shop : Shop (Unit {0})
shop = record {
  world = world;
  archives = record (rows_in local_staged) { item = record (item_in local_staged) { id = 7 } } ∷ [];
  tables = record { items = []; changes = [] };
  jobs = second ∷ upload_job ∷ [];
}

abbrev upload_claimed : Job
unfolding claimed_row
upload_claimed = claimed_row world.clock "w1" 120 upload_job

process_file_provider_job_releases_example :
    (find (is_job runner 4) (second ∷ upload_claimed ∷ []) ≡ some upload_claimed)
    × (owns upload_claimed "w1" ≡ true)
    × ((process_file_provider_job runner shop).0 ≡ ok true)
    × (m : Job) × (find (is_job runner 4) (process_file_provider_job runner shop).1.jobs ≡ some m)
    × IsSettled "w1" upload_claimed m
unfolding lease holds_lease is_candidate earliest precedes claim is_claimable claimed_row new_job
process_file_provider_job_releases_example =
    process_file_provider_job_releases runner shop {j = upload_claimed} {k = upload_claimed}
      {jobs' = second ∷ upload_claimed ∷ []} {item_id = 7} refl refl refl refl
