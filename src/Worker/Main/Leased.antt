-- ===== src/Worker/Main/Leased.antt =====
-- The job that the worker leases, from the lease to the end of its round (src/mnema/worker/main.py).
use mnema.Prelude.{
  ℕ, ◌≡◌, ap, ◌∙◌, true, some, find, ◌==◌, String, List, find-passes, str_eq_iff, arith,
}
use mnema.Runtime.Errors.{ok}
use mnema.Jobs.Models.Work.{Job}
use mnema.Jobs.Queue.Table.{has_unique_ids}
use mnema.Jobs.Queue.Limits.{lease_in_order, lease-inv, claim-inv}
use mnema.Jobs.Queue.{lease, owns, claimed_row}
use mnema.Worker.Main.{
  Shop, Runner, is_job, process_file_provider_job, get_field, number_of, words_of,
}
use mnema.Worker.Main.Released.{IsSettled, process-IsSettled}

module _ {Ext : Type 0} (r : Runner Ext) where
  claimed_row-owned :
      (now : ℕ) (w : String) (s : ℕ) (j : Job) → owns (claimed_row now w s j) w ≡ true
  unfolding owns claimed_row
  claimed_row-owned now w s j = ground (arith, str_eq_iff w w)

  leased-held :
      (now : ℕ) (w adapter : String) (s adapter_limit global_limit : ℕ) (jobs : List Job) {j : Job}
      {jobs' : List Job}
      → has_unique_ids jobs ≡ true
      → lease now w adapter s adapter_limit global_limit jobs ≡ (some j, jobs')
      → (find (is_job r j.id) jobs' ≡ some j) × (owns j w ≡ true)
  leased-held now w adapter s adapter_limit global_limit jobs {j} {jobs'} unique h =
      let (c, first, claimed, _, _) =
        lease-inv now w adapter s adapter_limit global_limit jobs {j = j} {jobs' = jobs'} h in
      let (one, same, row) = claim-inv now w s c.id jobs {j = j} {jobs' = jobs'} claimed in
      let (d, held, _, _, _) =
        lease_in_order now w adapter s adapter_limit global_limit jobs {j = j} {jobs' = jobs'}
          unique h in
      let same_id : j.id ≡ c.id =
        ground (arith, find-passes (λ k. k.id == c.id) jobs' {x = j} row) in
      (ap (λ n. find (λ k. k.id == n) jobs') same_id ∙ row, cc (held, claimed_row-owned now w s d))

  -- In a table with unique ids, let the worker lease a job from whose payload the item id is a number, and let
  -- that job be `k` in the table once the others are done with it. When
  -- `process_file_provider_job` returns, whatever the steps of the archive and of its publication
  -- answered, it says that there was a job, and the job is still in the table: if the worker still
  -- owned it, it is not running and has no owner; if its lease was lost meanwhile, its status,
  -- its owner and its lease are those of `k`.
  pub process_file_provider_job_releases :
      (shop : Shop Ext) {j k : Job} {jobs' : List Job} {item_id : ℕ}
      → has_unique_ids shop.jobs ≡ true
      → lease shop.world.clock r.worker_id "file_provider" 120 r.per_adapter_concurrency
          r.worker_concurrency shop.jobs
        ≡ (some j, jobs')
      → number_of r (get_field "archive_item_id" j.payload) ≡ some item_id
      → find (is_job r j.id) (r.others jobs') ≡ some k
      → (find (is_job r j.id) jobs' ≡ some j)
        × (owns j r.worker_id ≡ true)
        × ((process_file_provider_job r shop).0 ≡ ok true)
        × (m : Job) × (find (is_job r j.id) (process_file_provider_job r shop).1.jobs ≡ some m)
        × IsSettled r.worker_id k m
  unfolding process_file_provider_job
  process_file_provider_job_releases shop {j} {k} {jobs'} {item_id} unique leased number there =
      let start : Shop Ext = record shop { jobs = jobs' } in
      let (held, owned) =
        leased-held shop.world.clock r.worker_id "file_provider" 120 r.per_adapter_concurrency
          r.worker_concurrency shop.jobs {j = j} {jobs' = jobs'} unique leased in
      let (m, row, settled) =
        process-IsSettled r j.id item_id (words_of r (get_field "file_provider_item_id" j.payload))
          start {k = k} there in
      (held, owned, ground (arith, leased, number), m, ground (arith, leased, number, row), settled)
