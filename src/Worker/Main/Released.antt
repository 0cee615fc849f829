-- ===== src/Worker/Main/Released.antt =====
-- What becomes of the job that the worker leased (src/mnema/worker/main.py).
use mnema.Prelude.{
  ℕ, ◌≡◌, ◌⊎◌, Bool-cases, false, Bool, true, not, Option, none, some, find, String, List, map,
  ◌&&◌, inl, inr, find-passes, arith, Option-cases,
}
use mnema.Runtime.Errors.{Error, ok, err, Result-cases}
use mnema.Jobs.Models.Work.{Job, running, status_eq}
use mnema.Security.Redaction.{Patterns}
use mnema.Jobs.StateService.{Ledger}
use mnema.Jobs.Queue.{owns, succeed, fail}
use mnema.FileProvider.Auth.{update_first}
use mnema.FileProvider.Auth.Lookup.{find-update_first}
use mnema.FileProvider.Items.{promote_upload}
use mnema.FileProvider.Items.Projection.{project_verified_archives}
use mnema.Runtime.Session.{Session}
use mnema.Worker.Main.{
  Shop, Runner, is_item, is_job, publish, with_ledger, run_item, record_failure, process,
}
use mnema.Domain.Workflow.{archive}

abbrev pub is_free : Option String → Bool
is_free none = true
is_free (some w) = false

-- The job is in the table, no longer running, and nobody's.
abbrev pub is_released : Option Job → Bool
is_released none = false
is_released (some j) = is_free j.lease_owner && not (status_eq j.status running)

-- How a worker leaves a job that it had leased and that was `k` when it was done: its own is released,
-- and one whose lease it has lost keeps its status and its lease.
abbrev pub IsSettled : String → Job → Job → Type 0
IsSettled w k m =
    ((owns k w ≡ true) × (is_released (some m) ≡ true))
    ⊎ ((owns k w ≡ false)
        × (m.status ≡ k.status)
        × (m.lease_owner ≡ k.lease_owner)
        × (m.lease_expires_at ≡ k.lease_expires_at))

succeed-IsSettled : (j : Job) (w : String) → IsSettled w j (succeed j w).0
unfolding succeed
succeed-IsSettled j w = elim (Bool-cases (owns j w)) [
  | inl mine ↦ inl (mine, ground arith)
  | inr lost ↦ inr (lost, ground arith, ground arith, ground arith)
]

succeed-id : (j : Job) (w : String) → (succeed j w).0.id ≡ j.id
unfolding succeed
succeed-id j w = ground arith

fail-IsSettled :
    (re : Patterns) (now : ℕ) (j : Job) (w error : String)
    → IsSettled w j (fail re now 5 j w error).0
unfolding fail owns
fail-IsSettled re now j w error = elim (Bool-cases (owns j w)) [
  | inl mine ↦ inl (mine, ground arith)
  | inr lost ↦ inr (lost, ground arith, ground arith, ground arith)
]

fail-id :
    (re : Patterns) (now : ℕ) (j : Job) (w error : String) → (fail re now 5 j w error).0.id ≡ j.id
unfolding fail
fail-id re now j w error = ground arith

module _ {Ext : Type 0} (r : Runner Ext) where
  -- The row of a job after it is changed.
  changed_row :
      (id : ℕ) (j : Job) (jobs : List Job) {k : Job}
      → find (is_job r id) jobs ≡ some k
      → j.id ≡ k.id
      → find (is_job r id) (update_first (is_job r id) (λ _. j) jobs) ≡ some j
  changed_row id j jobs {k} found same =
      find-update_first (is_job r id) (λ _. j) jobs {x = k}
        (ground (arith, same, find-passes (is_job r id) jobs {x = k} found)) found

  publish-row :
      (id : ℕ) (item : String) (l : Ledger) (shop : Shop Ext) {j : Job} {shop' : Shop Ext}
      → find (is_job r id) shop.jobs ≡ some j
      → publish r id item l shop ≡ ok shop'
      → find (is_job r id) shop'.jobs ≡ some (succeed j r.worker_id).0
  unfolding publish
  publish-row id item l shop {j} {shop'} found h =
      elim (Result-cases (
        promote_upload r.publisher.lib r.publisher.str_of shop.world.clock l.item item
          shop.tables)) [
            | inl (e, bad) ↦ absurd (ground arith)
            | inr (tables, promoted) ↦
                elim (Result-cases (
                  project_verified_archives r.publisher shop.world.clock
                    (map (λ k. k.item) shop.archives) tables)) [
                      | inl (e, bad) ↦ absurd (ground arith)
                      | inr (projected, shown) ↦
                          let row =
                            changed_row id (succeed j r.worker_id).0 shop.jobs {k = j} found
                              (succeed-id j r.worker_id) in
                          ground (arith, promoted, shown, row)
                    ]
          ]

  record_failure-row :
      (id : ℕ) (item : String) (e : Error) (shop : Shop Ext) {j : Job}
      → find (is_job r id) shop.jobs ≡ some j
      → find (is_job r id) (record_failure r id item e shop).jobs
        ≡ some (fail r.wf.re shop.world.clock 5 j r.worker_id (r.error_text e)).0
  unfolding record_failure
  record_failure-row id item e shop {j} found =
      let failed = (fail r.wf.re shop.world.clock 5 j r.worker_id (r.error_text e)).0 in
      let same = fail-id r.wf.re shop.world.clock j r.worker_id (r.error_text e) in
      let row = changed_row id failed shop.jobs {k = j} found same in ground (arith, row)

  run_item-row :
      (job_id item_id : ℕ) (item : String) (shop : Shop Ext) {j : Job} {shop' : Shop Ext}
      → find (is_job r job_id) shop.jobs ≡ some j
      → run_item r job_id item_id item shop ≡ (ok tt, shop')
      → find (is_job r job_id) shop'.jobs ≡ some (succeed j r.worker_id).0
  unfolding run_item
  run_item-row job_id item_id item shop {j} {shop'} found h =
      elim (Option-cases (find (is_item r item_id) shop.archives)) [
        | inl missing ↦ absurd (ground arith)
        | inr (l, there) ↦
            let start : Session Ext = record { world = shop.world; ledger = l; saved = l } in
            elim (Result-cases (archive r.wf start).0) [
              | inl (e, bad) ↦ absurd (ground (arith, there, bad))
              | inr (done, good) ↦
                  let t = (archive r.wf start).1 in
                  let after = with_ledger r item_id t.ledger t.world shop in
                  elim (Result-cases (publish r job_id item t.ledger after)) [
                    | inl (e, bad) ↦ absurd (ground (arith, there, good, bad))
                    | inr (shop'', published) ↦
                        let result =
                          publish-row job_id item t.ledger after {j = j} {shop' = shop''} found
                            published in
                        ground (arith, there, good, published, result)
                  ]
            ]
      ]

  run_item-keeps :
      (job_id item_id : ℕ) (item : String) (shop : Shop Ext) {e : Error} {shop' : Shop Ext}
      → run_item r job_id item_id item shop ≡ (err e, shop')
      → shop'.jobs ≡ shop.jobs
  unfolding run_item
  run_item-keeps job_id item_id item shop {e} {shop'} h =
      elim (Option-cases (find (is_item r item_id) shop.archives)) [
        | inl missing ↦ ground (arith, missing)
        | inr (l, there) ↦
            let start : Session Ext = record { world = shop.world; ledger = l; saved = l } in
            elim (Result-cases (archive r.wf start).0) [
              | inl (e', bad) ↦ ground (arith, there, bad)
              | inr (done, good) ↦
                  let t = (archive r.wf start).1 in
                  let after = with_ledger r item_id t.ledger t.world shop in
                  elim (Result-cases (publish r job_id item t.ledger after)) [
                    | inl (e', bad) ↦ ground (arith, there, good, bad)
                    | inr (shop'', published) ↦ absurd (ground (arith, there, good, published))
                  ]
            ]
      ]

  pub process-IsSettled :
      (job_id item_id : ℕ) (item : String) (shop : Shop Ext) {k : Job}
      → find (is_job r job_id) (r.others shop.jobs) ≡ some k
      → (m : Job) × (find (is_job r job_id) (process r job_id item_id item shop).jobs ≡ some m)
        × IsSettled r.worker_id k m
  unfolding process
  process-IsSettled job_id item_id item shop {k} found =
      let busy : Shop Ext = record shop { jobs = r.others shop.jobs } in
      let after = (run_item r job_id item_id item busy).1 in
      elim (Result-cases (run_item r job_id item_id item busy).0) [
        | inl (e, bad) ↦
            let kept =
              run_item-keeps job_id item_id item busy {e = e} {shop' = after}
                (ground (arith, bad)) in
            let row = record_failure-row job_id item e after {j = k} (cc (kept, found)) in
            (
              (fail r.wf.re after.world.clock 5 k r.worker_id (r.error_text e)).0,
              ground (arith, bad, row),
              fail-IsSettled r.wf.re after.world.clock k r.worker_id (r.error_text e),
            )
        | inr (done, good) ↦
            let row =
              run_item-row job_id item_id item busy {j = k} {shop' = after} found
                (ground (arith, good)) in
            ((succeed k r.worker_id).0, ground (arith, good, row), succeed-IsSettled k r.worker_id)
      ]
