-- ===== src/Jobs/Queue/Limits.antt =====
-- What `lease` of queue.py promises: the order of the queue, its two limits, and one winner where
-- two workers race for a job.
use mnema.Prelude.{
  ℕ, ◌+◌, ◌≤◌, ◌<◌, ◌≡◌, refl, Bool, true, false, ◌&&◌, none, some, List, [], ◌∷◌, find, keep_if,
  count, length, length-keep_if, ◌==◌, Option-cases, inl, inr, String, str_eq, DateTime, arith,
}
use mnema.Jobs.Models.Work.{Job}
use mnema.Jobs.Queue.{
  holds_lease, is_candidate, earliest, claimed_row, is_claimable, update_where, claim, lease,
}
use mnema.Jobs.Queue.Table.{
  has_unique_ids, earliest-passes, earliest-precedes, precedes_all, find-earliest,
  find-update_where, update_where_none, count-update_where,
}

abbrev pub serves : DateTime → String → Job → Bool
serves now adapter j = holds_lease now j && str_eq j.adapter adapter

count-keep_if :
    (p q : Job → Bool) (jobs : List Job) → count q (keep_if p jobs) ≡ count (λ j. p j && q j) jobs
count-keep_if p q [] = refl
count-keep_if p q (j ∷ jobs) = ground (arith, count-keep_if p q jobs)

-- A claim adds at most one running job for each row that it changes, for any test that the
-- claimed row's waiting predecessor does not pass.
count-claim :
    (q : Job → Bool) (now : DateTime) (w : String) (s id : ℕ) (jobs : List Job)
    → count q (update_where (is_claimable id) (claimed_row now w s) jobs)
      ≤ count q jobs + count (is_claimable id) jobs
count-claim q now w s id [] = omega arith
count-claim q now w s id (j ∷ jobs) = ground (arith, count-claim q now w s id jobs)

-- What a claim that hands out a job has done.
pub claim-inv :
    (now : DateTime) (w : String) (s id : ℕ) (jobs : List Job) {j : Job} {jobs' : List Job}
    → claim now w s id jobs ≡ (some j, jobs')
    → (count (is_claimable id) jobs ≡ 1)
      × (jobs' ≡ update_where (is_claimable id) (claimed_row now w s) jobs)
      × (find (λ k. k.id == id) jobs' ≡ some j)
unfolding claim
claim-inv now w s id jobs {j} {jobs'} h = ground arith

-- What a lease that hands out a job has tested.
pub lease-inv :
    (now : DateTime) (w adapter : String) (s adapter_limit global_limit : ℕ) (jobs : List Job)
    {j : Job} {jobs' : List Job}
    → lease now w adapter s adapter_limit global_limit jobs ≡ (some j, jobs')
    → (c : Job) × (earliest (is_candidate now adapter) jobs ≡ some c)
      × (claim now w s c.id jobs ≡ (some j, jobs'))
      × (length (keep_if (holds_lease now) jobs) < global_limit)
      × (count (λ k. str_eq k.adapter adapter) (keep_if (holds_lease now) jobs) < adapter_limit)
unfolding lease
lease-inv now w adapter s adapter_limit global_limit jobs {j} {jobs'} h =
    elim (Option-cases (earliest (is_candidate now adapter) jobs)) [
      | inl nothing ↦ ground arith
      | inr (c, found) ↦ (c, found, ground arith, ground arith, ground arith)
    ]

-- While a lease is handed out, the limits hold: after it at most `global_limit` jobs hold an
-- unexpired lease, and at most `adapter_limit` of this adapter.
pub lease_within_limits :
    (now : DateTime) (w adapter : String) (s adapter_limit global_limit : ℕ) (jobs : List Job)
    {j : Job} {jobs' : List Job}
    → lease now w adapter s adapter_limit global_limit jobs ≡ (some j, jobs')
    → (count (holds_lease now) jobs' ≤ global_limit)
      × (count (serves now adapter) jobs' ≤ adapter_limit)
lease_within_limits now w adapter s adapter_limit global_limit jobs {j} {jobs'} h =
    let (c, found, claimed, room, adapter_room) =
      lease-inv now w adapter s adapter_limit global_limit jobs h in
    let (one, same, row) = claim-inv now w s c.id jobs claimed in
    rw same (
      omega (
        arith,
        length-keep_if (holds_lease now) jobs,
        count-claim (holds_lease now) now w s c.id jobs,
      ),
      omega (
        arith,
        count-keep_if (holds_lease now) (λ k. str_eq k.adapter adapter) jobs,
        count-claim (serves now adapter) now w s c.id jobs,
      ),
    )

claimed_row-id : (now : DateTime) (w : String) (s : ℕ) (j : Job) → (claimed_row now w s j).id ≡ j.id
unfolding claimed_row
claimed_row-id now w s j = refl

candidate-claimable :
    (now : DateTime) (adapter : String) (c : Job)
    → is_candidate now adapter c ≡ true
    → is_claimable c.id c ≡ true
unfolding is_candidate is_claimable
candidate-claimable now adapter c h = ground arith

pub lease_in_order :
    (now : DateTime) (w adapter : String) (s adapter_limit global_limit : ℕ) (jobs : List Job)
    {j : Job} {jobs' : List Job}
    → has_unique_ids jobs ≡ true
    → lease now w adapter s adapter_limit global_limit jobs ≡ (some j, jobs')
    → (c : Job) × (j ≡ claimed_row now w s c)
      × (find (λ k. k.id == c.id) jobs ≡ some c)
      × (is_candidate now adapter c ≡ true)
      × (precedes_all (is_candidate now adapter) c jobs ≡ true)
lease_in_order now w adapter s adapter_limit global_limit jobs {j} {jobs'} unique h =
    let (c, first, claimed, _, _) = lease-inv now w adapter s adapter_limit global_limit jobs h in
    let (one, same, row) = claim-inv now w s c.id jobs claimed in
    let found = find-earliest (is_candidate now adapter) jobs unique first in
    let passes = earliest-passes (is_candidate now adapter) jobs first in
    let updated =
      find-update_where c.id (is_claimable c.id) (claimed_row now w s) jobs (claimed_row-id now w s)
        found in
    (
      c,
      cc (row, same, updated, candidate-claimable now adapter c passes),
      found,
      passes,
      earliest-precedes (is_candidate now adapter) jobs first,
    )

claimed_row-claimable :
    (now : DateTime) (w : String) (s id : ℕ) (j : Job)
    → is_claimable id (claimed_row now w s j) ≡ false
unfolding is_claimable claimed_row
claimed_row-claimable now w s id j = ground arith

claim_empty :
    (now : DateTime) (w : String) (s id : ℕ) (jobs : List Job)
    → count (is_claimable id) jobs ≡ 0
    → claim now w s id jobs ≡ (none, jobs)
unfolding claim
claim_empty now w s id jobs h =
    ground (arith, update_where_none (is_claimable id) (claimed_row now w s) jobs h)

-- Two workers whose queries chose the same candidate: once the first has claimed it, the second gets
-- nothing and changes nothing, whatever its clock, name and lease.
pub claim_exclusive :
    (now now' : DateTime) (w w' : String) (s s' id : ℕ) (jobs : List Job) {j : Job}
    {jobs' : List Job}
    → claim now w s id jobs ≡ (some j, jobs')
    → claim now' w' s' id jobs' ≡ (none, jobs')
claim_exclusive now now' w w' s s' id jobs {j} {jobs'} h =
    let (one, same, row) = claim-inv now w s id jobs h in
    claim_empty now' w' s' id jobs' (
      rw same (
        count-update_where (is_claimable id) (claimed_row now w s) jobs
          (claimed_row-claimable now w s id)))
