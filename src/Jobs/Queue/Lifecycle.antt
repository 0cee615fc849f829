-- ===== src/Jobs/Queue/Lifecycle.antt =====
-- The life of a job under queue.py: the invariant that every method keeps, lost leases, recovery
-- and the schedule of retries.
use mnema.Prelude.{
  ℕ, ◌≡◌, refl, Bool, true, ◌&&◌, none, some, List, [], ◌∷◌, ◌++◌, all, ltb, ◌==◌, if◌then◌else◌,
  is_some, is_none, String, DateTime, arith,
}
use mnema.Security.Redaction.{Value, Patterns}
use mnema.Jobs.Models.Work.{running, status_eq, Job}
use mnema.Jobs.Queue.{
  new_job, enqueue, claimed_row, is_claimable, update_where, claim, lease, heartbeat, succeed, fail,
  is_expired, recovered_row, recover_expired,
}

-- A job has an owner and an expiry exactly while it runs, and a running job has been tried.
abbrev pub is_sound : Job → Bool
is_sound j =
    if status_eq j.status running
    then is_some j.lease_owner && is_some j.lease_expires_at && ltb 0 j.attempts
    else is_none j.lease_owner && is_none j.lease_expires_at

abbrev has_id : ℕ → Job → Bool
has_id id j = j.id == id

-- A heartbeat changes the row only if the worker owns it.
abbrev pub beaten : DateTime → ℕ → String → Job → Job
beaten now s w j = elim (heartbeat now s j w []) [ none ↦ j | some (k, beats) ↦ k ]

-- One method call by some worker, on a table that others may have changed meanwhile. A method that
-- gets a job writes the row with that job's id.
pub data QueueStep : List Job → List Job → Type 0 where
  enqueued :
      (id : ℕ) (now : DateTime) (jobs : List Job) (kind adapter : String) (payload : Value)
      (key : String) (limit : ℕ)
      → QueueStep jobs (enqueue id now jobs kind adapter payload key limit).1
  leased :
      (now : DateTime) (w adapter : String) (s adapter_limit global_limit : ℕ) (jobs : List Job)
      → QueueStep jobs (lease now w adapter s adapter_limit global_limit jobs).1
  beat :
      (now : DateTime) (s id : ℕ) (w : String) (jobs : List Job)
      → QueueStep jobs (update_where (has_id id) (beaten now s w) jobs)
  finished :
      (id : ℕ) (w : String) (jobs : List Job)
      → QueueStep jobs (update_where (has_id id) (λ j. (succeed j w).0) jobs)
  failed :
      (re : Patterns) (now : DateTime) (base id : ℕ) (w error : String) (jobs : List Job)
      → QueueStep jobs (update_where (has_id id) (λ j. (fail re now base j w error).0) jobs)
  recovered : (now : DateTime) (jobs : List Job) → QueueStep jobs (recover_expired now jobs).1

pub data QueueReach (jobs : List Job) : List Job → Type 0 where
  here : QueueReach jobs jobs
  next : {t u : List Job} → QueueReach jobs t → QueueStep t u → QueueReach jobs u

all-update_where :
    (p q : Job → Bool) (f : Job → Job) (jobs : List Job)
    → ((j : Job) → q j ≡ true → q (f j) ≡ true)
    → all q jobs ≡ true
    → all q (update_where p f jobs) ≡ true
all-update_where p q f [] keeps h = refl
all-update_where p q f (j ∷ jobs) keeps h =
    ground (arith, keeps j, all-update_where p q f jobs keeps)

all-append_one :
    (q : Job → Bool) (jobs : List Job) (j : Job)
    → all q jobs ≡ true
    → q j ≡ true
    → all q (jobs ++ j ∷ []) ≡ true
all-append_one q [] j h e = rw e
all-append_one q (k ∷ jobs) j h e = ground (arith, all-append_one q jobs j)

enqueue-IsSound :
    (id : ℕ) (now : DateTime) (jobs : List Job) (kind adapter : String) (payload : Value)
    (key : String) (limit : ℕ)
    → all is_sound jobs ≡ true
    → all is_sound (enqueue id now jobs kind adapter payload key limit).1 ≡ true
unfolding enqueue new_job
enqueue-IsSound id now jobs kind adapter payload key limit h =
    ground (arith, all-append_one is_sound jobs (new_job id now kind adapter payload key limit))

claimed_row-IsSound :
    (now : DateTime) (w : String) (s : ℕ) (j : Job) → is_sound (claimed_row now w s j) ≡ true
unfolding claimed_row
claimed_row-IsSound now w s j = ground arith

claim-IsSound :
    (now : DateTime) (w : String) (s id : ℕ) (jobs : List Job)
    → all is_sound jobs ≡ true
    → all is_sound (claim now w s id jobs).1 ≡ true
unfolding claim
claim-IsSound now w s id jobs h = ground (
  arith,
  all-update_where (is_claimable id) is_sound (claimed_row now w s) jobs
      (λ j _. claimed_row-IsSound now w s j) h,
)

lease-IsSound :
    (now : DateTime) (w adapter : String) (s adapter_limit global_limit : ℕ) (jobs : List Job)
    → all is_sound jobs ≡ true
    → all is_sound (lease now w adapter s adapter_limit global_limit jobs).1 ≡ true
unfolding lease
lease-IsSound now w adapter s adapter_limit global_limit jobs h = grind (arith, claim-IsSound)

beaten-IsSound :
    (now : DateTime) (s : ℕ) (w : String) (j : Job)
    → is_sound j ≡ true
    → is_sound (beaten now s w j) ≡ true
unfolding heartbeat
beaten-IsSound now s w j h = ground arith

succeed-IsSound : (w : String) (j : Job) → is_sound j ≡ true → is_sound (succeed j w).0 ≡ true
unfolding succeed
succeed-IsSound w j h = ground arith

fail-IsSound :
    (re : Patterns) (now : DateTime) (base : ℕ) (w error : String) (j : Job)
    → is_sound j ≡ true
    → is_sound (fail re now base j w error).0 ≡ true
unfolding fail
fail-IsSound re now base w error j h = ground arith

recovered_row-IsSound : (now : DateTime) (j : Job) → is_sound (recovered_row now j) ≡ true
unfolding recovered_row
recovered_row-IsSound now j = ground arith

step-IsSound : {t u : List Job} → QueueStep t u → all is_sound t ≡ true → all is_sound u ≡ true
unfolding recover_expired
step-IsSound (enqueued id now jobs kind adapter payload key limit) h =
    enqueue-IsSound id now jobs kind adapter payload key limit h
step-IsSound (leased now w adapter s adapter_limit global_limit jobs) h =
    lease-IsSound now w adapter s adapter_limit global_limit jobs h
step-IsSound (beat now s id w jobs) h =
    all-update_where (has_id id) is_sound (beaten now s w) jobs (beaten-IsSound now s w) h
step-IsSound (finished id w jobs) h =
    all-update_where (has_id id) is_sound (λ j. (succeed j w).0) jobs (succeed-IsSound w) h
step-IsSound (failed re now base id w error jobs) h =
    all-update_where (has_id id) is_sound (λ j. (fail re now base j w error).0) jobs
      (fail-IsSound re now base w error) h
step-IsSound (recovered now jobs) h =
    all-update_where (is_expired now) is_sound (recovered_row now) jobs
      (λ j _. recovered_row-IsSound now j) h

-- From an empty table, whatever calls the workers make and in whatever order, a job has an owner and
-- an expiry exactly while it runs, and every running job counts at least one attempt.
pub queue-IsSound : {jobs : List Job} → QueueReach [] jobs → all is_sound jobs ≡ true
queue-IsSound here = refl
queue-IsSound (next r st) = step-IsSound st (queue-IsSound r)
