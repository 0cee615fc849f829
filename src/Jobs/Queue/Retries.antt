-- ===== src/Jobs/Queue/Retries.antt =====
-- Lost leases, the schedule of retries and the recovery of interrupted jobs (queue.py).
use mnema.Prelude.{
  ℕ, zero, suc, ◌+◌, ◌-◌, ◌*◌, ◌^◌, ◌≤◌, ◌<◌, min, ◌≡◌, refl, true, false, none, some, List, [],
  ◌∷◌, ◌⊎◌, count, leb, ltb, map, ◌&&◌, Bool, ◌==◌, if◌then◌else◌, String, str_eq_iff, DateTime,
  seconds, arith,
}
use native.Mathlib.Nat.{pow-le-pow_right}
use mnema.Security.Redaction.{Patterns}
use mnema.Jobs.Models.Work.{retry, running, status_eq, manual_review, Job, WorkerHeartbeat}
use mnema.Jobs.Queue.Table.{count-update_where}
use mnema.Jobs.Queue.{
  claimed_row, update_where, owns, heartbeat, succeed, backoff, fail, is_expired, holds_lease,
  recovered_row, recover_expired,
}

-- A worker that does not own the lease changes nothing that the queue decides by: a success is
-- dropped, a heartbeat raises, and a failure can at most leave its error text.
lost_lease_is_inert :
    (re : Patterns) (now : DateTime) (s base : ℕ) (j : Job) (w error : String)
    (beats : List WorkerHeartbeat)
    → owns j w ≡ false
    → (succeed j w ≡ (j, false))
      × (heartbeat now s j w beats ≡ none)
      × ((fail re now base j w error).1 ≡ false)
      × (record (fail re now base j w error).0 { last_error = j.last_error } ≡ j)
unfolding owns succeed heartbeat fail
lost_lease_is_inert re now s base j w error beats h =
    (ground arith, ground arith, ground arith, ground arith)

pow_mono : (a b : ℕ) → a ≤ b → 2 ^ a ≤ 2 ^ b
pow_mono a b h = pow-le-pow_right (omega arith) h

scaled : (p q base : ℕ) → p ≤ q → seconds (p * base) ≤ seconds (q * base)
scaled p q base h = grind arith

-- The delay before a retry is at least the base and at most 1024 times it, and never falls from one
-- attempt to the next.
backoff_bounds :
    (attempts base : ℕ)
    → 0 < attempts
    → (seconds base ≤ backoff attempts base)
      × (backoff attempts base ≤ seconds (1024 * base))
      × (backoff attempts base ≤ backoff (suc attempts) base)
unfolding backoff
backoff_bounds zero base h = elim h [ ]
backoff_bounds (suc k) base h =
    let low : 2 ^ 0 ≤ 2 ^ min (suc k - 1) 10 = pow_mono 0 (min (suc k - 1) 10) (omega arith) in
    let high : 2 ^ min (suc k - 1) 10 ≤ 2 ^ 10 = pow_mono (min (suc k - 1) 10) 10 (omega arith) in
    let more : 2 ^ min (suc k - 1) 10 ≤ 2 ^ min (suc (suc k) - 1) 10 =
      pow_mono (min (suc k - 1) 10) (min (suc (suc k) - 1) 10) (omega arith) in
    (
      ground (arith, scaled 1 (2 ^ min (suc k - 1) 10) base low),
      ground (arith, scaled (2 ^ min (suc k - 1) 10) 1024 base high),
      ground (arith, scaled (2 ^ min (suc k - 1) 10) (2 ^ min (suc (suc k) - 1) 10) base more),
    )

-- What the owner's failure report does, on both branches: the lease is given up, and the job goes to
-- manual review if its attempts are used up, or else is retried after the backoff.
fail_schedules :
    (re : Patterns) (now : DateTime) (base : ℕ) (j : Job) (w error : String)
    → owns j w ≡ true
    → let (j', done) = fail re now base j w error in
      (done ≡ true)
      × (j'.lease_owner ≡ none)
      × (j'.lease_expires_at ≡ none)
      × (j'.last_error ≡ some (re.bearer_sub error))
      × (((j.max_attempts ≤ j.attempts)
            × (j'.status ≡ manual_review)
            × (j'.available_at ≡ j.available_at))
          ⊎ ((j.attempts < j.max_attempts)
              × (j'.status ≡ retry)
              × (j'.available_at ≡ now + backoff j.attempts base)))
unfolding owns fail
fail_schedules re now base j w error h = ground arith

-- `n` rounds in which a worker claims the job and reports a failure.
abbrev pub fail_rounds : Patterns → DateTime → ℕ → ℕ → String → String → ℕ → Job → Job
fail_rounds re now s base w error zero j = j
fail_rounds re now s base w error (suc n) j =
    fail_rounds re now s base w error n (fail re now base (claimed_row now w s j) w error).0

fail_round :
    (re : Patterns) (now : DateTime) (s base : ℕ) (w error : String) (j : Job)
    → let j' = (fail re now base (claimed_row now w s j) w error).0 in
      (j'.attempts ≡ suc j.attempts)
      × (j'.max_attempts ≡ j.max_attempts)
      × (j'.status ≡ (if leb j.max_attempts (suc j.attempts) then manual_review else retry))
unfolding claimed_row fail
fail_round re now s base w error j = ground (arith, str_eq_iff w w)

-- A job that fails every time is retried until it has had `max_attempts` attempts, and then is in
-- manual review: after fewer rounds it waits for a retry.
pub retries_exhausted :
    (re : Patterns) (now : DateTime) (s base n : ℕ) (w error : String) (j : Job)
    → j.attempts + suc n ≤ j.max_attempts
    → let j' = fail_rounds re now s base w error (suc n) j in
      (j'.attempts ≡ j.attempts + suc n)
      × (j'.status ≡ (if j.attempts + suc n == j.max_attempts then manual_review else retry))
retries_exhausted re now s base zero w error j h =
    ground (arith, fail_round re now s base w error j)
retries_exhausted re now s base (suc n) w error j h =
    let j' = (fail re now base (claimed_row now w s j) w error).0 in
    let (tried, limit, _) = fail_round re now s base w error j in
    let (attempts, status) = retries_exhausted re now s base n w error j' (omega arith) in
    (omega arith, rw status (ground arith))

recovered-fresh : (now : DateTime) (j : Job) → is_expired now (recovered_row now j) ≡ false
unfolding is_expired recovered_row
recovered-fresh now j = refl

recovered_leases :
    (now : DateTime) (jobs : List Job)
    → count (holds_lease now) (update_where (is_expired now) (recovered_row now) jobs)
      ≡ count (holds_lease now) jobs
unfolding is_expired recovered_row holds_lease
recovered_leases now [] = refl
recovered_leases now (j ∷ jobs) = ground (arith, recovered_leases now jobs)

-- Is the job running under a lease that ended before now?
abbrev pub is_lost : DateTime → Job → Bool
is_lost now j = elim j.lease_expires_at [
  | none ↦ false
  | some ended ↦ ltb ended now && status_eq j.status running
]

-- What a recovery leaves of a job: a lost one waits, from now on, for a retry without an owner.
abbrev pub rescued : DateTime → Job → Job
rescued now j =
    if is_lost now j
    then record j {
      status = retry;
      lease_owner = none;
      lease_expires_at = none;
      available_at = now;
      last_error = some "lease expired; recovered after interruption";
    }
    else j

lost-expired : (now : DateTime) (j : Job) → is_expired now j ≡ is_lost now j
unfolding is_expired
lost-expired now j = ground arith

recovered_rows :
    (now : DateTime) (jobs : List Job)
    → (count (is_expired now) jobs ≡ count (is_lost now) jobs)
      × (update_where (is_expired now) (recovered_row now) jobs ≡ map (rescued now) jobs)
unfolding recovered_row
recovered_rows now [] = (refl, refl)
recovered_rows now (j ∷ jobs) =
    let (number, rows) = recovered_rows now jobs in
    (ground (arith, lost-expired now j, number), ground (arith, lost-expired now j, rows))

-- A recovery turns each running job whose lease ended before now into one that waits for a retry from
-- now on, without an owner and with the error text of a recovery, and leaves every other job and the
-- order alone. Its answer is the number of such jobs; after it no job is running with an expired lease, and as many
-- as before hold a lease that has not run out.
pub recover_expired_lem :
    (now : DateTime) (jobs : List Job)
    → let (n, jobs') = recover_expired now jobs in
      (n ≡ count (is_lost now) jobs)
      × (jobs' ≡ map (rescued now) jobs)
      × (count (is_lost now) jobs' ≡ 0)
      × (count (holds_lease now) jobs' ≡ count (holds_lease now) jobs)
unfolding recover_expired
recover_expired_lem now jobs =
    let jobs' = update_where (is_expired now) (recovered_row now) jobs in
    let (number, rows) = recovered_rows now jobs in
    let (number', rows') = recovered_rows now jobs' in
    let fresh =
      count-update_where (is_expired now) (recovered_row now) jobs (recovered-fresh now) in
    (number, rows, cc (number', fresh), recovered_leases now jobs)
