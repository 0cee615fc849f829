-- ===== src/Jobs/Queue.antt =====
-- `DurableQueue` (src/mnema/jobs/queue.py). The table of jobs is a list of rows; each method takes
-- the time that `_now()` returns and gives back the table that it leaves.
pub mod Table
pub mod Limits
pub mod Lifecycle
pub mod Retries
use mnema.Prelude.{
  ℕ, ◌+◌, ◌-◌, ◌*◌, ◌^◌, min, Bool, true, false, not, ◌&&◌, ◌||◌, Option, none, some, List, [], ◌∷◌,
  ◌++◌, map, length, find, keep_if, count, ltb, leb, ◌==◌, if◌then◌else◌, is_some, String, str_eq,
  DateTime, seconds,
}
use mnema.Security.Redaction.{Value, Patterns, str, redact}
use mnema.Jobs.Models.Work.{
  JobStatus, pending, running, succeeded, retry, manual_review, status_eq, Job, JobLog,
  WorkerHeartbeat,
}

abbrev pub is_waiting : JobStatus → Bool
is_waiting s = status_eq s pending || status_eq s retry

-- A nullable column compared with a value: SQL's NULL passes no test.
abbrev pub after : Option DateTime → DateTime → Bool
after none now = false
after (some t) now = ltb now t

abbrev pub before : Option DateTime → DateTime → Bool
before none now = false
before (some t) now = ltb t now

abbrev pub owner_is : Option String → String → Bool
owner_is none w = false
owner_is (some o) w = str_eq o w

-- The new row of `enqueue`, with the defaults of its columns.
unfoldable pub new_job : ℕ → DateTime → String → String → Value → String → ℕ → Job
new_job id now kind adapter payload idempotency_key max_attempts = record {
  id = id;
  kind = kind;
  adapter = adapter;
  payload = payload;
  idempotency_key = idempotency_key;
  status = pending;
  attempts = 0;
  max_attempts = max_attempts;
  available_at = now;
  lease_owner = none;
  lease_expires_at = none;
  heartbeat_at = none;
  last_error = none;
}

-- `enqueue`. `id` is the primary key that the database gives a new row.
unfoldable pub enqueue :
    ℕ → DateTime → List Job → String → String → Value → String → ℕ → Job × List Job
enqueue id now jobs kind adapter payload idempotency_key max_attempts =
    let job : Job = new_job id now kind adapter payload idempotency_key max_attempts in
    elim (find (λ j. str_eq j.idempotency_key idempotency_key) jobs) [
      | some existing ↦ (existing, jobs)
      | none ↦ (job, jobs ++ job ∷ [])
    ]

-- The rows of `running_global`.
unfoldable pub holds_lease : DateTime → Job → Bool
holds_lease now j = status_eq j.status running && after j.lease_expires_at now

unfoldable pub is_candidate : DateTime → String → Job → Bool
is_candidate now adapter j =
    str_eq j.adapter adapter && is_waiting j.status && leb j.available_at now

-- `ORDER BY available_at, id`
unfoldable pub precedes : Job → Job → Bool
precedes a b =
    ltb a.available_at b.available_at || a.available_at == b.available_at && leb a.id b.id

-- `.order_by(...).limit(1)` over the rows that the query matches.
unfoldable pub earliest : (Job → Bool) → List Job → Option Job
unfolding precedes
earliest p [] = none
earliest p (j ∷ jobs) =
    if p j
    then elim (earliest p jobs) [ none ↦ some j | some k ↦ if precedes j k then some j else some k ]
    else earliest p jobs

unfoldable pub claimed_row : DateTime → String → ℕ → Job → Job
claimed_row now worker_id lease_seconds j = record j {
  status = running;
  lease_owner = some worker_id;
  lease_expires_at = some (now + seconds lease_seconds);
  heartbeat_at = some now;
  attempts = j.attempts + 1;
}

unfoldable pub is_claimable : ℕ → Job → Bool
is_claimable id j = j.id == id && is_waiting j.status

-- `UPDATE ... WHERE`: the rows that pass the test are changed, the others stay.
abbrev pub update_where : (Job → Bool) → (Job → Job) → List Job → List Job
update_where p f [] = []
update_where p f (j ∷ jobs) = (if p j then f j else j) ∷ update_where p f jobs

-- The conditional update of `lease`, the test of `rowcount`, and the refreshed candidate. The table
-- is the one at the time of the update, which another worker may have changed since the query.
unfoldable pub claim : DateTime → String → ℕ → ℕ → List Job → Option Job × List Job
unfolding is_claimable claimed_row
claim now worker_id lease_seconds id jobs =
    let jobs' = update_where (is_claimable id) (claimed_row now worker_id lease_seconds) jobs in
    if count (is_claimable id) jobs == 1
    then (find (λ j. j.id == id) jobs', jobs')
    else (none, jobs')

-- `lease`
unfoldable pub lease : DateTime → String → String → ℕ → ℕ → ℕ → List Job → Option Job × List Job
lease now worker_id adapter lease_seconds adapter_limit global_limit jobs =
    let running_global = keep_if (holds_lease now) jobs in
    if leb global_limit (length running_global)
    then (none, jobs)
    else if leb adapter_limit (count (λ j. str_eq j.adapter adapter) running_global)
    then (none, jobs)
    else elim (earliest (is_candidate now adapter) jobs) [
      | none ↦ (none, jobs)
      | some candidate ↦ claim now worker_id lease_seconds candidate.id jobs
    ]

-- `_owns`
unfoldable pub owns : Job → String → Bool
owns j worker_id = status_eq j.status running && owner_is j.lease_owner worker_id

-- `session.get(WorkerHeartbeat, ...)`, the new row where there is none, and the write.
unfoldable pub beat : DateTime → String → String → List WorkerHeartbeat → List WorkerHeartbeat
beat now worker_id adapter [] =
    record { worker_id = worker_id; adapter = adapter; heartbeat_at = now } ∷ []
beat now worker_id adapter (h ∷ hs) =
    if str_eq h.worker_id worker_id
    then record h { heartbeat_at = now } ∷ hs
    else h ∷ beat now worker_id adapter hs

-- `heartbeat`. `none` is the `RuntimeError` of a worker that does not own the lease.
unfoldable pub heartbeat :
    DateTime → ℕ → Job → String → List WorkerHeartbeat → Option (Job × List WorkerHeartbeat)
unfolding owns beat
heartbeat now lease_seconds j worker_id beats =
    if not (owns j worker_id)
    then none
    else some (
      record j { heartbeat_at = some now; lease_expires_at = some (now + seconds lease_seconds) },
      beat now worker_id j.adapter beats,
    )

-- `succeed`
unfoldable pub succeed : Job → String → Job × Bool
unfolding owns
succeed j worker_id =
    if not (owns j worker_id)
    then (j, false)
    else (record j { status = succeeded; lease_owner = none; lease_expires_at = none }, true)

-- `math.pow(2, exponent) * base_backoff_seconds` in microseconds, with
-- `exponent = min(attempts - 1, 10)`: -1 where there was no attempt, so half of the base.
unfoldable pub backoff : ℕ → ℕ → ℕ
backoff attempts base =
    if attempts == 0 then base * 500000 else seconds (2 ^ min (attempts - 1) 10 * base)

-- `fail`
unfoldable pub fail : Patterns → DateTime → ℕ → Job → String → String → Job × Bool
unfolding owns
fail re now base_backoff_seconds j worker_id error =
    if is_some j.lease_owner && not (owner_is j.lease_owner worker_id)
    then (j, false)
    else let noted : Job = record j { last_error = some (re.bearer_sub error) } in
      if not (owns noted worker_id)
      then (noted, false)
      else let freed : Job = record noted { lease_owner = none; lease_expires_at = none } in
        if leb freed.max_attempts freed.attempts
        then (record freed { status = manual_review }, true)
        else (
          record freed {
            status = retry;
            available_at = now + backoff freed.attempts base_backoff_seconds;
          },
          true,
        )

unfoldable pub is_expired : DateTime → Job → Bool
is_expired now j = status_eq j.status running && before j.lease_expires_at now

unfoldable pub recovered_row : DateTime → Job → Job
recovered_row now j = record j {
  status = retry;
  lease_owner = none;
  lease_expires_at = none;
  available_at = now;
  last_error = some "lease expired; recovered after interruption";
}

-- `recover_expired`
unfoldable pub recover_expired : DateTime → List Job → ℕ × List Job
unfolding is_expired recovered_row
recover_expired now jobs =
    (count (is_expired now) jobs, update_where (is_expired now) (recovered_row now) jobs)

-- `log`. `str(redact(message))` of a text is the text with its bearer tokens replaced.
unfoldable pub log : Patterns → List JobLog → Job → String → String → Value → List JobLog
log re logs j level message fields =
    logs
    ++ record {
      job_id = j.id;
      level = level;
      message = re.bearer_sub message;
      fields = redact re fields;
    }
      ∷ []
