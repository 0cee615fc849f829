-- ===== src/Jobs/Models/Work.antt =====
-- `JobStatus`, `Job`, `JobLog`, `WorkerHeartbeat` and `RuntimeSetting` of models.py.
use mnema.Prelude.{ℕ, Bool, Option, String, DateTime, ◌==◌}
use mnema.Security.Redaction.{Value}

pub data JobStatus : Type 0 where
  pending running succeeded retry manual_review : JobStatus

abbrev pub status_index : JobStatus → ℕ
status_index pending = 0
status_index running = 1
status_index succeeded = 2
status_index retry = 3
status_index manual_review = 4

abbrev pub status_eq : JobStatus → JobStatus → Bool
status_eq s t = status_index s == status_index t

pub record Job : Type 0 where
  pub id : ℕ
  pub kind : String
  pub adapter : String
  pub payload : Value
  pub idempotency_key : String
  pub status : JobStatus
  pub attempts : ℕ
  pub max_attempts : ℕ
  pub available_at : DateTime
  pub lease_owner : Option String
  pub lease_expires_at : Option DateTime
  pub heartbeat_at : Option DateTime
  pub last_error : Option String

pub record JobLog : Type 0 where
  pub job_id : ℕ
  pub level : String
  pub message : String
  pub fields : Value

pub record WorkerHeartbeat : Type 0 where
  pub worker_id : String
  pub adapter : String
  pub heartbeat_at : DateTime

pub record RuntimeSetting : Type 0 where
  pub key : String
  pub value : String
