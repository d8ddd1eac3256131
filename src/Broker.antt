-- ===== src/Broker.antt =====
-- `WorkerNodeService` of BROKER/InternalBroker.ts, the queue of background jobs: its rows, when a job is
-- due, and the claim of a job. A row is found by its id, the table's primary key; within a call the clock
-- moves by the time of a job's work alone.
pub mod Streams
pub mod Work
pub mod Rounds
pub mod Claims
pub mod Attempts
pub mod Executions
pub mod Settling
pub mod Retries
mod Tests
use orbi_insitutional_core_v.Prelude.{
  ℕ, zero, ◌+◌, ◌-◌, ◌*◌, ◌^◌, max, Bool, true, false, not, ◌&&◌, Option, none, some, List, [], ◌∷◌,
  if◌then◌else◌, ltb, leb,
}
use orbi_insitutional_core_v.Prelude.Text.{Text, text_eq}

pub data JobType : Type 0 where
  ai_report_gen ledger_reconcile tax_settlement notification_fanout partner_reconcile : JobType
  treasury_auto_sweep stuck_tx_reap : JobType

pub data JobStatus : Type 0 where
  pending processing completed failed : JobStatus

-- A row of `background_jobs`. Of the payload the worker reads the organisation; a time that is missing
-- or that does not parse is `none`.
pub record Job : Type 0 where
  pub id : Text
  pub type : JobType
  pub organization_id : Option Text
  pub status : JobStatus
  pub attempts : ℕ
  pub max_attempts : ℕ
  pub last_error : Option Text
  pub updated_at : Option ℕ

abbrev pub default_max_attempts : ℕ
default_max_attempts = 3

abbrev pub claim_batch_size : ℕ
claim_batch_size = 20

abbrev pub stream_recovery_batch_size : ℕ
stream_recovery_batch_size = 50

-- The time of a call, the settings, and what the services and Redis do: the error of a job's work and
-- how long it takes, the publications that fail, and what other workers do to the table between the read and
-- the update of a claim.
pub record BrokerEnv : Type 0 where
  pub now : ℕ
  pub retry_base_ms : ℕ
  pub claim_idle_ms : ℕ
  pub run_report : Job → Option Text
  pub audit_reconcile : Job → Option Text
  pub reconcile_partners : Option Text
  pub reap_stuck : Option Text
  pub sweep_treasury : Text → Option Text
  pub publish_fails : Text → Bool
  pub schedule_fails : Text → Bool
  pub work_ms : ℕ
  pub between : List Job → List Job

-- `job.max_attempts || this.MAX_ATTEMPTS`
unfoldable pub max_attempts_of : Job → ℕ
max_attempts_of job = elim job.max_attempts [ zero ↦ default_max_attempts | n ↦ n ]

unfoldable pub is_timestamp_older_than : ℕ → Option ℕ → ℕ → Bool
is_timestamp_older_than now none threshold = true
is_timestamp_older_than now (some value) threshold = leb (value + threshold) now

unfoldable pub retry_delay_ms : ℕ → ℕ → ℕ
retry_delay_ms base attempt = base * max 1 (2 ^ (attempt - 1))

unfoldable pub is_retry_window_elapsed : BrokerEnv → ℕ → Option ℕ → Bool
unfolding is_timestamp_older_than retry_delay_ms
is_retry_window_elapsed env attempts updated_at =
    is_timestamp_older_than env.now updated_at (retry_delay_ms env.retry_base_ms (attempts + 1))

-- `isJobRecoverable`, on the status
unfoldable pub is_recoverable_in : BrokerEnv → JobStatus → Job → Bool
unfolding is_retry_window_elapsed max_attempts_of is_timestamp_older_than
is_recoverable_in env pending job = true
is_recoverable_in env failed job =
    ltb job.attempts (max_attempts_of job)
    && is_retry_window_elapsed env job.attempts job.updated_at
is_recoverable_in env processing job =
    is_timestamp_older_than env.now job.updated_at env.claim_idle_ms
is_recoverable_in env completed job = false

unfoldable pub is_job_recoverable : BrokerEnv → Job → Bool
unfolding is_recoverable_in
is_job_recoverable env job = is_recoverable_in env job.status job

abbrev pub status_eq : JobStatus → JobStatus → Bool
status_eq pending pending = true
status_eq processing processing = true
status_eq completed completed = true
status_eq failed failed = true
status_eq _ _ = false

-- `.eq('id', id).maybeSingle()`
unfoldable pub find_job : Text → List Job → Option Job
unfolding text_eq
find_job id [] = none
find_job id (j ∷ js) = if text_eq j.id id then some j else find_job id js

-- The row is written over the one with its id.
unfoldable pub write_job : Job → List Job → List Job
unfolding text_eq
write_job new [] = []
write_job new (j ∷ js) = (if text_eq j.id new.id then new else j) ∷ write_job new js

-- The first half of `claimJobById`: the row, if it is due.
abbrev pub due : BrokerEnv → Option Job → Option Job
due env none = none
due env (some job) = if is_job_recoverable env job then some job else none

unfoldable pub claim_read : BrokerEnv → Text → List Job → Option Job
unfolding find_job is_job_recoverable
claim_read env id jobs = due env (find_job id jobs)

-- The second half: the update that compares the status, and the row that it gives.
abbrev pub take_if : BrokerEnv → JobStatus → Option Job → List Job → Option Job × List Job
take_if env read none jobs = (none, jobs)
take_if env read (some row) jobs =
    if status_eq row.status read
    then (
      some (record row { status = processing; updated_at = some env.now }),
      write_job (record row { status = processing; updated_at = some env.now }) jobs,
    )
    else (none, jobs)

unfoldable pub claim_update : BrokerEnv → Text → JobStatus → List Job → Option Job × List Job
unfolding find_job write_job
claim_update env id read jobs = take_if env read (find_job id jobs) jobs

abbrev pub claim_after_read : BrokerEnv → Text → Option Job → List Job → Option Job × List Job
claim_after_read env id none jobs = (none, jobs)
claim_after_read env id (some job) jobs = claim_update env id job.status (env.between jobs)

unfoldable pub claim_job_by_id : BrokerEnv → Text → List Job → Option Job × List Job
unfolding claim_read claim_update
claim_job_by_id env id jobs = claim_after_read env id (claim_read env id jobs) jobs
