-- ===== src/Broker/Rounds.antt =====
-- The rounds of the worker over the table and over the set of retries, and `getQueueStatus`.
use orbi_insitutional_core_v.Prelude.{
  ℕ, zero, suc, ◌+◌, false, not, ◌&&◌, ◌||◌, Option, none, some, List, [], ◌∷◌, if◌then◌else◌, ltb,
}
use orbi_insitutional_core_v.Broker.{
  Job, JobStatus, pending, completed, failed, BrokerEnv, default_max_attempts, claim_batch_size,
  stream_recovery_batch_size, is_job_recoverable, status_eq, claim_job_by_id,
}
use orbi_insitutional_core_v.Broker.Streams.{
  Retry, Streams, publish, schedule_retry, drain_due_retries,
}
use orbi_insitutional_core_v.Broker.Work.{Queue, execute_if_claimed}

-- The rows of the query, up to the limit.
unfoldable pub select_pending : ℕ → List Job → List Job
select_pending zero js = []
select_pending (suc limit) [] = []
select_pending (suc limit) (j ∷ js) =
    let keep =
      (status_eq j.status pending || status_eq j.status failed)
      && ltb j.attempts default_max_attempts in
    let rest = select_pending (if keep then limit else suc limit) js in
    if keep then j ∷ rest else rest

-- The loop over the rows; the count of the claims comes first.
unfoldable pub process_each : BrokerEnv → List Job → Queue → ℕ × Queue
unfolding claim_job_by_id execute_if_claimed
process_each env [] q = (0, q)
process_each env (j ∷ js) q =
    let claim : Option Job × List Job = claim_job_by_id env j.id q.jobs in
    let rest : ℕ × Queue = process_each env js (execute_if_claimed env false claim q) in
    (elim claim.0 [ none ↦ rest.0 | some job ↦ suc rest.0 ], rest.1)

unfoldable pub process_database_batch : BrokerEnv → Queue → ℕ × Queue
unfolding process_each select_pending
process_database_batch env q = process_each env (select_pending claim_batch_size q.jobs) q

-- `recoverPendingJobsToStream`: the jobs that are due, until a publication fails.
unfoldable pub recover_each : BrokerEnv → List Job → Streams → Streams
unfolding is_job_recoverable publish
recover_each env [] r = r
recover_each env (j ∷ js) r =
    let is_due = is_job_recoverable env j in
    let rest = recover_each env js (if is_due then publish j.id j.type r else r) in
    if is_due && env.publish_fails j.id then r else rest

unfoldable pub select_unfinished : ℕ → List Job → List Job
select_unfinished zero js = []
select_unfinished (suc limit) [] = []
select_unfinished (suc limit) (j ∷ js) =
    let keep = not (status_eq j.status completed) in
    let rest = select_unfinished (if keep then limit else suc limit) js in
    if keep then j ∷ rest else rest

abbrev recover_streams : BrokerEnv → List Job → Option Streams → Option Streams
recover_streams env jobs none = none
recover_streams env jobs (some r) =
    some (recover_each env (select_unfinished stream_recovery_batch_size jobs) r)

unfoldable pub recover_pending_jobs_to_stream : BrokerEnv → Queue → Queue
unfolding recover_each select_unfinished
recover_pending_jobs_to_stream env q = record q { streams = recover_streams env q.jobs q.streams }

-- The loop of `drainScheduledRetries`, whose retries have left the set: one whose publication fails is
-- scheduled again, and ends the loop.
unfoldable pub release_each : BrokerEnv → List Retry → Streams → Streams
unfolding publish schedule_retry
release_each env [] r = r
release_each env (x ∷ xs) r =
    let published = release_each env xs (publish x.job_id x.type r) in
    if env.publish_fails x.job_id
    then record r {
      retry_set =
          schedule_retry (record x { available_at = env.now + env.retry_base_ms }) r.retry_set;
    }
    else published

unfoldable pub drain_scheduled_retries : BrokerEnv → Streams → Streams
unfolding release_each drain_due_retries
drain_scheduled_retries env r =
    let drained : List Retry × List Retry =
      drain_due_retries env.now claim_batch_size r.retry_set in
    release_each env drained.0 (record r { retry_set = drained.1 })

-- `getQueueStatus`
pub record QueueStatus : Type 0 where
  pub pending : ℕ
  pub processing : ℕ
  pub completed : ℕ
  pub failed : ℕ
  pub total_active : ℕ

unfoldable pub count_by_status : JobStatus → List Job → ℕ
count_by_status s [] = 0
count_by_status s (j ∷ js) =
    let rest = count_by_status s js in if status_eq j.status s then suc rest else rest

unfoldable pub get_queue_status : List Job → QueueStatus
unfolding count_by_status
get_queue_status jobs = record {
  pending = count_by_status JobStatus.pending jobs;
  processing = count_by_status JobStatus.processing jobs;
  completed = count_by_status JobStatus.completed jobs;
  failed = count_by_status JobStatus.failed jobs;
  total_active =
      count_by_status JobStatus.pending jobs
      + count_by_status JobStatus.processing jobs
      + count_by_status JobStatus.completed jobs
      + count_by_status JobStatus.failed jobs;
}
