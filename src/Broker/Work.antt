-- ===== src/Broker/Work.antt =====
-- The operations of the worker on one job: `push`, `executeClaimedJob` with `execute`, and
-- `processStreamJobMessage`.
use orbi_insitutional_core_v.Prelude.{
  ℕ, ◌+◌, Bool, true, not, ◌&&◌, Option, none, some, List, [], ◌∷◌, ◌++◌, if◌then◌else◌, ltb,
}
use orbi_insitutional_core_v.Prelude.Text.{Text}
use orbi_insitutional_core_v.Broker.{
  Job, JobType, ai_report_gen, ledger_reconcile, tax_settlement, notification_fanout,
  partner_reconcile, treasury_auto_sweep, stuck_tx_reap, pending, completed, failed, BrokerEnv,
  default_max_attempts, max_attempts_of, retry_delay_ms, write_job, claim_job_by_id,
}
use orbi_insitutional_core_v.Broker.Streams.{
  StreamMessage, Streams, publish, drop_message, schedule_retry,
}

-- The table, in order of creation, and Redis, where there is a client.
pub record Queue : Type 0 where
  pub jobs : List Job
  pub streams : Option Streams

-- The publication of a job, whose failure is only logged.
unfoldable pub try_publish : BrokerEnv → Text → JobType → Option Streams → Option Streams
unfolding publish
try_publish env id type none = none
try_publish env id type (some r) = if env.publish_fails id then some r else some (publish id type r)

unfoldable pub new_job : Text → JobType → Option Text → Job
new_job id type organization_id = record {
  id = id;
  type = type;
  organization_id = organization_id;
  status = pending;
  attempts = 0;
  max_attempts = default_max_attempts;
  last_error = none;
  updated_at = none;
}

-- `push`, where the database takes the row.
unfoldable pub push : BrokerEnv → Text → JobType → Option Text → Queue → Queue
unfolding try_publish new_job
push env id type organization_id q = record {
  jobs = q.jobs ++ new_job id type organization_id ∷ [];
  streams = try_publish env id type q.streams;
}

-- `execute`: the error that it throws, if any. The types without a case do nothing.
unfoldable pub execute : BrokerEnv → Job → Option Text
execute env job = elim job.type [
  | ai_report_gen ↦ env.run_report job
  | ledger_reconcile ↦ env.audit_reconcile job
  | partner_reconcile ↦ env.reconcile_partners
  | stuck_tx_reap ↦ env.reap_stuck
  | treasury_auto_sweep ↦ elim job.organization_id [ none ↦ none | some o ↦ env.sweep_treasury o ]
  | tax_settlement ↦ none
  | notification_fanout ↦ none
]

-- What follows in Redis on a failure: a retry, or a dead letter if a stream for them is given.
unfoldable pub after_failure : BrokerEnv → Job → Bool → Text → Option Streams → Option Streams
unfolding schedule_retry retry_delay_ms max_attempts_of
after_failure env job has_dead_letters error none = none
after_failure env job has_dead_letters error (some r) =
    if ltb (job.attempts + 1) (max_attempts_of job)
    then (if env.schedule_fails job.id
        then some r
        else some (record r {
          retry_set =
              schedule_retry
                (record {
                  available_at = env.now + retry_delay_ms env.retry_base_ms (job.attempts + 1);
                  job_id = job.id;
                  type = job.type;
                })
                r.retry_set;
        }))
    else (if has_dead_letters && not (env.publish_fails job.id)
        then some (record r {
          dead_letters =
              r.dead_letters
              ++ record { job = job; attempts = job.attempts + 1; error = error } ∷ [];
        })
        else some r)

unfoldable pub completed_job : BrokerEnv → Job → Job
completed_job env job = record job { status = completed; updated_at = some env.now }

unfoldable pub failed_job : BrokerEnv → Job → Text → Job
failed_job env job error = record job {
  status = failed;
  attempts = job.attempts + 1;
  last_error = some error;
  updated_at = some env.now;
}

-- `executeClaimedJob`, with the end of the work. The row is written by its id, whatever its status.
unfoldable pub finish_job : BrokerEnv → Job → Bool → Option Text → Queue → Queue
unfolding write_job completed_job failed_job after_failure
finish_job env job has_dead_letters none q = record q {
  jobs = write_job (completed_job env job) q.jobs;
}
finish_job env job has_dead_letters (some error) q = record {
  jobs = write_job (failed_job env job error) q.jobs;
  streams = after_failure env job has_dead_letters error q.streams;
}

-- The time at which the work of the call has ended.
abbrev pub after_work : BrokerEnv → BrokerEnv
after_work env = record env { now = env.now + env.work_ms }

unfoldable pub execute_claimed_job : BrokerEnv → Job → Bool → Queue → Queue
unfolding finish_job execute
execute_claimed_job env job has_dead_letters q =
    finish_job (after_work env) job has_dead_letters (execute env job) q

unfoldable pub execute_if_claimed : BrokerEnv → Bool → Option Job × List Job → Queue → Queue
unfolding execute_claimed_job
execute_if_claimed env has_dead_letters (none, jobs) q = record q { jobs = jobs }
execute_if_claimed env has_dead_letters (some job, jobs) q =
    execute_claimed_job env job has_dead_letters (record q { jobs = jobs })

abbrev pub acknowledge : ℕ → Option Streams → Option Streams
acknowledge id none = none
acknowledge id (some r) = some (record r { stream = drop_message id r.stream })

unfoldable pub process_stream_job_message : BrokerEnv → StreamMessage → Queue → Queue
unfolding execute_if_claimed claim_job_by_id drop_message
process_stream_job_message env m q =
    let done = execute_if_claimed env true (claim_job_by_id env m.job_id q.jobs) q in
    record done { streams = acknowledge m.stream_id done.streams }
