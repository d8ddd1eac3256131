-- ===== src/Broker/Tests.antt =====
-- Runs of the queue, and the theorems at single inputs.

use orbi_insitutional_core_v.Prelude.{
  ℕ, ◌≡◌, refl, arith, true, false, none, some, [], ◌∷◌, ◌+◌, ◌≤◌,
}
use orbi_insitutional_core_v.Prelude.Text.{Text, codes, text_eq}
use orbi_insitutional_core_v.Broker.{
  Job, ledger_reconcile, processing, completed, failed, BrokerEnv, find_job, write_job,
  claim_update, claim_job_by_id, retry_delay_ms,
}
use orbi_insitutional_core_v.Broker.Streams.{
  StreamMessage, Retry, Streams, publish, schedule_retry, place_retry, drop_retry,
  drain_due_retries,
}
use orbi_insitutional_core_v.Broker.Work.{
  Queue, new_job, execute, execute_claimed_job, finish_job, failed_job, after_failure,
}
use orbi_insitutional_core_v.Broker.Rounds.{drain_scheduled_retries, release_each}
use orbi_insitutional_core_v.Broker.Claims.{taken, second_claim}
use orbi_insitutional_core_v.Broker.Executions.{executions, executions_bound}
use orbi_insitutional_core_v.Broker.Settling.{IsSettled, handle_all, spaced_messages_settle}
use orbi_insitutional_core_v.Broker.Retries.{scheduled_retry_refused}

abbrev at : ℕ → BrokerEnv
at t = record {
  now = t;
  retry_base_ms = 2000;
  claim_idle_ms = 60000;
  run_report = λ j. none;
  audit_reconcile = λ j. some (codes "offline");
  reconcile_partners = none;
  reap_stuck = none;
  sweep_treasury = λ o. none;
  publish_fails = λ id. text_eq id (codes "a");
  schedule_fails = λ id. false;
  work_ms = 0;
  between = λ jobs. jobs;
}

abbrev reconcile : Job
reconcile = new_job (codes "j") ledger_reconcile none

abbrev queue : Queue
queue = record { jobs = new_job (codes "j") ledger_reconcile none ∷ []; streams = none }

abbrev message : StreamMessage
message = record { stream_id = 0; job_id = codes "j"; type = ledger_reconcile }

abbrev redis : Streams
redis = record { next_id = 0; stream = []; retry_set = []; dead_letters = [] }

abbrev at_work : Job
at_work = record {
  id = codes "j";
  type = ledger_reconcile;
  organization_id = none;
  status = processing;
  attempts = 0;
  max_attempts = 3;
  last_error = none;
  updated_at = some 1000;
}

-- A worker that was thought lost fails after another has completed the job, and reopens it.
completed_job_reopened :
    (execute_claimed_job
      (at 70000)
      at_work
      true
      (record { jobs = record at_work { status = completed } ∷ []; streams = none })).jobs
    ≡ record at_work {
      status = failed;
      attempts = 1;
      last_error = some (codes "offline");
      updated_at = some 70000;
    }
      ∷ []
unfolding execute_claimed_job execute finish_job write_job failed_job after_failure text_eq
completed_job_reopened = refl

abbrev retry : Text → Retry
retry id = record { available_at = 500; job_id = id; type = ledger_reconcile }

-- The publication of the first of two due retries fails: it is scheduled again, the other is gone.
second_retry_lost :
    drain_scheduled_retries
      (at 1000)
      (record redis { retry_set = retry (codes "a") ∷ retry (codes "b") ∷ [] })
    ≡ record redis { retry_set = record (retry (codes "a")) { available_at = 3000 } ∷ [] }
unfolding drain_scheduled_retries drain_due_retries release_each schedule_retry place_retry
    drop_retry publish text_eq
second_retry_lost = refl

-- Two workers have read the row that a third left in work.
second_claim_example :
    ((claim_update (at 61000) (codes "j") processing (at_work ∷ [])).0
      ≡ some (taken (at 61000) at_work))
    × ((claim_update
          (at 61005)
          (codes "j")
          processing
          (claim_update (at 61000) (codes "j") processing (at_work ∷ [])).1).0
        ≡ some (taken (at 61005) at_work))
unfolding find_job text_eq
second_claim_example = second_claim (at 61000) (at 61005) (codes "j") (at_work ∷ []) at_work refl

executions_bound_example :
    executions (at 0 ∷ at 100 ∷ at 9000 ∷ at 20000 ∷ at 90000 ∷ []) message queue + 0 ≤ 3
unfolding find_job text_eq new_job
executions_bound_example =
    executions_bound (at 0 ∷ at 100 ∷ at 9000 ∷ at 20000 ∷ at 90000 ∷ []) message queue
      (new_job (codes "j") ledger_reconcile none)
      (λ x. refl, (λ x. refl, (λ x. refl, (λ x. refl, (λ x. refl, tt))))) refl
      (refl, omega arith, omega arith) (λ e. cc)

spaced_messages_settle_example :
    (final : Job) × (find_job
        (codes "j")
        (handle_all (at 10000 ∷ at 20000 ∷ at 30000 ∷ []) message queue).jobs
      ≡ some final)
    × IsSettled final.status final.attempts
unfolding find_job text_eq new_job
spaced_messages_settle_example =
    spaced_messages_settle (at 10000 ∷ at 20000 ∷ at 30000 ∷ []) message queue
      (new_job (codes "j") ledger_reconcile none) 2000 0 (λ x. refl, (λ x. refl, (λ x. refl, tt)))
      refl (refl, omega arith, omega arith) (λ e. cc) tt
      ((refl, omega arith, (refl, omega arith, (refl, omega arith, tt)))) (omega arith)

scheduled_retry_refused_example :
    let after =
      finish_job
        (at 1000)
        at_work
        true
        (some (codes "offline"))
        (record { jobs = at_work ∷ []; streams = some redis }) in
    (after.streams
      ≡ some (record redis {
        retry_set =
            schedule_retry
              (record { available_at = 3000; job_id = codes "j"; type = ledger_reconcile })
              [];
      }))
    × (claim_job_by_id (at 3000) (codes "j") after.jobs ≡ (none, after.jobs))
unfolding find_job text_eq retry_delay_ms
scheduled_retry_refused_example =
    scheduled_retry_refused (at 1000) (at 3000) at_work (codes "offline") true
      (record { jobs = at_work ∷ []; streams = none }) redis refl (omega arith) refl refl
      (omega arith) refl refl
