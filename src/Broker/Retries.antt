-- ===== src/Broker/Retries.antt =====
-- The retry that a failure schedules in Redis, and the claim at its time.
use orbi_insitutional_core_v.Prelude.{
  ℕ, zero, suc, ◌+◌, ◌<◌, ◌≡◌, refl, arith, Bool, true, false, none, some, ltb,
}
use orbi_insitutional_core_v.Prelude.Text.{Text}
use orbi_insitutional_core_v.Broker.{
  Job, BrokerEnv, is_job_recoverable, max_attempts_of, is_recoverable_in, find_job, write_job,
  claim_job_by_id, retry_delay_ms, is_timestamp_older_than, is_retry_window_elapsed,
}
use orbi_insitutional_core_v.Broker.Streams.{Streams, schedule_retry}
use orbi_insitutional_core_v.Broker.Work.{Queue, finish_job, failed_job, after_failure}
use orbi_insitutional_core_v.Broker.Claims.{claim_refused, find_job-write_job}

delays_grow :
    (base n : ℕ) → 0 < base → n < 2 → retry_delay_ms base (n + 1) < retry_delay_ms base (n + 1 + 1)
unfolding retry_delay_ms
delays_grow base zero b h = omega arith
delays_grow base (suc zero) b h = omega arith
delays_grow base (suc (suc n)) b h = let none_left : ⊥ = omega arith in elim none_left [ ]

attempts_left :
    (job : Job)
    → job.max_attempts ≡ 3
    → job.attempts < 2
    → ltb (job.attempts + 1) (max_attempts_of job) ≡ true
unfolding max_attempts_of
attempts_left job h n = rw h (ground arith)

-- The claim waits for the delay of the next attempt, the retry for that of the one that failed.
too_early :
    (env later : BrokerEnv) (job : Job) (error : Text)
    → 0 < env.retry_base_ms
    → later.retry_base_ms ≡ env.retry_base_ms
    → later.now ≡ env.now + retry_delay_ms env.retry_base_ms (job.attempts + 1)
    → job.attempts < 2
    → is_job_recoverable later (failed_job env job error) ≡ false
unfolding is_job_recoverable is_recoverable_in failed_job is_retry_window_elapsed
    is_timestamp_older_than
too_early env later job error base same at n =
    rw (same, at) (ground (arith, delays_grow env.retry_base_ms job.attempts base n))

-- When an attempt fails that is not the last, Redis is asked for a retry after the delay of that
-- attempt; and if the message comes at that time, the claim refuses the job, since it waits for
-- the longer delay of the next attempt.
pub scheduled_retry_refused :
    (env later : BrokerEnv) (job : Job) (error : Text) (b : Bool) (q : Queue) (r : Streams)
    → job.max_attempts ≡ 3
    → job.attempts < 2
    → env.schedule_fails job.id ≡ false
    → find_job job.id q.jobs ≡ some job
    → 0 < env.retry_base_ms
    → later.retry_base_ms ≡ env.retry_base_ms
    → later.now ≡ env.now + retry_delay_ms env.retry_base_ms (job.attempts + 1)
    → let after = finish_job env job b (some error) (record q { streams = some r }) in
      (after.streams
        ≡ some (record r {
          retry_set =
              schedule_retry
                (record { available_at = later.now; job_id = job.id; type = job.type })
                r.retry_set;
        }))
      × (claim_job_by_id later job.id after.jobs ≡ (none, after.jobs))
unfolding finish_job failed_job after_failure max_attempts_of
scheduled_retry_refused env later job error b q r h n sf e base same at =
    let left : ltb (job.attempts + 1) (max_attempts_of job) ≡ true = attempts_left job h n in
    let waiting = find_job-write_job job.id q.jobs job (failed_job env job error) refl e in
    (
      rw (left, sf, at) refl,
      claim_refused later job.id (write_job (failed_job env job error) q.jobs)
          (failed_job env job error) waiting (too_early env later job error base same at n),
    )
