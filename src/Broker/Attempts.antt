-- ===== src/Broker/Attempts.antt =====
-- How often a job is attempted, over the steps of any number of workers: each claims a job, where nobody
-- changes the table between the read and the update of the claim, and writes the end of its work later, also
-- after others have claimed the job anew.
use mathlib.Core.List.{Memᴰ}
use mathlib.Core.List.Memᴰ
use orbi_insitutional_core_v.Prelude.{
  ℕ, ◌<◌, ◌≤◌, ◌≡◌, arith, Bool, true, ◌&&◌, Option, none, some, List, [], ◌∷◌,
}
use orbi_insitutional_core_v.Prelude.Text.{Text}
use orbi_insitutional_core_v.Broker.{
  is_retry_window_elapsed, ltb, Job, JobType, JobStatus, pending, processing, completed, failed,
  BrokerEnv, max_attempts_of, is_recoverable_in, claim_job_by_id,
}
use orbi_insitutional_core_v.Broker.Streams.{Streams}
use orbi_insitutional_core_v.Broker.Work.{Queue, push, execute_claimed_job}
use orbi_insitutional_core_v.Broker.Claims.{Alone}

abbrev pub HasRoom : JobStatus → ℕ → Type 0
HasRoom pending n = n < 3
HasRoom processing n = n < 3
HasRoom completed n = Unit
HasRoom failed n = n ≤ 3

-- At most three attempts have failed, and fewer while the job is pending or being processed.
abbrev pub IsBounded : Job → Type 0
IsBounded job = (job.max_attempts ≡ 3) × (job.attempts ≤ 3) × HasRoom job.status job.attempts

-- What a worker holds may still fail once.
abbrev pub IsHeld : Job → Type 0
IsHeld job = (job.max_attempts ≡ 3) × (job.attempts < 3)

abbrev pub add_claim : Option Job → List Job → List Job
add_claim none claims = claims
add_claim (some job) claims = job ∷ claims

-- The queue, and every claim that was made so far.
pub data Reach : Queue → List Job → Type 0 where
  started : (streams : Option Streams) → Reach (record { jobs = []; streams = streams }) []
  pushed :
      {q : Queue} {claims : List Job} (env : BrokerEnv) (id : Text) (type : JobType)
      (organization_id : Option Text)
      → Reach q claims
      → Reach (push env id type organization_id q) claims
  claimed :
      {q : Queue} {claims : List Job} (env : BrokerEnv) (id : Text)
      → Alone env
      → Reach q claims
      → Reach
          (record q { jobs = (claim_job_by_id env id q.jobs).1 })
          (add_claim (claim_job_by_id env id q.jobs).0 claims)
  worked :
      {q : Queue} {claims : List Job} (env : BrokerEnv) (job : Job) (has_dead_letters : Bool)
      → Memᴰ job claims
      → Reach q claims
      → Reach (execute_claimed_job env job has_dead_letters q) claims
  streamed :
      {q : Queue} {claims : List Job} (streams : Option Streams)
      → Reach q claims
      → Reach (record q { streams = streams }) claims

failed_room :
    (job : Job)
    → job.max_attempts ≡ 3
    → (b : Bool) → ltb job.attempts (max_attempts_of job) && b ≡ true
    → job.attempts < 3
unfolding max_attempts_of
failed_room job h b e = ground (arith, rw h at e)

-- A job that is due has an attempt left.
pub due-IsHeld :
    (env : BrokerEnv) (s : JobStatus) (job : Job)
    → is_recoverable_in env s job ≡ true
    → (job.max_attempts ≡ 3) × (job.attempts ≤ 3) × HasRoom s job.attempts
    → IsHeld job
unfolding is_recoverable_in max_attempts_of
due-IsHeld env pending job e h = (h.0, h.2)
due-IsHeld env processing job e h = (h.0, h.2)
due-IsHeld env completed job e h = cc
due-IsHeld env failed job e h =
    (h.0, failed_room job h.0 (is_retry_window_elapsed env job.attempts job.updated_at) e)
