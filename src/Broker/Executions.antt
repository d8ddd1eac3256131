-- ===== src/Broker/Executions.antt =====
-- One worker that handles the messages of one job: how often the job runs, and how it ends.
use orbi_insitutional_core_v.Prelude.{
  ℕ, ◌+◌, ◌<◌, ◌≤◌, ◌≡◌, ◌≢◌, refl, inl, inr, arith, Bool, true, false, Option, none, some, List,
  [], ◌∷◌, All, Bool-cases,
}
use orbi_insitutional_core_v.Prelude.Text.{Text}
use orbi_insitutional_core_v.Broker.{
  Job, JobStatus, pending, processing, completed, failed, BrokerEnv, is_job_recoverable,
  is_recoverable_in, find_job, write_job, claim_job_by_id,
}
use orbi_insitutional_core_v.Broker.Streams.{StreamMessage}
use orbi_insitutional_core_v.Broker.Work.{
  Queue, execute, after_work, finish_job, completed_job, failed_job, execute_claimed_job,
  execute_if_claimed, process_stream_job_message,
}
use orbi_insitutional_core_v.Broker.Claims.{
  Alone, taken, claim_due, claim_refused, find_job-id, find_job-write_job,
}
use orbi_insitutional_core_v.Broker.Attempts.{IsHeld, IsBounded, due-IsHeld}

abbrev count : Option Job → ℕ
count none = 0
count (some job) = 1

-- The runs of the job over the calls, each with its time and its outcome.
pub executions : List BrokerEnv → StreamMessage → Queue → ℕ
executions [] m q = 0
executions (env ∷ envs) m q =
    count (claim_job_by_id env m.job_id q.jobs).0
    + executions envs m (process_stream_job_message env m q)

abbrev pub ended : BrokerEnv → Job → Option Text → Job
ended env job none = completed_job env job
ended env job (some error) = failed_job env job error

written :
    (env : BrokerEnv) (id : Text) (job row : Job) (b : Bool) (o : Option Text) (q : Queue)
    → job.id ≡ id
    → find_job id q.jobs ≡ some row
    → find_job id (finish_job env job b o q).jobs ≡ some (ended env job o)
unfolding finish_job completed_job failed_job
written env id job row b none q h e = find_job-write_job id q.jobs row (completed_job env job) h e
written env id job row b (some error) q h e =
    find_job-write_job id q.jobs row (failed_job env job error) h e

-- A message leaves a row that is not due as it is, and runs one that is.
pub message_refused :
    (env : BrokerEnv) (m : StreamMessage) (q : Queue) (row : Job)
    → find_job m.job_id q.jobs ≡ some row
    → is_job_recoverable env row ≡ false
    → (count (claim_job_by_id env m.job_id q.jobs).0 ≡ 0)
      × (find_job m.job_id (process_stream_job_message env m q).jobs ≡ some row)
unfolding process_stream_job_message execute_if_claimed
message_refused env m q row e b = rw (claim_refused env m.job_id q.jobs row e b) (refl, e)

pub message_due :
    (env : BrokerEnv) (m : StreamMessage) (q : Queue) (row : Job)
    → Alone env
    → find_job m.job_id q.jobs ≡ some row
    → is_job_recoverable env row ≡ true
    → (count (claim_job_by_id env m.job_id q.jobs).0 ≡ 1)
      × (find_job m.job_id (process_stream_job_message env m q).jobs
          ≡ some (ended (after_work env) (taken env row) (execute env (taken env row))))
unfolding process_stream_job_message execute_if_claimed execute_claimed_job
message_due env m q row a e b =
    let own = find_job-id m.job_id q.jobs row e in
    rw (claim_due env m.job_id q.jobs row a e b) (
      refl,
      written (after_work env) m.job_id (taken env row) (taken env row) true
          (execute env (taken env row)) (record q { jobs = write_job (taken env row) q.jobs }) own
          (find_job-write_job m.job_id q.jobs row (taken env row) own e),
    )

-- The attempts that are gone: all, for a job that is completed.
abbrev used : JobStatus → ℕ → ℕ
used completed n = 3
used s n = n

used-attempts : (s : JobStatus) (n : ℕ) → n ≤ 3 → n ≤ used s n
used-attempts pending n h = omega arith
used-attempts processing n h = omega arith
used-attempts completed n h = h
used-attempts failed n h = omega arith

used_within : (s : JobStatus) (n : ℕ) → n ≤ 3 → used s n ≤ 3
used_within pending n h = h
used_within processing n h = h
used_within completed n h = omega arith
used_within failed n h = h

due-used :
    (env : BrokerEnv) (s : JobStatus) (job : Job) (n : ℕ)
    → is_recoverable_in env s job ≡ true
    → used s n ≡ n
unfolding is_recoverable_in
due-used env pending job n b = refl
due-used env processing job n b = refl
due-used env completed job n b = cc
due-used env failed job n b = refl

-- An end of the work uses up an attempt, leaves the row sound, and nobody at work.
pub ended_lem :
    (env : BrokerEnv) (job : Job) (o : Option Text)
    → IsHeld job
    → let row = ended env job o in
      IsBounded row × (row.status ≢ processing) × (job.attempts < used row.status row.attempts)
unfolding completed_job failed_job
ended_lem env job none h = ((h.0, omega (arith, h.1), tt), (λ e. cc), h.1)
ended_lem env job (some error) h =
    ((h.0, omega (arith, h.1), omega (arith, h.1)), (λ e. cc), omega arith)

executions-used :
    (envs : List BrokerEnv) (m : StreamMessage) (q : Queue) (row : Job)
    → All Alone envs
    → find_job m.job_id q.jobs ≡ some row
    → IsBounded row
    → row.status ≢ processing
    → executions envs m q + used row.status row.attempts ≤ 3
unfolding executions is_job_recoverable
executions-used [] m q row a e h idle = omega (arith, used_within row.status row.attempts h.1)
executions-used (env ∷ envs) m q row a e h idle = elim (Bool-cases (is_job_recoverable env row)) [
  | inr b ↦
      let k = message_refused env m q row e b in
      let rest = executions-used envs m (process_stream_job_message env m q) row a.1 k.1 h idle in
      omega (arith, k.0, rest)
  | inl b ↦
      let k = message_due env m q row a.0 e b in
      let l =
        ended_lem (after_work env) (taken env row) (execute env (taken env row))
          (due-IsHeld env row.status row b h) in
      let rest =
        executions-used envs m (process_stream_job_message env m q)
          (ended (after_work env) (taken env row) (execute env (taken env row))) a.1 k.1 l.0 l.1 in
      omega (arith, k.0, l.2, rest, due-used env row.status row row.attempts b)
]

-- A job that no worker holds is run at most as often as it has attempts left of its three, however
-- many messages for it one worker handles, alone at the table, and whenever they come.
pub executions_bound :
    (envs : List BrokerEnv) (m : StreamMessage) (q : Queue) (row : Job)
    → All Alone envs
    → find_job m.job_id q.jobs ≡ some row
    → IsBounded row
    → row.status ≢ processing
    → executions envs m q + row.attempts ≤ 3
executions_bound envs m q row a e h idle =
    omega
      (arith, executions-used envs m q row a e h idle, used-attempts row.status row.attempts h.1)
