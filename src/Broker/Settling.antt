-- ===== src/Broker/Settling.antt =====
-- How a job ends whose messages come far enough apart, and what becomes of the retry that a failure
-- schedules.
use orbi_insitutional_core_v.Prelude.{
  ℕ, zero, suc, ◌+◌, ◌*◌, ◌<◌, ◌≤◌, ◌≡◌, ◌≢◌, refl, ◌⊎◌, inl, inr, arith, true, false, Option, none,
  some, List, [], ◌∷◌, All, length, Bool-cases, ltb,
}
use orbi_insitutional_core_v.Prelude.Text.{Text}
use orbi_insitutional_core_v.Broker.{
  Job, JobStatus, pending, processing, completed, failed, BrokerEnv, is_job_recoverable,
  max_attempts_of, is_recoverable_in, find_job, retry_delay_ms, is_timestamp_older_than,
  is_retry_window_elapsed,
}
use orbi_insitutional_core_v.Broker.Streams.{StreamMessage}
use orbi_insitutional_core_v.Broker.Work.{
  Queue, execute, after_work, completed_job, failed_job, process_stream_job_message,
}
use orbi_insitutional_core_v.Broker.Claims.{Alone, taken}
use orbi_insitutional_core_v.Broker.Attempts.{IsBounded, HasRoom, due-IsHeld}
use orbi_insitutional_core_v.Broker.Executions.{ended, ended_lem, message_refused, message_due}

-- The queue after the messages, each at its time.
pub handle_all : List BrokerEnv → StreamMessage → Queue → Queue
handle_all [] m q = q
handle_all (env ∷ envs) m q = handle_all envs m (process_stream_job_message env m q)

-- Each message comes four base delays or more after the end of the work on the one before, the first after
-- `last`.
abbrev pub AreSpaced : ℕ → ℕ → List BrokerEnv → Type 0
AreSpaced base last [] = Unit
AreSpaced base last (env ∷ envs) =
    (env.retry_base_ms ≡ base)
    × (last + base * 4 ≤ env.now)
    × AreSpaced base (env.now + env.work_ms) envs

abbrev pub IsUntil : ℕ → Option ℕ → Type 0
IsUntil last none = Unit
IsUntil last (some t) = t ≤ last

-- Completed, or failed for the last time.
abbrev pub IsSettled : JobStatus → ℕ → Type 0
IsSettled completed n = Unit
IsSettled failed n = n ≡ 3
IsSettled s n = ⊥

settled_rests :
    (env : BrokerEnv) (s : JobStatus) (job : Job)
    → job.max_attempts ≡ 3
    → IsSettled s job.attempts
    → is_recoverable_in env s job ≡ false
unfolding is_recoverable_in max_attempts_of
settled_rests env pending job h k = elim k [ ]
settled_rests env processing job h k = elim k [ ]
settled_rests env completed job h k = refl
settled_rests env failed job h k = rw (h, k) refl

settled_stays :
    (envs : List BrokerEnv) (m : StreamMessage) (q : Queue) (row : Job)
    → find_job m.job_id q.jobs ≡ some row
    → row.max_attempts ≡ 3
    → IsSettled row.status row.attempts
    → find_job m.job_id (handle_all envs m q).jobs ≡ some row
unfolding handle_all is_job_recoverable
settled_stays [] m q row e h k = e
settled_stays (env ∷ envs) m q row e h k =
    settled_stays envs m (process_stream_job_message env m q) row
      (message_refused env m q row e (settled_rests env row.status row h k)).1 h k

-- A job that waits is settled, or due four base delays after its last change.
delay_within : (base n : ℕ) → n < 3 → retry_delay_ms base (n + 1) ≤ base * 4
unfolding retry_delay_ms
delay_within base zero h = omega arith
delay_within base (suc zero) h = omega arith
delay_within base (suc (suc zero)) h = omega arith
delay_within base (suc (suc (suc n))) h = let none_left : ⊥ = omega arith in elim none_left [ ]

window_elapsed :
    (env : BrokerEnv) (base last n : ℕ) (t : Option ℕ)
    → n < 3
    → IsUntil last t
    → env.retry_base_ms ≡ base
    → last + base * 4 ≤ env.now
    → is_retry_window_elapsed env n t ≡ true
unfolding is_retry_window_elapsed is_timestamp_older_than
window_elapsed env base last n none h u b l = refl
window_elapsed env base last n (some t) h u b l = rw b (ground (arith, delay_within base n h))

IsSettled-or_due :
    (env : BrokerEnv) (base last : ℕ) (s : JobStatus) (job : Job)
    → (job.max_attempts ≡ 3) × (job.attempts ≤ 3)
    → s ≢ processing
    → IsUntil last job.updated_at
    → env.retry_base_ms ≡ base
    → last + base * 4 ≤ env.now
    → IsSettled s job.attempts ⊎ (is_recoverable_in env s job ≡ true)
unfolding is_recoverable_in max_attempts_of
IsSettled-or_due env base last pending job h idle u b l = inr refl
IsSettled-or_due env base last processing job h idle u b l = absurd (idle refl)
IsSettled-or_due env base last completed job h idle u b l = inl tt
IsSettled-or_due env base last failed job h idle u b l = elim (Bool-cases (ltb job.attempts 3)) [
  | inr e ↦ inl (ground arith)
  | inl e ↦
      let within : job.attempts < 3 = ground arith in
      inr (rw (h.0, e) (window_elapsed env base last job.attempts job.updated_at within u b l))
]

full-IsSettled : (s : JobStatus) (n : ℕ) → HasRoom s n → s ≢ processing → 3 ≤ n → IsSettled s n
full-IsSettled pending n room idle h = omega arith
full-IsSettled processing n room idle h = idle refl
full-IsSettled completed n room idle h = tt
full-IsSettled failed n room idle h = omega arith

-- An end of the work settles the job or uses up an attempt, at the time of the call.
ended_cases :
    (env : BrokerEnv) (job : Job) (o : Option Text)
    → let row = ended env job o in
      (IsSettled row.status row.attempts ⊎ (row.attempts ≡ job.attempts + 1))
      × IsUntil env.now row.updated_at
unfolding completed_job failed_job
ended_cases env job none = (inl tt, omega arith)
ended_cases env job (some error) = (inr refl, omega arith)

-- A job that no worker holds is completed, or has failed three times, after as many messages as it
-- has attempts left, handled by one worker alone at the table, if each comes four base delays or
-- more after the end of the work on the one before, and the first after the last change of the
-- row.
pub spaced_messages_settle :
    (envs : List BrokerEnv) (m : StreamMessage) (q : Queue) (row : Job) (base last : ℕ)
    → All Alone envs
    → find_job m.job_id q.jobs ≡ some row
    → IsBounded row
    → row.status ≢ processing
    → IsUntil last row.updated_at
    → AreSpaced base last envs
    → 3 ≤ length envs + row.attempts
    → (final : Job) × (find_job m.job_id (handle_all envs m q).jobs ≡ some final)
      × IsSettled final.status final.attempts
unfolding handle_all is_job_recoverable
spaced_messages_settle [] m q row base last a e h idle u sp enough =
    (row, e, full-IsSettled row.status row.attempts h.2 idle (omega (arith, enough)))
spaced_messages_settle (env ∷ envs) m q row base last a e h idle u sp enough =
    elim (IsSettled-or_due env base last row.status row (h.0, h.1) idle u sp.0 sp.1) [
      | inl k ↦ (row, settled_stays (env ∷ envs) m q row e h.0 k, k)
      | inr b ↦
          let outcome = execute env (taken env row) in
          let k = message_due env m q row a.0 e b in
          let l =
            ended_lem (after_work env) (taken env row) outcome
              (due-IsHeld env row.status row b h) in
          let c = ended_cases (after_work env) (taken env row) outcome in
          let next : Queue = process_stream_job_message env m q in
          let row' : Job = ended (after_work env) (taken env row) outcome in
          elim c.0 [
            | inl settled ↦ (row', settled_stays envs m next row' k.1 l.0.0 settled, settled)
            | inr more ↦
                spaced_messages_settle envs m next row' base (env.now + env.work_ms) a.1 k.1 l.0 l.1
                  c.1 sp.2 (omega (arith, enough, more))
          ]
    ]
