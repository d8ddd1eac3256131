-- ===== src/Broker/Claims.antt =====
-- The claim of a job: what it takes, and what two workers get who have read the same row.
use orbi_insitutional_core_v.Prelude.{
  ◌≡◌, refl, ap, ◌∙◌, ◌⊎◌, inl, inr, true, false, none, some, List, [], ◌∷◌, if◌then◌else◌,
  Bool-cases, Option-cases, sym,
}
use mathlib.Core.Option.{some-injective}
use orbi_insitutional_core_v.Prelude.Text.{Text, text_eq}
use orbi_insitutional_core_v.Prelude.Dict.{text_eq_iff}
use orbi_insitutional_core_v.Broker.{
  Job, JobStatus, pending, processing, completed, failed, BrokerEnv, is_job_recoverable, status_eq,
  find_job, write_job, claim_read, claim_update, claim_job_by_id,
}

-- The row as a claim leaves it.
abbrev pub taken : BrokerEnv → Job → Job
taken env row = record row { status = processing; updated_at = some env.now }

-- Nobody else changes the table between the read and the update of a claim.
abbrev pub Alone : BrokerEnv → Type 0
Alone env = (jobs : List Job) → env.between jobs ≡ jobs

-- A search, one row on.
pub find_job_next :
    (id : Text) (j row : Job) (js : List Job)
    → find_job id (j ∷ js) ≡ some row
    → ((j.id ≡ id) × (j ≡ row)) ⊎ ((text_eq j.id id ≡ false) × (find_job id js ≡ some row))
unfolding find_job
find_job_next id j row js e = elim (Bool-cases (text_eq j.id id)) [
  | inl b ↦ inl ((text_eq_iff j.id id).0 b, some-injective j row (rw b at e))
  | inr b ↦ inr (b, rw b at e)
]

pub find_job-id :
    (id : Text) (jobs : List Job) (row : Job) → find_job id jobs ≡ some row → row.id ≡ id
unfolding find_job
find_job-id id [] row e = cc
find_job-id id (j ∷ js) row e = elim (find_job_next id j row js e) [
  | inl k ↦ ap (λ x. x.id) (sym k.1) ∙ k.0
  | inr k ↦ find_job-id id js row k.1
]

pub find_job-write_job :
    (id : Text) (jobs : List Job) (row new : Job)
    → new.id ≡ id
    → find_job id jobs ≡ some row
    → find_job id (write_job new jobs) ≡ some new
unfolding find_job write_job
find_job-write_job id [] row new n e = cc
find_job-write_job id (j ∷ js) row new n e = elim (find_job_next id j row js e) [
  | inl k ↦
      let there = (text_eq_iff j.id new.id).1 (k.0 ∙ sym n) in
      let here = (text_eq_iff new.id id).1 n in rw (there, here) refl
  | inr k ↦
      rw (ap (text_eq j.id) n ∙ k.0, find_job) (rw k.0 (find_job-write_job id js row new n k.1))
]

status_eq_refl : (s : JobStatus) → status_eq s s ≡ true
status_eq_refl pending = refl
status_eq_refl processing = refl
status_eq_refl completed = refl
status_eq_refl failed = refl

-- The update finds the status that was read.
update_same :
    (env : BrokerEnv) (id : Text) (jobs : List Job) (row : Job)
    → find_job id jobs ≡ some row
    → claim_update env id row.status jobs ≡ (some (taken env row), write_job (taken env row) jobs)
unfolding claim_update
update_same env id jobs row e = rw (e, status_eq_refl row.status) refl

update_other :
    (env : BrokerEnv) (id : Text) (read : JobStatus) (jobs : List Job) (row : Job)
    → find_job id jobs ≡ some row
    → (claim_update env id read jobs).0
      ≡ (if status_eq row.status read then some (taken env row) else none)
unfolding claim_update
update_other env id read jobs row e = elim (Bool-cases (status_eq row.status read)) [
  | inl b ↦ rw (e, b) refl
  | inr b ↦ rw (e, b) refl
]

pub claim_due :
    (env : BrokerEnv) (id : Text) (jobs : List Job) (row : Job)
    → Alone env
    → find_job id jobs ≡ some row
    → is_job_recoverable env row ≡ true
    → claim_job_by_id env id jobs ≡ (some (taken env row), write_job (taken env row) jobs)
unfolding claim_job_by_id claim_read
claim_due env id jobs row a e b = rw (e, b, a jobs) (update_same env id jobs row e)

pub claim_refused :
    (env : BrokerEnv) (id : Text) (jobs : List Job) (row : Job)
    → find_job id jobs ≡ some row
    → is_job_recoverable env row ≡ false
    → claim_job_by_id env id jobs ≡ (none, jobs)
unfolding claim_job_by_id claim_read
claim_refused env id jobs row e b = rw (e, b) refl

-- A claim takes nothing, or a row that is due.
pub claim_cases :
    (env : BrokerEnv) (id : Text) (jobs : List Job)
    → Alone env
    → (claim_job_by_id env id jobs ≡ (none, jobs))
      ⊎ ((row : Job) × (find_job id jobs ≡ some row)
          × (is_job_recoverable env row ≡ true)
          × (claim_job_by_id env id jobs ≡ (some (taken env row), write_job (taken env row) jobs)))
unfolding claim_job_by_id claim_read
claim_cases env id jobs a = elim (Option-cases (find_job id jobs)) [
  | inl e ↦ inl (rw e refl)
  | inr k ↦ elim (Bool-cases (is_job_recoverable env k.0)) [
    | inl b ↦ inr (k.0, k.1, b, claim_due env id jobs k.0 a k.1 b)
    | inr b ↦ inl (claim_refused env id jobs k.0 k.1 b)
  ]
]

-- Of two workers who have both read a row before either updates it, the first gets the job, and
-- the second gets it exactly if the row was in the status `processing`.
pub second_claim :
    (first second : BrokerEnv) (id : Text) (jobs : List Job) (row : Job)
    → find_job id jobs ≡ some row
    → let after = claim_update first id row.status jobs in
      (after.0 ≡ some (taken first row))
      × ((claim_update second id row.status after.1).0
          ≡ (if status_eq processing row.status then some (taken second row) else none))
second_claim first second id jobs row e =
    let there = update_same first id jobs row e in
    let found = find_job-write_job id jobs row (taken first row) (find_job-id id jobs row e) e in
    rw there (
      refl,
      update_other second id row.status (write_job (taken first row) jobs) (taken first row) found,
    )
