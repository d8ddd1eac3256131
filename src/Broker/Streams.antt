-- ===== src/Broker/Streams.antt =====
-- The Redis side of the queue, as backend/infrastructure/RedisStreams.ts drives it: the stream of jobs,
-- the sorted set of retries, and the stream of dead letters.
use orbi_insitutional_core_v.Prelude.{
  ℕ, zero, suc, List, [], ◌∷◌, ◌++◌, if◌then◌else◌, ltb, leb, ◌==◌,
}
use orbi_insitutional_core_v.Prelude.Text.{Text, text_eq}
use orbi_insitutional_core_v.Broker.{Job, JobType}

pub record StreamMessage : Type 0 where
  pub stream_id : ℕ
  pub job_id : Text
  pub type : JobType

pub record Retry : Type 0 where
  pub available_at : ℕ
  pub job_id : Text
  pub type : JobType

pub record DeadLetter : Type 0 where
  pub job : Job
  pub attempts : ℕ
  pub error : Text

pub record Streams : Type 0 where
  pub next_id : ℕ
  pub stream : List StreamMessage
  pub retry_set : List Retry
  pub dead_letters : List DeadLetter

-- `XADD`
unfoldable pub publish : Text → JobType → Streams → Streams
publish job_id type r = record r {
  next_id = suc r.next_id;
  stream = r.stream ++ record { stream_id = r.next_id; job_id = job_id; type = type } ∷ [];
}

-- `XACK` and `XDEL`
unfoldable pub drop_message : ℕ → List StreamMessage → List StreamMessage
drop_message id [] = []
drop_message id (m ∷ ms) =
    let rest = drop_message id ms in if m.stream_id == id then rest else m ∷ rest

unfoldable pub drop_retry : Text → List Retry → List Retry
unfolding text_eq
drop_retry id [] = []
drop_retry id (x ∷ xs) =
    let rest = drop_retry id xs in if text_eq x.job_id id then rest else x ∷ rest

unfoldable pub place_retry : Retry → List Retry → List Retry
place_retry x [] = x ∷ []
place_retry x (y ∷ ys) =
    let rest = place_retry x ys in
    if ltb x.available_at y.available_at then x ∷ y ∷ ys else y ∷ rest

-- `ZADD`: the member, which the job determines, gets the new time.
unfoldable pub schedule_retry : Retry → List Retry → List Retry
unfolding place_retry drop_retry
schedule_retry x xs = place_retry x (drop_retry x.job_id xs)

-- `drainDueRetries`: the retries that are due, up to a limit, and the rest.
unfoldable pub drain_due_retries : ℕ → ℕ → List Retry → List Retry × List Retry
drain_due_retries now zero xs = ([], xs)
drain_due_retries now (suc limit) [] = ([], [])
drain_due_retries now (suc limit) (x ∷ xs) =
    let rest : List Retry × List Retry = drain_due_retries now limit xs in
    if leb x.available_at now then (x ∷ rest.0, rest.1) else ([], x ∷ xs)
