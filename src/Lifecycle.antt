-- ===== src/Lifecycle.antt =====
-- The status of a ledger transaction: `TransactionStateMachine` of backend/ledger/stateMachine.ts.
-- `emit` on the event bus appends to a log; the event's metadata and time are left out.
pub mod Graph
pub mod Progress
mod Tests
use orbi_insitutional_core_v.Prelude.{
  ℕ, ◌≡◌, arith, ◌==◌, Bool, true, false, List, [], ◌∷◌, ◌++◌, any, if◌then◌else◌,
}

-- `TransactionStatus` of types.ts
pub data Status : Type 0 where
  created pending authorized processing settled completed : Status
  failed reversed refunded cancelled held_for_review : Status

-- Statuses are texts in the source; they are told apart by their place in the type.
abbrev pub place : Status → ℕ
place created = 0
place pending = 1
place authorized = 2
place processing = 3
place settled = 4
place completed = 5
place failed = 6
place reversed = 7
place refunded = 8
place cancelled = 9
place held_for_review = 10

-- `===` on statuses
abbrev pub same : Status → Status → Bool
same s t = place s == place t

pub same→eq : (s t : Status) → same s t ≡ true → s ≡ t
same→eq s t h = ground arith

pub valid_transitions : Status → List Status
valid_transitions created = created ∷ pending ∷ failed ∷ cancelled ∷ held_for_review ∷ []
valid_transitions pending =
    authorized ∷ failed ∷ cancelled ∷ held_for_review ∷ processing ∷ completed ∷ []
valid_transitions authorized = processing ∷ failed ∷ reversed ∷ completed ∷ held_for_review ∷ []
valid_transitions processing = settled ∷ failed ∷ reversed ∷ completed ∷ held_for_review ∷ []
valid_transitions settled = completed ∷ reversed ∷ refunded ∷ []
valid_transitions completed = reversed ∷ refunded ∷ held_for_review ∷ []
valid_transitions failed = []
valid_transitions reversed = refunded ∷ []
valid_transitions refunded = []
valid_transitions cancelled = []
valid_transitions held_for_review =
    pending ∷ authorized ∷ failed ∷ cancelled ∷ completed ∷ reversed ∷ []

-- Every status is a key of the table, so the source's test for a missing row never fires.
unfoldable pub is_valid_transition : Status → Status → Bool
unfolding valid_transitions
is_valid_transition current next = any (λ s. same s next) (valid_transitions current)

-- An event on the bus: the old and the new status of one transaction.
pub record StatusEvent : Type 0 where
  pub old_state : Status
  pub new_state : Status

pub data Outcome : Type 0 where
  moved : List StatusEvent → Outcome
  invalid_state_transition : Status → Status → Outcome

-- `transition`, on the events emitted so far
unfoldable pub transition : Status → Status → List StatusEvent → Outcome
transition current next events =
    if same current next
    then moved events
    else if is_valid_transition current next
    then moved (events ++ record { old_state = current; new_state = next } ∷ [])
    else invalid_state_transition current next

unfoldable pub get_next_state : Status → Bool → Status
get_next_state current false = failed
get_next_state created true = pending
get_next_state pending true = authorized
get_next_state authorized true = processing
get_next_state processing true = settled
get_next_state settled true = completed
get_next_state current true = current

unfoldable pub is_terminal : Status → Bool
is_terminal s = any (λ t. same t s) (completed ∷ failed ∷ cancelled ∷ refunded ∷ [])
