-- ===== src/Lifecycle/Progress.antt =====
-- `getNextState` against the table of transitions.
use orbi_insitutional_core_v.Prelude.{refl, ◌≢◌, ◌↔◌, false, arith}
use orbi_insitutional_core_v.Lifecycle.{
  Status, created, pending, authorized, processing, settled, completed, failed, reversed, refunded,
  cancelled, held_for_review, transition, is_valid_transition, get_next_state,
}
use orbi_insitutional_core_v.Lifecycle.Graph.{Accepts}

-- A failed step is accepted by `transition` exactly where the status is not settled, completed,
-- reversed, refunded or cancelled.
pub failure_accepted_iff :
    (s : Status)
    → Accepts s (get_next_state s false)
      ↔ ((s ≢ settled) × (s ≢ completed) × (s ≢ reversed) × (s ≢ refunded) × (s ≢ cancelled))
unfolding get_next_state transition is_valid_transition
failure_accepted_iff created = (λ a. ground arith, λ h. (_, refl))
failure_accepted_iff pending = (λ a. ground arith, λ h. (_, refl))
failure_accepted_iff authorized = (λ a. ground arith, λ h. (_, refl))
failure_accepted_iff processing = (λ a. ground arith, λ h. (_, refl))
failure_accepted_iff failed = (λ a. ground arith, λ h. (_, refl))
failure_accepted_iff held_for_review = (λ a. ground arith, λ h. (_, refl))
failure_accepted_iff _ = (λ a. cc (a.1), λ h. ground arith)
