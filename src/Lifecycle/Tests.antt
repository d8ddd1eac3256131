-- ===== src/Lifecycle/Tests.antt =====
-- The theorems on transaction statuses at single inputs.
use orbi_insitutional_core_v.Prelude.{refl, ◌≢◌, ◌↔◌, false, [], ◌∷◌}
use orbi_insitutional_core_v.Lifecycle.{
  Status, pending, authorized, settled, completed, failed, reversed, refunded, cancelled,
  StatusEvent, transition, is_valid_transition, get_next_state,
}
use orbi_insitutional_core_v.Lifecycle.Graph.{
  Accepts, Logged, empty, called, AreMoves, Logged-AreMoves,
}
use orbi_insitutional_core_v.Lifecycle.Progress.{failure_accepted_iff}

abbrev event : Status → Status → StatusEvent
event s t = record { old_state = s; new_state = t }

-- A transaction is authorised; a caller that is behind reports it as failed from `pending`.
behind-Logged : Logged (event pending authorized ∷ event pending failed ∷ [])
unfolding transition is_valid_transition
behind-Logged =
    called pending failed {events = event pending authorized ∷ []}
      {emitted = event pending authorized ∷ event pending failed ∷ []}
      (called pending authorized {events = []} {emitted = event pending authorized ∷ []} empty refl)
      refl

Logged-AreMoves_example : AreMoves (event pending authorized ∷ event pending failed ∷ [])
Logged-AreMoves_example =
    Logged-AreMoves {events = event pending authorized ∷ event pending failed ∷ []} behind-Logged

failure_accepted_iff_example : Accepts settled (get_next_state settled false) ↔ (
    (settled ≢ settled)
    × (settled ≢ completed)
    × (settled ≢ reversed)
    × (settled ≢ refunded)
    × (settled ≢ cancelled))
failure_accepted_iff_example = failure_accepted_iff settled
