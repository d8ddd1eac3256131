-- ===== src/Settlement/Reconcile.antt =====
-- `startReconciliation` and `performReconciliation`: the first phase.
use orbi_insitutional_core_v.Prelude.{
  ℕ, Bool, true, false, not, ◌&&◌, ◌||◌, if◌then◌else◌, Option, none, some,
}
use orbi_insitutional_core_v.Prelude.Text.{Text, text_eq}
use orbi_insitutional_core_v.Settlement.State.{
  Phase, external_pending, reconciliation_running, ready_for_internal_commit, internally_settled,
  same, FailureReason, reconciliation_transition_denied, reconciliation_verification_failed,
  provider_confirmation_required, provider_confirmation_already_applied, Settlement, Db,
  SettlementError, not_found, db_error, cannot_reconcile, Action, pure, throw, or_throw, try_catch,
  ◌>>=◌, ◌>>◌, modify, throw_if, read, update, audit_log, swallow, reconciliation_passed,
  reconciliation_failed, transition_lifecycle_phase, record_failure, get_provider_confirmation_key,
  get_trusted_provider_proof,
}

-- What a run meets: the clock, the environment, what other workers do before each of the three updates,
-- and what fails: 0 to 2 these updates, 3 and 4 the logs of the two transitions, 5 that of the success, 6
-- the update and 7 the log of `recordFailure`, 8 the log of the refusal, 9 and 10 the update and the log of
-- `recordFailure` in the `catch` block.
pub record Env : Type 0 where
  pub now : ℕ
  pub allow_stub : Bool
  pub others : ℕ → Db → Db
  pub faults : ℕ → Bool

pub record Reconciliation : Type 0 where
  pub verified : Bool
  pub source : Text
  pub reason : Option FailureReason

unfoldable pub perform_reconciliation : Bool → Settlement → Text → Reconciliation
perform_reconciliation allow_stub s key =
    let proof = get_trusted_provider_proof allow_stub s key in
    if not proof.verified
    then record {
      verified = false;
      source = proof.source;
      reason = some provider_confirmation_required;
    }
    else record { verified = true; source = proof.source; reason = none }

abbrev pub is_ready_or_settled : Phase → Bool
is_ready_or_settled p = same p ready_for_internal_commit || same p internally_settled

abbrev failure_of : Option FailureReason → FailureReason
failure_of (some provider_confirmation_required) = provider_confirmation_required
failure_of _ = reconciliation_verification_failed

-- The provider confirmed this settlement before.
unfoldable pub is_already_applied : Settlement → Bool
is_already_applied s =
    text_eq s.metadata.provider_confirmation_key (get_provider_confirmation_key s)
    && s.metadata.provider_confirmation_applied_at

-- The end of the `try` block, once the result is known: the branch of a verified result, and the
-- other.
unfoldable pub pass_reconciliation : Env → Settlement → Reconciliation → Action Bool
pass_reconciliation env s result = do
  modify (env.others 2)
  transition_lifecycle_phase (env.faults 2) (env.faults 4) env.now reconciliation_running
      ready_for_internal_commit
      (λ row. record row {
        metadata = record s.metadata {
          provider_confirmation_key = get_provider_confirmation_key s;
          provider_confirmation_source = result.source;
        };
      })
  audit_log (env.faults 5) reconciliation_passed
  pure true

unfoldable pub refuse_reconciliation : Env → Reconciliation → Action Bool
refuse_reconciliation env result = do
  record_failure (env.faults 6) (env.faults 7) (failure_of result.reason)
  audit_log (env.faults 8) reconciliation_failed
  pure false

-- The middle of the `try` block, from an external payment that is pending.
unfoldable pub run_reconciliation : Env → Settlement → Action Bool
run_reconciliation env s = do
  modify (env.others 0)
  transition_lifecycle_phase (env.faults 0) (env.faults 3) env.now external_pending
      reconciliation_running (λ row. record row { metadata = s.metadata })
  let result = perform_reconciliation env.allow_stub s (get_provider_confirmation_key s)
  modify (env.others 1)
  throw_if (env.faults 1) db_error
  modify (update (λ row. record row { reconciliation_verified = some result.verified }))
  if result.verified then pass_reconciliation env s result else refuse_reconciliation env result

unfoldable pub refuse_again : Env → Action Bool
refuse_again env = do
  record_failure (env.faults 6) (env.faults 7) provider_confirmation_already_applied
  pure false

unfoldable pub reconcile_settlement : Env → Settlement → Action Bool
reconcile_settlement env s =
    if is_already_applied s
    then (if is_ready_or_settled s.current_phase then pure true else refuse_again env)
    else if is_ready_or_settled s.current_phase
    then pure true
    else if not (same s.current_phase external_pending)
    then throw (cannot_reconcile s.current_phase)
    else run_reconciliation env s

-- The `catch` block.
abbrev pub recover_reconciliation : Env → SettlementError → Action Bool
recover_reconciliation env e =
    swallow (record_failure (env.faults 9) (env.faults 10) reconciliation_transition_denied)
    >> throw e

unfoldable pub start_reconciliation : Env → Action Bool
start_reconciliation env =
    try_catch (do found ← read; s ← or_throw found not_found; reconcile_settlement env s)
      (recover_reconciliation env)
