-- ===== src/Settlement/Tests.antt =====
-- Runs of the settlement lifecycle, and the theorems at single inputs.
use mathlib.Core.Path.{subst}
use orbi_insitutional_core_v.Prelude.{some, ◌==◌, ◌≡◌, refl, true, false, none, [], arith, length}
use orbi_insitutional_core_v.Prelude.Int.{ℤ, pos, ◌≤ℤ◌}
use orbi_insitutional_core_v.Prelude.Text.{
  codes, Text, text_eq, to_upper, trim, trim_start, or_text, includes, starts_with,
}
use orbi_insitutional_core_v.Settlement.State.{
  Db, internal_commit_failed, db_error, record_failure, found, Settlement, Result, ok, thrown,
  ready_for_internal_commit, external_pending, update, already_in_progress,
  internal_commit_already_in_progress, is_empty,
}
use orbi_insitutional_core_v.Settlement.Commit.{
  reply, is_claimable, CommitEnv, commit_settlement, claim, take_claim, lost_claim, book_from,
  finish_booking, post, structured_reason, commit_to_internal_ledger, claimed, book, ledger_legs,
}
use orbi_insitutional_core_v.Settlement.Reconcile.{Env, start_reconciliation}
use orbi_insitutional_core_v.Settlement.Booking.{FeesAreSane, alone, IsFailedFor}
use orbi_insitutional_core_v.Settlement.Outcome.{Commits, commit-Commits}
use orbi_insitutional_core_v.Settlement.Evidence.{
  Reconciles, undisturbed, start_reconciliation-Reconciles,
}
use orbi_insitutional_core_v.Settlement.Record.{PaymentEnv, new_settlement, record_external_payment}
use orbi_insitutional_core_v.Settlement.Phases.{lost_claim_fails_row}

abbrev payment : Settlement
payment = record {
  provider_id = codes "mpesa";
  external_settlement_id = codes "X1";
  wallet_id = codes "w1";
  amount = pos 900;
  currency = codes " tzs";
  current_phase = external_pending;
  phase_started_at = 10;
  financial_tx_id = none;
  reconciliation_verified = none;
  last_error = none;
  metadata = record {
    provider_confirmation_key = [];
    provider_confirmation_source = codes "trusted_gateway ";
    provider_proof_source = [];
    trusted_gateway_event_source = [];
    provider_confirmation_applied_at = false;
    trusted_gateway_event_applied_at = true;
    verified_provider_webhook_at = false;
    provider_api_reconciled_at = false;
    internal_commit_claim_id = [];
    failure_reason = none;
  };
}

abbrev ready : Settlement
ready = record payment { current_phase = ready_for_internal_commit }

abbrev env : Env
env = record { now = 20; allow_stub = false; others = λ k d. d; faults = λ k. false }

abbrev worker : CommitEnv
worker = record {
  now = 30;
  claim_id = codes "c1";
  financial_tx_id = codes "t1";
  others = λ k d. d;
  faults = λ k. false;
  source_wallet_id = codes "s1";
  suspense_wallet_id = [];
  wallet_exists = true;
  resolve_fee = λ amount c. ok (pos 5);
  fee_account = λ c. ok (codes "fees");
  refuse_posting = λ p ledger. none;
}

-- Another worker takes its claim between this one's read and its own.
abbrev second : CommitEnv
second = record worker { others = λ k d. update (claimed (record worker { now = 25 }) ready) d }

-- The last update of the row fails.
abbrev cut_off : CommitEnv
cut_off = record worker { faults = λ k. k == 1 }

abbrev IsFee : Result ℤ → Type 0
IsFee (ok fee) = pos 0 ≤ℤ fee
IsFee (thrown e) = Unit

abbrev IsAccount : Result Text → Type 0
IsAccount (ok w) = is_empty w ≡ false
IsAccount (thrown e) = Unit

worker_fees : FeesAreSane worker
worker_fees = (
  λ a c fee h. (let five : IsFee (ok (pos 5)) = omega arith in subst IsFee h five),
  λ c w h. (let fees : IsAccount (ok (codes "fees")) = refl in subst IsAccount h fees),
)

-- The money has moved, and the settlement is failed for good.
cut_off_keeps_posting :
    let (r, d) = commit_to_internal_ledger cut_off (found ready [] []) in
    (r ≡ thrown db_error) × (length d.ledger ≡ 1) × IsFailedFor internal_commit_failed d.row
unfolding commit_to_internal_ledger commit_settlement claim take_claim lost_claim book book_from
    finish_booking post reply record_failure is_claimable structured_reason ledger_legs includes
    starts_with text_eq to_upper trim trim_start or_text
cut_off_keeps_posting = (refl, refl, (refl, refl))

commit-Commits_example :
    Commits worker ready [] (commit_to_internal_ledger (alone worker) (found ready [] []))
commit-Commits_example = commit-Commits worker ready [] [] worker_fees

start_reconciliation-Reconciles_example :
    Reconciles env payment [] (start_reconciliation (undisturbed env) (found payment [] []))
start_reconciliation-Reconciles_example = start_reconciliation-Reconciles env payment [] []

lost_claim_fails_row_example :
    let (r, d) = commit_to_internal_ledger second (found ready [] []) in
    (r ≡ thrown already_in_progress) × IsFailedFor internal_commit_already_in_progress d.row
unfolding is_claimable
lost_claim_fails_row_example =
    lost_claim_fails_row second ready (claimed (record worker { now = 25 }) ready ready) [] [] refl
      refl refl refl refl refl refl refl refl

abbrev arrival : PaymentEnv
arrival = record {
  external_settlement_id = codes "X1";
  provider_id = codes "mpesa";
  amount = pos 900;
  currency = codes "TZS";
  wallet_id = codes "w1";
  external_movement_id = codes "m1";
  settlement_id = codes "s9";
  now = 10;
  insert_fault = false;
  movement_fault = true;
}

abbrev no_rows : Db
no_rows = record { row = none; ledger = []; audit = [] }

-- The caller is told that nothing was recorded, and the settlement is there.
orphan_settlement :
    let (r, d, links) = record_external_payment arrival no_rows [] in
    d.row ≡ some (new_settlement arrival)
unfolding record_external_payment
orphan_settlement = refl
