-- ===== src/Settlement/Record.antt =====
-- `recordExternalPayment`: a settlement is born, and the movement of external funds it comes from is
-- linked to it.
use orbi_insitutional_core_v.Prelude.{ℕ, Bool, false, if◌then◌else◌, none, some, [], ◌++◌}
use orbi_insitutional_core_v.Prelude.Int.{ℤ}
use orbi_insitutional_core_v.Prelude.Text.{Text, codes}
use orbi_insitutional_core_v.Prelude.Dict.{Dict, insert}
use orbi_insitutional_core_v.Settlement.State.{
  Settlement, Metadata, external_pending, Db, Result, ok, thrown, SettlementError, foreign,
  db_error, is_empty,
}
use orbi_insitutional_core_v.Settlement.Commit.{message}

-- The arguments, the new id, and which of the two statements the database refuses; no movement is the
-- empty text.
pub record PaymentEnv : Type 0 where
  pub external_settlement_id : Text
  pub provider_id : Text
  pub amount : ℤ
  pub currency : Text
  pub wallet_id : Text
  pub external_movement_id : Text
  pub settlement_id : Text
  pub now : ℕ
  pub insert_fault : Bool
  pub movement_fault : Bool

abbrev pub no_metadata : Metadata
no_metadata = record {
  provider_confirmation_key = [];
  provider_confirmation_source = [];
  provider_proof_source = [];
  trusted_gateway_event_source = [];
  provider_confirmation_applied_at = false;
  trusted_gateway_event_applied_at = false;
  verified_provider_webhook_at = false;
  provider_api_reconciled_at = false;
  internal_commit_claim_id = [];
  failure_reason = none;
}

abbrev pub new_settlement : PaymentEnv → Settlement
new_settlement env = record {
  provider_id = env.provider_id;
  external_settlement_id = env.external_settlement_id;
  wallet_id = env.wallet_id;
  amount = env.amount;
  currency = env.currency;
  current_phase = external_pending;
  phase_started_at = env.now;
  financial_tx_id = none;
  reconciliation_verified = none;
  last_error = none;
  metadata = no_metadata;
}

-- The settlement that each movement is linked to.
abbrev pub Links : Type 0
Links = Dict Text

abbrev failed_to_record : SettlementError → SettlementError
failed_to_record e = foreign (codes "Failed to record external payment: " ++ message e)

unfoldable pub link_movement : PaymentEnv → Links → Result (Unit {0}) × Links
link_movement env links =
    if is_empty env.external_movement_id
    then (ok tt, links)
    else if env.movement_fault
    then (thrown (failed_to_record db_error), links)
    else (ok tt, insert env.external_movement_id env.settlement_id links)

abbrev answer : PaymentEnv → Result (Unit {0}) → Result Settlement
answer env (ok u) = ok (new_settlement env)
answer env (thrown e) = thrown e

-- The row is there also where the link to the movement fails.
unfoldable pub record_external_payment : PaymentEnv → Db → Links → Result Settlement × Db × Links
record_external_payment env d links =
    let (linked, links') = link_movement env links in
    if env.insert_fault
    then (thrown (failed_to_record db_error), d, links)
    else (answer env linked, record d { row = some (new_settlement env) }, links')
