-- ===== src/Financial.antt =====
-- The shared rules of backend/ledger/financialInvariants.ts: who may settle, who may be reversed, and
-- how errors of the SQL authority are named. Amounts are whole numbers of a currency's smallest unit.
pub mod Eligibility
mod Tests
use orbi_insitutional_core_v.Prelude.{
  Bool, true, false, not, ◌||◌, Option, none, some, List, [], ◌∷◌, ◌++◌, any, if◌then◌else◌,
}
use orbi_insitutional_core_v.Prelude.Int.{ℤ, pos, leb_ℤ, ltb_ℤ}
use orbi_insitutional_core_v.Prelude.Text.{
  Text, codes, text_eq, includes, to_upper, to_lower, or_text,
}

abbrev pub settlement_eligible_status : Text
settlement_eligible_status = codes "processing"

abbrev pub reversal_blocked_statuses : List Text
reversal_blocked_statuses =
    codes "reversed" ∷ codes "failed" ∷ codes "refunded" ∷ codes "cancelled" ∷ []

pub record BalancePreview : Type 0 where
  pub available : ℤ
  pub required : ℤ
  pub sufficient : Bool
  pub wallet_name : Text
  pub wallet_id : Option Text
  pub authoritative : Bool

-- An empty wallet id is falsy, so it becomes `null`.
abbrev wallet_id_or_null : Option Text → Option Text
wallet_id_or_null (some (c ∷ s)) = some (c ∷ s)
wallet_id_or_null _ = none

unfoldable pub create_balance_preview : ℤ → ℤ → Text → Option Text → BalancePreview
create_balance_preview available required wallet_name wallet_id = record {
  available = available;
  required = required;
  sufficient = leb_ℤ required available;
  wallet_name = wallet_name;
  wallet_id = wallet_id_or_null wallet_id;
  authoritative = false;
}

-- `internalWalletMinimumBalance` is 0.
unfoldable pub violates_internal_wallet_non_negative_rule : ℤ → Bool
violates_internal_wallet_non_negative_rule next_balance = ltb_ℤ next_balance (pos 0)

-- What a `catch` receives. A missing property is the empty text, which is as falsy as `undefined`;
-- `printed` is `String(error)`.
pub record ErrorObject : Type 0 where
  pub message : Text
  pub details : Text
  pub error_code : Text
  pub printed : Text

pub data ErrorValue : Type 0 where
  missing : ErrorValue
  thrown_text : Text → ErrorValue
  thrown_object : ErrorObject → ErrorValue

-- `String(error?.message || error?.details || error || fallback)`
unfoldable pub raw_message : Text → ErrorValue → Text
unfolding or_text
raw_message fallback missing = fallback
raw_message fallback (thrown_text t) = or_text t fallback
raw_message fallback (thrown_object e) = or_text e.message (or_text e.details e.printed)

abbrev db_code : ErrorValue → Text
db_code (thrown_object e) = e.error_code
db_code _ = []

-- `rawMessage.includes(part)`, with the raw message in upper case
unfoldable pub mentions : Text → ErrorValue → Bool
unfolding raw_message to_upper includes
mentions part error = includes part (to_upper (raw_message [] error))

unfoldable pub is_idempotency_violation_error : ErrorValue → Bool
is_idempotency_violation_error error =
    mentions (codes "APPEND_ALREADY_APPLIED") error
    || mentions (codes "IDEMPOTENCY_VIOLATION") error
    || text_eq (db_code error) (codes "23505")

unfoldable pub is_wallet_lock_error : ErrorValue → Bool
is_wallet_lock_error error =
    mentions (codes "WALLET_LOCKED") error || mentions (codes "GOAL_MISSING") error

unfoldable pub is_invalid_settlement_state_error : ErrorValue → Bool
is_invalid_settlement_state_error error =
    mentions (codes "INVALID_SETTLEMENT_STATE") error
    || mentions (codes "SETTLEMENT_ABORTED") error
    || mentions (codes "SETTLEMENT_ERROR") error

unfoldable pub is_insufficient_funds_error : ErrorValue → Bool
is_insufficient_funds_error error = mentions (codes "INSUFFICIENT_FUNDS") error

unfoldable pub is_concurrency_conflict_error : ErrorValue → Bool
is_concurrency_conflict_error error =
    text_eq (db_code error) (codes "40001")
    || text_eq (db_code error) (codes "40P01")
    || mentions (codes "COULD NOT SERIALIZE ACCESS") error
    || mentions (codes "DEADLOCK DETECTED") error
    || mentions (codes "CONCURRENT") error

unfoldable pub insufficient_funds_message : Text → Text
insufficient_funds_message context =
    codes "INSUFFICIENT_FUNDS: "
    ++ (context
        ++ codes
            " rejected the request because the authoritative SQL balance check found insufficient funds.")

unfoldable pub idempotency_violation_message : Text → Text
idempotency_violation_message context =
    codes "IDEMPOTENCY_VIOLATION: "
    ++ (context ++ codes " rejected a duplicate financial mutation.")

unfoldable pub locked_wallet_message : Text → Text
locked_wallet_message context =
    codes "LOCKED_WALLET: "
    ++ (context
        ++ codes
            " could not proceed because one of the financial containers is locked or unavailable.")

unfoldable pub invalid_settlement_state_message : Text → Text
invalid_settlement_state_message context =
    codes "INVALID_SETTLEMENT_STATE: "
    ++ (context ++ codes " cannot continue because the settlement is no longer in a valid state.")

unfoldable pub concurrency_conflict_message : Text → Text
concurrency_conflict_message context =
    codes "CONCURRENCY_CONFLICT: "
    ++ (context
        ++ codes " conflicted with another financial update. Retry with the same idempotency key.")

-- The message of the `Error` that it returns.
unfoldable pub normalize_financial_authority_error : ErrorValue → Text → Text
normalize_financial_authority_error error context =
    if is_insufficient_funds_error error
    then insufficient_funds_message context
    else if is_idempotency_violation_error error
    then idempotency_violation_message context
    else if is_wallet_lock_error error
    then locked_wallet_message context
    else if is_invalid_settlement_state_error error
    then invalid_settlement_state_message context
    else if is_concurrency_conflict_error error
    then concurrency_conflict_message context
    else context ++ (codes ": " ++ raw_message (codes "UNKNOWN_ERROR") error)

-- A status of `null` or `undefined` is the empty text.
unfoldable pub is_settlement_eligible_status : Text → Bool
unfolding to_lower text_eq
is_settlement_eligible_status status = text_eq (to_lower status) settlement_eligible_status

pub data SettlementCheck : Type 0 where
  eligible transaction_not_found unexpected_status missing_vault : SettlementCheck

-- `hasInternalVault === false`, false on `undefined`
abbrev lacks_vault : Option Bool → Bool
lacks_vault (some false) = true
lacks_vault _ = false

-- The four ways to leave `assertSettlementEligible`; the last three are its errors.
unfoldable pub assert_settlement_eligible : Bool → Text → Option Bool → SettlementCheck
unfolding to_lower text_eq is_settlement_eligible_status
assert_settlement_eligible tx_exists status has_internal_vault =
    if not tx_exists
    then transaction_not_found
    else if text_eq (to_lower status) (codes "completed")
    then eligible
    else if not (is_settlement_eligible_status status)
    then unexpected_status
    else if lacks_vault has_internal_vault
    then missing_vault
    else eligible

unfoldable pub is_reversal_eligible_status : Text → Bool
unfolding to_lower text_eq
is_reversal_eligible_status status =
    not (any (λ s. text_eq s (to_lower status)) reversal_blocked_statuses)

-- `some tt` where the source throws TRANSACTION_NOT_REVERSIBLE
unfoldable pub assert_reversal_eligible : Text → Option (Unit {0})
unfolding is_reversal_eligible_status
assert_reversal_eligible status = if not (is_reversal_eligible_status status) then some tt else none
