-- ===== src/FeeClass.antt =====
-- `TransactionFeeClassifier` of backend/payments/TransactionFeeClassifier.ts: which fee flow, provider
-- operation and direction a transaction has. An absent field is the empty text.
pub mod Agreement
mod Tests
use orbi_insitutional_core_v.Prelude.{
  Option, none, some, Bool, true, false, ◌&&◌, ◌||◌, if◌then◌else◌, List, [], ◌∷◌, ◌++◌, any,
}
use orbi_insitutional_core_v.Prelude.Text.{Text, codes, text_eq, trim, to_upper, to_lower, or_text}

-- The fields of the metadata are after the `||` or `??` between their names.
pub record ClassificationInput : Type 0 where
  pub type : Text
  pub category : Text
  pub category_id : Option Text
  pub channel : Text
  pub rail : Text
  pub operation : Text
  pub metadata_category : Text
  pub metadata_category_id : Option Text
  pub metadata_channel : Text
  pub metadata_rail : Text
  pub metadata_operation : Text
  pub direction : Text
  pub flow_code : Text
  pub service_context : Text
  pub cash_direction : Text

pub record FeeClassification : Type 0 where
  pub transaction_type : Text
  pub transaction_model : Text
  pub flow_code : Text
  pub operation_type : Text
  pub direction : Text
  pub rail : Text
  pub channel : Text
  pub category_code : Text
  pub category_id : Text
  pub service_context : Text

unfoldable pub normalize : Text → Text
normalize value = to_upper (trim value)

-- `a ?? b ?? ''`
abbrev or_given : Option Text → Option Text → Text
or_given (some a) b = a
or_given none (some b) = b
or_given none none = []

-- `s === 'literal'`
abbrev pub is : Text → Text → Bool
is literal s = text_eq s literal

unfoldable pub normalize_type : Text → Text
normalize_type value =
    let normalized = normalize (or_text value (codes "INTERNAL_TRANSFER")) in
    if is (codes "INTERNAL") normalized
    then codes "INTERNAL_TRANSFER"
    else if is (codes "EXTERNAL") normalized
    then codes "EXTERNAL_PAYMENT"
    else normalized

abbrev pub is_transfer : Text → Bool
is_transfer t = is (codes "INTERNAL_TRANSFER") t || is (codes "PEER_TRANSFER") t

abbrev pub is_payment_out : Text → Bool
is_payment_out t =
    is (codes "WITHDRAWAL") t
    || is (codes "EXTERNAL_PAYMENT") t
    || is (codes "BILL_PAYMENT") t
    || is (codes "MERCHANT_PAYMENT") t

abbrev is_external_type : Text → Bool
is_external_type t = is_payment_out t || is (codes "DEPOSIT") t

unfoldable pub resolve_flow_code : Text → Text → Text → Text → Text
resolve_flow_code explicit type context cash = or_text (normalize explicit) (
    if is (codes "MERCHANT") context
    then codes "MERCHANT_PAYMENT"
    else if is (codes "AGENT_CASH") context && is (codes "withdrawal") cash
    then codes "AGENT_CASH_WITHDRAWAL"
    else if is (codes "AGENT_CASH") context
    then codes "AGENT_CASH_DEPOSIT"
    else if is (codes "SERVICE_COMMISSION") context || is (codes "SYSTEM") context
    then codes "SYSTEM_OPERATION"
    else if is (codes "BILL_PAYMENT") type || is (codes "EXTERNAL_PAYMENT") type
    then codes "EXTERNAL_PAYMENT"
    else if is (codes "WITHDRAWAL") type
    then codes "WITHDRAWAL"
    else if is (codes "DEPOSIT") type
    then codes "DEPOSIT"
    else if is_transfer type
    then codes "INTERNAL_TRANSFER"
    else codes "CORE_TRANSACTION")

unfoldable pub resolve_transaction_model : Text → Text → Text → Text
resolve_transaction_model type context rail =
    if is (codes "AGENT_CASH") context
    then codes "AGENT_CASH"
    else if is (codes "MERCHANT") context || is (codes "MERCHANT_PAYMENT") type
    then codes "MERCHANT_PAYMENT"
    else if is (codes "BILL_PAYMENT") type
    then codes "BILL_PAYMENT"
    else if is_transfer type
    then codes "WALLET_TRANSFER"
    else if is_external_type type
    then codes "EXTERNAL_" ++ or_text rail (codes "WALLET")
    else codes "CORE_LEDGER"

unfoldable pub resolve_operation_type : Text → Text → Text → Text → Text
resolve_operation_type explicit type context cash = or_text (normalize explicit) (
    if is (codes "AGENT_CASH") context && is (codes "withdrawal") cash
    then codes "DISBURSEMENT_REQUEST"
    else if is (codes "AGENT_CASH") context
    then codes "COLLECTION_REQUEST"
    else if is (codes "DEPOSIT") type
    then codes "COLLECTION_REQUEST"
    else if is_payment_out type
    then codes "DISBURSEMENT_REQUEST"
    else if is_transfer type
    then codes "LEDGER_TRANSFER"
    else codes "CORE_TRANSACTION")

unfoldable pub resolve_direction : Text → Text → Text → Text → Text
resolve_direction explicit type context cash = or_text (normalize explicit) (
    if is (codes "AGENT_CASH") context && is (codes "deposit") cash
    then codes "EXTERNAL_TO_INTERNAL"
    else if is (codes "AGENT_CASH") context && is (codes "withdrawal") cash
    then codes "INTERNAL_TO_EXTERNAL"
    else if is (codes "DEPOSIT") type
    then codes "EXTERNAL_TO_INTERNAL"
    else if is_payment_out type
    then codes "INTERNAL_TO_EXTERNAL"
    else codes "INTERNAL_TO_INTERNAL")

unfoldable pub resolve_rail : Text → Text → Text
resolve_rail value type =
    or_text (normalize value) (if is_transfer type then codes "WALLET" else codes "MOBILE_MONEY")

unfoldable pub classify : ClassificationInput → FeeClassification
classify input =
    let type = normalize_type input.type in
    let context = normalize input.service_context in
    let cash = to_lower (normalize input.cash_direction) in
    let rail = resolve_rail (or_text input.rail input.metadata_rail) type in
    record {
      transaction_type = type;
      transaction_model = resolve_transaction_model type context rail;
      flow_code = resolve_flow_code input.flow_code type context cash;
      operation_type =
          resolve_operation_type (or_text input.operation input.metadata_operation) type context
            cash;
      direction = resolve_direction input.direction type context cash;
      rail = rail;
      channel = trim (or_text input.channel input.metadata_channel);
      category_code = normalize (or_text input.metadata_category input.category);
      category_id = trim (or_given input.category_id input.metadata_category_id);
      service_context = context;
    }

unfoldable pub resolve_provider_operation : FeeClassification → Text
resolve_provider_operation c = or_text (normalize c.operation_type) (
    if is (codes "EXTERNAL_TO_INTERNAL") c.direction
    then codes "COLLECTION_REQUEST"
    else codes "DISBURSEMENT_REQUEST")
