-- ===== src/FeeClass/Agreement.antt =====
-- The operation asked of the provider agrees with the direction of the money.
use orbi_insitutional_core_v.Prelude.{
  ◌≡◌, refl, ◌⊎◌, Bool, true, false, not, ◌&&◌, ◌||◌, if◌then◌else◌, [], ◌∷◌, arith,
}
use orbi_insitutional_core_v.Prelude.Text.{Text, codes, text_eq, to_lower, or_text}
use orbi_insitutional_core_v.FeeClass.{
  is_transfer, is_payment_out, ClassificationInput, normalize, normalize_type, is, classify,
  resolve_operation_type, resolve_direction,
}

-- What the classification reads of an input.
abbrev pub context_of : ClassificationInput → Text
context_of input = normalize input.service_context

abbrev pub cash_of : ClassificationInput → Text
cash_of input = to_lower (normalize input.cash_direction)

not_both : (cash : Text) → is (codes "deposit") cash ≡ true → is (codes "withdrawal") cash ≡ false
unfolding text_eq
not_both [] h = refl
not_both (c ∷ cash) h = ground arith

-- The defaults of the operation and of the direction, from the tests that they make.
default_collects :
    (agent withdrawal deposit out transfer : Bool)
    → is (codes "COLLECTION_REQUEST") (
        if agent && withdrawal
        then codes "DISBURSEMENT_REQUEST"
        else if agent
        then codes "COLLECTION_REQUEST"
        else if deposit
        then codes "COLLECTION_REQUEST"
        else if out
        then codes "DISBURSEMENT_REQUEST"
        else if transfer
        then codes "LEDGER_TRANSFER"
        else codes "CORE_TRANSACTION")
      ≡ (if agent then not withdrawal else deposit)
unfolding text_eq
default_collects true true deposit out transfer = refl
default_collects true false deposit out transfer = refl
default_collects false w true out transfer = refl
default_collects false w false true transfer = refl
default_collects false w false false true = refl
default_collects false w false false false = refl

default_enters :
    (agent cash_in withdrawal deposit out : Bool)
    → is (codes "EXTERNAL_TO_INTERNAL") (
        if agent && cash_in
        then codes "EXTERNAL_TO_INTERNAL"
        else if agent && withdrawal
        then codes "INTERNAL_TO_EXTERNAL"
        else if deposit
        then codes "EXTERNAL_TO_INTERNAL"
        else if out
        then codes "INTERNAL_TO_EXTERNAL"
        else codes "INTERNAL_TO_INTERNAL")
      ≡ (if agent then cash_in || (not withdrawal && deposit) else deposit)
unfolding text_eq
default_enters true true w deposit out = refl
default_enters true false true deposit out = refl
default_enters true false false true out = refl
default_enters true false false false true = refl
default_enters true false false false false = refl
default_enters false c w true out = refl
default_enters false c w false true = refl
default_enters false c w false false = refl

module _ (type context cash : Text) where
  collects :
      (o : Text)
      → normalize o ≡ []
      → is (codes "COLLECTION_REQUEST") (resolve_operation_type o type context cash) ≡ (
          if is (codes "AGENT_CASH") context
          then not (is (codes "withdrawal") cash)
          else is (codes "DEPOSIT") type)
  unfolding resolve_operation_type or_text
  collects o h =
      rw (resolve_operation_type, h)
        (default_collects (is (codes "AGENT_CASH") context) (is (codes "withdrawal") cash)
          (is (codes "DEPOSIT") type) (is_payment_out type) (is_transfer type))

  enters :
      (d : Text)
      → normalize d ≡ []
      → is (codes "EXTERNAL_TO_INTERNAL") (resolve_direction d type context cash) ≡ (
          if is (codes "AGENT_CASH") context
          then is (codes "deposit") cash
            || (not (is (codes "withdrawal") cash) && is (codes "DEPOSIT") type)
          else is (codes "DEPOSIT") type)
  unfolding resolve_direction or_text
  enters d h =
      rw (resolve_direction, h)
        (default_enters (is (codes "AGENT_CASH") context) (is (codes "deposit") cash)
          (is (codes "withdrawal") cash) (is (codes "DEPOSIT") type) (is_payment_out type))

-- Where neither the operation nor the direction is given, the operation is a collection exactly
-- when the money enters from outside, if the direction of the cash is said for the cash of agents.
pub collects_iff_enters :
    (input : ClassificationInput)
    → normalize (or_text input.operation input.metadata_operation) ≡ []
    → normalize input.direction ≡ []
    → (is (codes "AGENT_CASH") (context_of input) ≡ false)
      ⊎ (is (codes "deposit") (cash_of input) ≡ true)
      ⊎ (is (codes "withdrawal") (cash_of input) ≡ true)
    → is (codes "COLLECTION_REQUEST") (classify input).operation_type
      ≡ is (codes "EXTERNAL_TO_INTERNAL") (classify input).direction
unfolding classify
collects_iff_enters input no_operation no_direction said =
    let type = normalize_type input.type in
    let context = context_of input in
    let cash = cash_of input in
    ground (
      arith,
      collects type context cash (or_text input.operation input.metadata_operation) no_operation,
      enters type context cash input.direction no_direction,
      not_both cash,
    )
