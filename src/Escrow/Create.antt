-- ===== src/Escrow/Create.antt =====
-- `createEscrow`: the request, its intent, the terms, and the posting of the held amount.
use orbi_insitutional_core_v.Prelude.{false, Option, none, some, List, [], ◌∷◌, if◌then◌else◌, ◌&&◌}
use orbi_insitutional_core_v.Prelude.Int.{ℤ}
use orbi_insitutional_core_v.Prelude.Text.{Text, codes, text_eq}
use orbi_insitutional_core_v.Fees.Compute.{Outcome, returned, thrown}
use orbi_insitutional_core_v.Lifecycle.{authorized}
use orbi_insitutional_core_v.Review.{
  EntryType, debit, credit, LedgerLeg, Tx, Book, Ending, finished,
}
use orbi_insitutional_core_v.Review as Review
use orbi_insitutional_core_v.Review.Ledger.{LedgerEnv, post_transaction_with_ledger}
use orbi_insitutional_core_v.Escrow.{is_filled}
use orbi_insitutional_core_v.Escrow.Terms.{
  EscrowEnv, EscrowRequest, EscrowTerms, request_error, escrow_terms,
}

abbrev pub hold_leg : Text → EntryType → ℤ → Text → LedgerLeg
hold_leg tx_id entry_type amount wallet = record {
  transaction_id = tx_id;
  wallet_id = some wallet;
  entry_type = entry_type;
  amount = amount;
}

-- The debit of the source and the credit of the safe.
abbrev pub hold_legs : Text → ℤ → Text → Text → List LedgerLeg
hold_legs tx_id amount source safe =
    hold_leg tx_id debit amount source ∷ hold_leg tx_id credit amount safe ∷ []

abbrev pub escrow_tx : LedgerEnv → EscrowRequest → Tx
escrow_tx ledger r = record {
  id = ledger.new_id;
  user_id = r.sender_id;
  type = codes "escrow";
  status = authorized;
  amount = r.amount;
  created_at = ledger.now;
  transaction_lock = none;
  manual_review = false;
}

-- `Audit.log('FINANCIAL', senderId, 'ESCROW_CREATED', ...)`, of which the error is given, and the answer.
abbrev pub audit_created : Text → Option Text → Outcome Text
audit_created reference none = returned reference
audit_created reference (some e) = thrown e

abbrev pub answer : Text → Option Text → Ending × Book → Outcome Text × Book
answer reference audit_error (finished, b) = (audit_created reference audit_error, b)
answer reference audit_error (Review.thrown e, b) = (thrown e, b)

unfoldable pub hold_funds :
    LedgerEnv
    → Text
    → Option Text
    → EscrowRequest
    → Outcome EscrowTerms
    → Book
    → Outcome Text × Book
unfolding post_transaction_with_ledger
hold_funds ledger reference audit_error r (thrown e) b = (thrown e, b)
hold_funds ledger reference audit_error r (returned t) b = answer reference audit_error (
    post_transaction_with_ledger ledger (escrow_tx ledger r)
      (hold_legs ledger.new_id r.amount t.source_vault.id t.pay_safe_vault.id) b)

-- The agreement that the intent has led to, if it has one.
abbrev pub known : EscrowEnv → EscrowRequest → Option Text
known env r =
    if is_filled r.gateway_intent_id then env.agreement_of_intent r.gateway_intent_id else none

abbrev pub or_existing : Option Text → Outcome Text × Book → Book → Outcome Text × Book
or_existing (some existing) o b = (returned existing, b)
or_existing none o b = o

abbrev pub unless_refused : Option Text → Outcome Text × Book → Book → Outcome Text × Book
unless_refused (some e) o b = (thrown e, b)
unless_refused none o b = o

unfoldable pub create_for :
    EscrowEnv → LedgerEnv → Text → EscrowRequest → Option Text → Book → Outcome Text × Book
unfolding hold_funds escrow_terms text_eq
create_for env ledger reference r none b = (thrown (codes "RECIPIENT_NOT_FOUND"), b)
create_for env ledger reference r (some recipient) b =
    if text_eq recipient r.sender_id
    then (thrown (codes "PAYSAFE_SELF_ESCROW_NOT_ALLOWED"), b)
    else (if is_filled r.gateway_intent_id && env.intent_error
        then (thrown (codes "PAYSAFE_IDEMPOTENCY_LOOKUP_FAILED"), b)
        else or_existing (known env r)
            (hold_funds ledger reference env.audit_error r (escrow_terms env r recipient) b) b)

unfoldable pub create_escrow :
    EscrowEnv → LedgerEnv → Text → EscrowRequest → Book → Outcome Text × Book
unfolding create_for request_error
create_escrow env ledger reference r b =
    unless_refused (request_error r) (create_for env ledger reference r env.recipient b) b
