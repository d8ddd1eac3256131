-- ===== src/Review/Ledger.antt =====
-- `postTransactionWithLedger`, `updateTransactionStatus` and `reverseTransaction`. The SQL function that
-- posts is an argument: it refuses with an error, or adds the transaction and its legs; so is the set of
-- internal wallets.
use orbi_insitutional_core_v.Prelude.{
  Bool, true, false, not, Option, none, some, List, [], ◌∷◌, ◌++◌, any, map, if◌then◌else◌, ℕ,
}
use orbi_insitutional_core_v.Prelude.Int.{pos, leb_ℤ}
use orbi_insitutional_core_v.Prelude.Text.{Text, codes}
use orbi_insitutional_core_v.Lifecycle.{Status, created, completed, reversed, is_valid_transition}
use orbi_insitutional_core_v.Review.{
  EntryType, debit, credit, LedgerLeg, Tx, Book, Ending, finished, thrown, find_tx, update_tx,
  legs_of, log_transaction_event,
}

-- The id that `UUID.generate` gives, the time, the wallets that the tables know, and the error of the SQL
-- function.
pub record LedgerEnv : Type 0 where
  pub new_id : Text
  pub now : ℕ
  pub is_internal : Text → Bool
  pub rpc_error : List LedgerLeg → Option Text
  -- Whether an update of a status is refused, which goes unnoticed, and the error that is thrown after one:
  -- by the audit log, or for a settled transaction by the read of a balance.
  pub update_refused : Bool
  pub status_error : Status → Option Text

abbrev pub wallet_is : (Text → Bool) → LedgerLeg → Bool
wallet_is p l = elim l.wallet_id [ none ↦ false | some w ↦ p w ]

abbrev pub cons_leg : LedgerLeg → Option (List LedgerLeg) → Option (List LedgerLeg)
cons_leg l none = none
cons_leg l (some legs) = some (l ∷ legs)

abbrev pub add_leg : LedgerLeg → Option Text → Option (List LedgerLeg) → Option (List LedgerLeg)
add_leg l none rest = rest
add_leg l (some w) rest = if leb_ℤ l.amount (pos 0) then none else cons_leg l rest

-- The loop over the legs: those without a wallet are skipped, and `none` is LEG_AMOUNT_INVALID.
unfoldable pub prepare_legs : List LedgerLeg → Option (List LedgerLeg)
prepare_legs [] = some []
prepare_legs (l ∷ ls) = add_leg l l.wallet_id (prepare_legs ls)

-- The call of the SQL function, whose error is given.
unfoldable pub commit_legs : Tx → List LedgerLeg → Option Text → Book → Ending × Book
unfolding log_transaction_event
commit_legs t legs (some e) b = (thrown e, b)
commit_legs t legs none b = (
  finished,
  log_transaction_event t.id none created
      (record b { transactions = b.transactions ++ t ∷ []; ledger = b.ledger ++ legs }),
)

unfoldable pub commit_prepared : LedgerEnv → Tx → Option (List LedgerLeg) → Book → Ending × Book
unfolding commit_legs
commit_prepared env t none b = (thrown (codes "LEG_AMOUNT_INVALID"), b)
commit_prepared env t (some legs) b = commit_legs t legs (env.rpc_error legs) b

unfoldable pub post_transaction_with_ledger : LedgerEnv → Tx → List LedgerLeg → Book → Ending × Book
unfolding commit_prepared prepare_legs
post_transaction_with_ledger env t legs b =
    if any (wallet_is (λ w. true)) legs
    then (if any (wallet_is env.is_internal) legs
        then commit_prepared env t (prepare_legs legs) b
        else (thrown (codes "INTERNAL_WALLET_REQUIRED"), b))
    else commit_prepared env t (prepare_legs legs) b

-- `updateTransactionStatus` on the row that it finds. A move that the table of transitions does not have
-- is logged and left undone; what notifies people and other services is left out.
unfoldable pub set_status : Bool → Text → Status → Book → Book
unfolding update_tx
set_status true id status b = b
set_status false id status b = record b {
  transactions = update_tx id (λ x. record x { status = status }) b.transactions;
}

abbrev pub ending_of : Option Text → Ending
ending_of none = finished
ending_of (some e) = thrown e

unfoldable pub update_found_status : LedgerEnv → Text → Status → Option Tx → Book → Ending × Book
unfolding is_valid_transition set_status log_transaction_event
update_found_status env id status none b = (finished, b)
update_found_status env id status (some t) b =
    if not (is_valid_transition t.status status) then (finished, b) else (
      ending_of (env.status_error status),
      log_transaction_event id (some t.status) status (set_status env.update_refused id status b),
    )

unfoldable pub update_transaction_status : LedgerEnv → Text → Status → Book → Ending × Book
unfolding update_found_status find_tx
update_transaction_status env id status b =
    update_found_status env id status (find_tx id b.transactions) b

abbrev pub opposite : EntryType → EntryType
opposite credit = debit
opposite debit = credit

abbrev pub reversal_leg : Text → LedgerLeg → LedgerLeg
reversal_leg id l = record l { transaction_id = id; entry_type = opposite l.entry_type }

abbrev pub reversal_tx : Text → Tx → Tx
reversal_tx id t = record {
  id = id;
  user_id = t.user_id;
  type = codes "transfer";
  status = completed;
  amount = t.amount;
  created_at = t.created_at;
  transaction_lock = none;
  manual_review = false;
}

-- The last step of `reverseTransaction`, unless the posting has thrown.
unfoldable pub mark_reversed : LedgerEnv → Text → Ending × Book → Ending × Book
unfolding update_transaction_status
mark_reversed env id (thrown e, b) = (thrown e, b)
mark_reversed env id (finished, b) = update_transaction_status env id reversed b

unfoldable pub reverse_found : LedgerEnv → Text → Option Tx → Book → Ending × Book
unfolding mark_reversed post_transaction_with_ledger legs_of
reverse_found env id none b = (thrown (codes "FORENSIC_VOID: Transaction history not found."), b)
reverse_found env id (some t) b = mark_reversed env id (
    post_transaction_with_ledger env (reversal_tx env.new_id t)
      (map (reversal_leg env.new_id) (legs_of id b.ledger)) b)

unfoldable pub reverse_transaction : LedgerEnv → Text → Book → Ending × Book
unfolding reverse_found find_tx
reverse_transaction env id b = reverse_found env id (find_tx id b.transactions) b
