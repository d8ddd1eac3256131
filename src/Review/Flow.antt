-- ===== src/Review/Flow.antt =====
-- `lockTransactionForReview`, `recordAuditDecision`, `approveReviewedTransaction`,
-- `reverseTransactionWithReason`, and their rounds over all transactions that are held.
use orbi_insitutional_core_v.Prelude.{
  ℕ, zero, ◌+◌, ◌*◌, max, Bool, true, false, not, Option, none, some, ◌++◌, if◌then◌else◌, ltb,
}
use orbi_insitutional_core_v.Prelude.Text.{Text, codes, text_eq, to_lower}
use orbi_insitutional_core_v.Lifecycle.{
  Status, pending, authorized, processing, completed, held_for_review, same,
}
use orbi_insitutional_core_v.Financial.{assert_reversal_eligible}
use orbi_insitutional_core_v.Financial.Eligibility.{status_text}
use orbi_insitutional_core_v.Review.{
  audit_pending, audit_passed, audit_failed, TransactionLock, Tx, Book, Ending, finished, thrown,
  find_tx, update_tx, log_transaction_event,
}
use orbi_insitutional_core_v.Review.Ledger.{
  LedgerEnv, update_transaction_status, reverse_transaction,
}

pub data ActorRole : Type 0 where
  user staff system : ActorRole

pub record LockOptions : Type 0 where
  pub actor_role : ActorRole
  pub review_window_hours : Option ℕ

abbrev pub hour : ℕ
hour = 60 * 60 * 1000

-- `Math.max(1, Number(hours || 24))`
unfoldable pub window_hours : Option ℕ → ℕ
window_hours none = 24
window_hours (some zero) = 24
window_hours (some n) = max 1 n

-- The checks of a user who recalls a transfer; a text is the error.
abbrev pub user_check : ActorRole → Text → ℕ → Tx → Option Text
user_check user actor now t =
    if not (text_eq t.user_id actor)
    then some (codes "ACCESS_DENIED")
    else (if not (text_eq (to_lower t.type) (codes "transfer"))
        then some (codes "USER_LOCK_TRANSFER_ONLY")
        else (if ltb (t.created_at + hour) now
            then some (codes "USER_LOCK_WINDOW_EXPIRED")
            else none))
user_check _ actor now t = none

abbrev pub new_lock : ℕ → Option ℕ → Status → TransactionLock
new_lock now hours status = record {
  locked = true;
  previous_status = status;
  locked_at = now;
  auto_reverse_at = now + window_hours hours * hour;
  audit_status = audit_pending;
}

-- The update of the row that sets the status in any case, unless the move has thrown.
unfoldable pub hold_moved : LedgerEnv → LockOptions → Tx → Ending × Book → Ending × Book
unfolding update_tx window_hours log_transaction_event
hold_moved env o t (thrown e, b) = (thrown e, b)
hold_moved env o t (finished, moved) = (
  finished,
  log_transaction_event t.id (some t.status) held_for_review (record moved {
    transactions =
        update_tx t.id
          (λ x. record x {
            status = held_for_review;
            transaction_lock = some (new_lock env.now o.review_window_hours t.status);
            manual_review = true;
          })
          moved.transactions;
  }),
)

-- The move to `held_for_review`, and the lock.
unfoldable pub hold : LedgerEnv → LockOptions → Tx → Book → Ending × Book
unfolding update_transaction_status hold_moved
hold env o t b = hold_moved env o t (
    if same t.status held_for_review
    then (finished, b)
    else update_transaction_status env t.id held_for_review b)

unfoldable pub lock_found : LedgerEnv → Text → LockOptions → Option Tx → Book → Ending × Book
unfolding hold assert_reversal_eligible text_eq to_lower
lock_found env actor o none b = (thrown (codes "TRANSACTION_NOT_FOUND"), b)
lock_found env actor o (some t) b = elim (assert_reversal_eligible (status_text t.status)) [
  | some e ↦ (thrown (codes "TRANSACTION_NOT_REVERSIBLE"), b)
  | none ↦ elim (user_check o.actor_role actor env.now t) [
    | some e ↦ (thrown e, b)
    | none ↦ hold env o t b
  ]
]

unfoldable pub lock_transaction_for_review :
    LedgerEnv → Text → Text → LockOptions → Book → Ending × Book
unfolding lock_found find_tx
lock_transaction_for_review env id actor o b = lock_found env actor o (find_tx id b.transactions) b

-- `{...(lock || {}), audit_status}`. A row that is held without a lock gets one that was never locked.
abbrev pub audited : Bool → Option TransactionLock → TransactionLock
audited passed (some l) = record l { audit_status = if passed then audit_passed else audit_failed }
audited passed none = record {
  locked = false;
  previous_status = held_for_review;
  locked_at = 0;
  auto_reverse_at = 0;
  audit_status = if passed then audit_passed else audit_failed;
}

unfoldable pub audit_found : Bool → Option Tx → Book → Ending × Book
unfolding update_tx log_transaction_event
audit_found passed none b = (thrown (codes "TRANSACTION_NOT_FOUND"), b)
audit_found passed (some t) b =
    if not (same t.status held_for_review)
    then (thrown (codes "TRANSACTION_NOT_UNDER_REVIEW"), b)
    else (
      finished,
      log_transaction_event t.id (some t.status) t.status (record b {
        transactions =
            update_tx t.id
              (λ x. record x { transaction_lock = some (audited passed t.transaction_lock) })
              b.transactions;
      }),
    )

unfoldable pub record_audit_decision : Text → Bool → Book → Ending × Book
unfolding audit_found find_tx
record_audit_decision id passed b = audit_found passed (find_tx id b.transactions) b

-- `audit_status === 'PASSED'`
abbrev pub has_passed : Option TransactionLock → Bool
has_passed none = false
has_passed (some l) = elim l.audit_status [ audit_passed ↦ true | _ ↦ false ]

-- `transaction_lock?.previous_status`
abbrev pub previous_of : Option TransactionLock → Option Status
previous_of none = none
previous_of (some l) = some l.previous_status

-- The status after an approval.
unfoldable pub approved_status : Option Status → Status
approved_status (some pending) = pending
approved_status (some authorized) = authorized
approved_status _ = completed

-- `{...(lock || {}), locked: false}`
abbrev pub unlocked : Option TransactionLock → Option TransactionLock
unlocked none = none
unlocked (some l) = some (record l { locked = false })

abbrev pub needs_settlement : Option Status → Text → Bool
needs_settlement (some processing) type = text_eq (to_lower type) (codes "transfer")
needs_settlement _ type = false

-- The update of the row at the end, with the lock that was read at the start.
unfoldable pub resolve : Tx → Book → Book
unfolding update_tx log_transaction_event approved_status
resolve t b =
    log_transaction_event t.id (some held_for_review)
      (approved_status (previous_of t.transaction_lock))
      (record b {
        transactions =
            update_tx t.id
              (λ x. record x {
                transaction_lock = unlocked t.transaction_lock;
                manual_review = false;
              })
              b.transactions;
      })

-- `BankingEngine.completeSettlement` is an argument.
abbrev pub Settle : Type 0
Settle = Tx → Book → Ending × Book

abbrev pub after_settlement : Tx → Ending × Book → Ending × Book
after_settlement t (thrown e, b) = (thrown (codes "APPROVAL_SETTLEMENT_FAILED: " ++ e), b)
after_settlement t (finished, b) = (finished, resolve t b)

-- The end of an approval, unless the move has thrown.
abbrev pub after_move : Tx → Ending × Book → Ending × Book
after_move t (thrown e, b) = (thrown e, b)
after_move t (finished, b) = (finished, resolve t b)

unfoldable pub approve_found : LedgerEnv → Settle → Option Tx → Book → Ending × Book
unfolding resolve update_transaction_status approved_status text_eq to_lower
approve_found env complete_settlement none b = (thrown (codes "TRANSACTION_NOT_FOUND"), b)
approve_found env complete_settlement (some t) b =
    if not (same t.status held_for_review)
    then (thrown (codes "TRANSACTION_NOT_UNDER_REVIEW"), b)
    else (if not (has_passed t.transaction_lock)
        then (thrown (codes "AUDIT_PASS_REQUIRED"), b)
        else (if needs_settlement (previous_of t.transaction_lock) t.type
            then after_settlement t (complete_settlement t b)
            else after_move t (
                update_transaction_status env t.id
                  (approved_status (previous_of t.transaction_lock)) b)))

unfoldable pub approve_reviewed_transaction : LedgerEnv → Settle → Text → Book → Ending × Book
unfolding approve_found find_tx
approve_reviewed_transaction env complete_settlement id b =
    approve_found env complete_settlement (find_tx id b.transactions) b

unfoldable pub reverse_eligible : LedgerEnv → Text → Option Tx → Book → Ending × Book
unfolding reverse_transaction assert_reversal_eligible
reverse_eligible env id none b = (thrown (codes "TRANSACTION_NOT_FOUND"), b)
reverse_eligible env id (some t) b = elim (assert_reversal_eligible (status_text t.status)) [
  | some e ↦ (thrown (codes "TRANSACTION_NOT_REVERSIBLE"), b)
  | none ↦ reverse_transaction env id b
]

-- `reverseTransactionWithReason`; the reason and the actor enter the metadata.
unfoldable pub reverse_transaction_with_reason : LedgerEnv → Text → Book → Ending × Book
unfolding reverse_eligible find_tx
reverse_transaction_with_reason env id b = reverse_eligible env id (find_tx id b.transactions) b
