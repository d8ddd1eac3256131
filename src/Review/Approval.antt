-- ===== src/Review/Approval.antt =====
-- A transaction through a review: locked by the staff, once or again, audited with success, approved.
use orbi_insitutional_core_v.Prelude.{
  ◌≡◌, refl, ap, ◌∙◌, inl, inr, Bool, true, false, Option, none, some, if◌then◌else◌, Bool-cases, ℕ,
}
use orbi_insitutional_core_v.Prelude.Text.{Text}
use orbi_insitutional_core_v.Lifecycle.{
  Status, pending, authorized, completed, held_for_review, same, is_valid_transition,
}
use orbi_insitutional_core_v.Financial.{assert_reversal_eligible}
use orbi_insitutional_core_v.Financial.Eligibility.{status_text}
use orbi_insitutional_core_v.Review.{
  audit_passed, TransactionLock, Tx, Book, Ending, find_tx, log_transaction_event,
}
use orbi_insitutional_core_v.Review.Ledger.{LedgerEnv}
use orbi_insitutional_core_v.Review.Flow.{
  LockOptions, staff, new_lock, hold, hold_moved, lock_found, lock_transaction_for_review, audited,
  audit_found, record_audit_decision, approved_status, needs_settlement, resolve, Settle,
  approve_found, approve_reviewed_transaction,
}
use orbi_insitutional_core_v.Review.Rows.{find_tx-update_tx, Takes, update_status_taken, moved_to}

abbrev pub held : ℕ → Option ℕ → Tx → Tx
held now hours t = record t {
  status = held_for_review;
  transaction_lock = some (new_lock now hours t.status);
  manual_review = true;
}

abbrev pub by_staff : Option ℕ → LockOptions
by_staff hours = record { actor_role = staff; review_window_hours = hours }

hold-row :
    (env : LedgerEnv) (hours : Option ℕ) (t : Tx) (b : Book)
    → Takes env
    → find_tx t.id b.transactions ≡ some t
    → find_tx t.id (hold env (by_staff hours) t b).1.transactions ≡ some (held env.now hours t)
unfolding hold hold_moved log_transaction_event
hold-row env hours t b a e = elim (Bool-cases (same t.status held_for_review)) [
  | inl x ↦
      rw (x, hold_moved)
        (find_tx-update_tx t.id
          (λ y. record y {
            status = held_for_review;
            transaction_lock = some (new_lock env.now hours t.status);
            manual_review = true;
          })
          b.transactions t (λ y. refl) e)
  | inr x ↦
      let taken = update_status_taken env t.id held_for_review b t a e in
      rw (x, taken.1, hold_moved)
        (find_tx-update_tx t.id
          (λ y. record y {
            status = held_for_review;
            transaction_lock = some (new_lock env.now hours t.status);
            manual_review = true;
          })
          taken.0.transactions (record t { status = moved_to t.status held_for_review }) (λ y. refl)
          taken.2)
]

lock-row :
    (env : LedgerEnv) (actor : Text) (hours : Option ℕ) (t : Tx) (b : Book)
    → Takes env
    → find_tx t.id b.transactions ≡ some t
    → assert_reversal_eligible (status_text t.status) ≡ none
    → find_tx t.id (lock_transaction_for_review env t.id actor (by_staff hours) b).1.transactions
      ≡ some (held env.now hours t)
unfolding lock_transaction_for_review lock_found
lock-row env actor hours t b a e k = rw (e, lock_found, k) (hold-row env hours t b a e)

-- A row that is held, with its lock.
abbrev under_review : Tx → TransactionLock → Tx
under_review t l = record t {
  status = held_for_review;
  transaction_lock = some l;
  manual_review = true;
}

audit-row :
    (passed : Bool) (t : Tx) (l : TransactionLock) (b : Book)
    → find_tx t.id b.transactions ≡ some (under_review t l)
    → find_tx t.id (record_audit_decision t.id passed b).1.transactions
      ≡ some (under_review t (audited passed (some l)))
unfolding record_audit_decision audit_found log_transaction_event
audit-row passed t l b e = rw e (
    find_tx-update_tx t.id (λ x. record x { transaction_lock = some (audited passed (some l)) })
      b.transactions (under_review t l) (λ x. refl) e)

approval_moves :
    (s : Status) → moved_to held_for_review (approved_status (some s)) ≡ approved_status (some s)
unfolding approved_status is_valid_transition
approval_moves pending = refl
approval_moves authorized = refl
approval_moves _ = refl

abbrev passed_lock : TransactionLock → TransactionLock
passed_lock l = record l { audit_status = audit_passed }

approve-row :
    (env : LedgerEnv) (settle : Settle) (t : Tx) (l : TransactionLock) (b : Book)
    → Takes env
    → find_tx t.id b.transactions ≡ some (under_review t (passed_lock l))
    → needs_settlement (some l.previous_status) t.type ≡ false
    → find_tx t.id (approve_reviewed_transaction env settle t.id b).1.transactions
      ≡ some (record t {
        status = approved_status (some l.previous_status);
        transaction_lock = some (record (passed_lock l) { locked = false });
        manual_review = false;
      })
unfolding approve_reviewed_transaction approve_found resolve log_transaction_event
approve-row env settle t l b a e n =
    let next = approved_status (some l.previous_status) in
    let moved : Tx = record (under_review t (passed_lock l)) {
      status = moved_to held_for_review next;
    } in
    let taken = update_status_taken env t.id next b (under_review t (passed_lock l)) a e in
    rw (e, approve_found, n, taken.1)
      (find_tx-update_tx t.id
          (λ x. record x {
            transaction_lock = some (record (passed_lock l) { locked = false });
            manual_review = false;
          })
          taken.0.transactions moved (λ x. refl) taken.2
        ∙ ap
            (λ s. some (record t {
              status = s;
              transaction_lock = some (record (passed_lock l) { locked = false });
              manual_review = false;
            }))
            (approval_moves l.previous_status))

-- The review of a transaction that is locked once, or again.
pub reviewed : LedgerEnv → Settle → Text → Text → Option ℕ → Bool → Book → Ending × Book
reviewed env settle id actor hours again b =
    let lock : Book → Book = λ x. (lock_transaction_for_review env id actor (by_staff hours) x).1 in
    let locked = if again then lock (lock b) else lock b in
    approve_reviewed_transaction env settle id (record_audit_decision id true locked).1

-- The status that the last lock has found.
abbrev pub status_at_lock : Bool → Status → Status
status_at_lock again s = if again then held_for_review else s

eligible_while_held : assert_reversal_eligible (status_text held_for_review) ≡ none
unfolding assert_reversal_eligible
eligible_while_held = refl

locked-row :
    (env : LedgerEnv) (actor : Text) (hours : Option ℕ) (again : Bool) (t : Tx) (b : Book)
    → Takes env
    → find_tx t.id b.transactions ≡ some t
    → assert_reversal_eligible (status_text t.status) ≡ none
    → let lock : Book → Book =
        λ x. (lock_transaction_for_review env t.id actor (by_staff hours) x).1 in
      find_tx t.id (if again then lock (lock b) else lock b).transactions
      ≡ some (under_review t (new_lock env.now hours (status_at_lock again t.status)))
locked-row env actor hours false t b a e k = lock-row env actor hours t b a e k
locked-row env actor hours true t b a e k =
    lock-row env actor hours (held env.now hours t)
      (lock_transaction_for_review env t.id actor (by_staff hours) b).1 a
      (lock-row env actor hours t b a e k) eligible_while_held

-- A pending or authorized transaction gets its status back; any other is completed.
abbrev pub restored : Status → Status
restored pending = pending
restored authorized = authorized
restored _ = completed

approved_status-restored : (s : Status) → approved_status (some s) ≡ restored s
unfolding approved_status
approved_status-restored pending = refl
approved_status-restored authorized = refl
approved_status-restored _ = refl

approved_after :
    (again : Bool) (s : Status)
    → approved_status (some (status_at_lock again s)) ≡ (if again then completed else restored s)
unfolding approved_status
approved_after true s = refl
approved_after false s = approved_status-restored s

-- A transaction that may be reversed, and that the staff locks, audits with success and approves,
-- where every update of a status is taken and nothing is thrown after one, ends in its former
-- status if that was pending or authorized, and as completed otherwise; and if it is locked twice,
-- it ends as completed whatever its status was. A transfer that was processing when it was locked
-- last is settled instead, and not covered.
pub reviewed-row :
    (env : LedgerEnv) (settle : Settle) (actor : Text) (hours : Option ℕ) (again : Bool) (t : Tx)
    (b : Book)
    → Takes env
    → find_tx t.id b.transactions ≡ some t
    → assert_reversal_eligible (status_text t.status) ≡ none
    → needs_settlement (some (status_at_lock again t.status)) t.type ≡ false
    → (final : Tx) × (find_tx t.id (reviewed env settle t.id actor hours again b).1.transactions
        ≡ some final)
      × (final.status ≡ (if again then completed else restored t.status))
unfolding reviewed
reviewed-row env settle actor hours again t b a e k n =
    let l = new_lock env.now hours (status_at_lock again t.status) in
    let lock : Book → Book =
      λ x. (lock_transaction_for_review env t.id actor (by_staff hours) x).1 in
    let book = if again then lock (lock b) else lock b in
    let found = audit-row true t l book (locked-row env actor hours again t b a e k) in
    (
      record t {
        status = approved_status (some (status_at_lock again t.status));
        transaction_lock = some (record (passed_lock l) { locked = false });
        manual_review = false;
      },
      approve-row env settle t l (record_audit_decision t.id true book).1 a found n,
      approved_after again t.status,
    )
