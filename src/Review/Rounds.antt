-- ===== src/Review/Rounds.antt =====
-- `approveAllAuditPassedTransactions` and `autoReverseHeldTransactions`: the rounds over the rows that
-- the query for held transactions gives.
use orbi_insitutional_core_v.Prelude.{
  ℕ, suc, ◌+◌, ◌*◌, not, none, some, List, [], ◌∷◌, ◌++◌, if◌then◌else◌, ltb, ◌==◌,
}
use orbi_insitutional_core_v.Prelude.Text.{Text}
use orbi_insitutional_core_v.Lifecycle.{held_for_review, same}
use orbi_insitutional_core_v.Review.{Tx, Book, Ending, finished, thrown}
use orbi_insitutional_core_v.Review.Ledger.{LedgerEnv}
use orbi_insitutional_core_v.Review.Flow.{
  Settle, hour, has_passed, approve_reviewed_transaction, reverse_transaction_with_reason,
}

-- `.eq('status', 'held_for_review')`
unfoldable pub held_rows : List Tx → List Tx
held_rows [] = []
held_rows (t ∷ ts) =
    let rest = held_rows ts in if same t.status held_for_review then t ∷ rest else rest

unfoldable pub candidates : List Tx → List Tx
candidates [] = []
candidates (t ∷ ts) =
    let rest = candidates ts in if has_passed t.transaction_lock then t ∷ rest else rest

pub record ApprovalSummary : Type 0 where
  pub approved_ids : List Text
  pub failed_items : List (Text × Text)

unfoldable pub note_ending : Text → Ending → ApprovalSummary → ApprovalSummary
note_ending id finished s = record s { approved_ids = s.approved_ids ++ id ∷ [] }
note_ending id (thrown e) s = record s { failed_items = s.failed_items ++ (id, e) ∷ [] }

unfoldable pub approve_each :
    LedgerEnv → Settle → List Tx → ApprovalSummary → Book → ApprovalSummary × Book
unfolding approve_reviewed_transaction note_ending
approve_each env settle [] s b = (s, b)
approve_each env settle (t ∷ ts) s b =
    let r : Ending × Book = approve_reviewed_transaction env settle t.id b in
    approve_each env settle ts (note_ending t.id r.0 s) r.1

unfoldable pub approve_all_audit_passed_transactions :
    LedgerEnv → Settle → Book → ApprovalSummary × Book
unfolding approve_each held_rows candidates
approve_all_audit_passed_transactions env settle b =
    approve_each env settle (candidates (held_rows b.transactions))
      (record { approved_ids = []; failed_items = [] }) b

-- A time that is missing is 0. `changed_at` is `updated_at || created_at` of a row.
unfoldable pub due_at : (Tx → ℕ) → Tx → ℕ
due_at changed_at t = elim t.transaction_lock [
  | none ↦ changed_at t + 24 * hour
  | some l ↦
      if not (l.auto_reverse_at == 0)
      then l.auto_reverse_at
      else (if not (l.locked_at == 0) then l.locked_at else changed_at t) + 24 * hour
]

-- The reversals of the rows that are due; each has its own id, and one that throws is only logged.
unfoldable pub reverse_each : (Text → LedgerEnv) → (Tx → ℕ) → ℕ → List Tx → Book → ℕ × Book
unfolding due_at reverse_transaction_with_reason
reverse_each env changed_at now [] b = (0, b)
reverse_each env changed_at now (t ∷ ts) b =
    let is_early = ltb now (due_at changed_at t) in
    let r : Ending × Book = reverse_transaction_with_reason (env t.id) t.id b in
    let rest : ℕ × Book = reverse_each env changed_at now ts (if is_early then b else r.1) in
    if is_early then rest else elim r.0 [ finished ↦ (suc rest.0, rest.1) | thrown e ↦ rest ]

unfoldable pub auto_reverse_held_transactions : (Text → LedgerEnv) → (Tx → ℕ) → ℕ → Book → ℕ × Book
unfolding reverse_each held_rows
auto_reverse_held_transactions env changed_at now b =
    reverse_each env changed_at now (held_rows b.transactions) b
