-- ===== src/Review/Twice.antt =====
-- A reversal that is asked for again, after one that has ended.
use orbi_insitutional_core_v.Prelude.{
  ◌≡◌, refl, inl, inr, Bool, true, false, ◌||◌, Option, none, some, List, [], ◌∷◌, if◌then◌else◌,
  Bool-cases, Option-cases, any, map,
}
use orbi_insitutional_core_v.Prelude.Text.{Text, codes}
use orbi_insitutional_core_v.Lifecycle.{
  Status, created, pending, reversed, same, is_valid_transition,
}
use orbi_insitutional_core_v.Financial.{assert_reversal_eligible}
use orbi_insitutional_core_v.Financial.Eligibility.{status_text}
use orbi_insitutional_core_v.Review.{
  LedgerLeg, Tx, Book, Ending, finished, thrown, find_tx, legs_of, log_transaction_event,
}
use orbi_insitutional_core_v.Review.Ledger.{
  LedgerEnv, update_transaction_status, prepare_legs, commit_legs, commit_prepared,
  post_transaction_with_ledger, reversal_tx, reversal_leg, mark_reversed, reverse_found,
  reverse_transaction, wallet_is,
}
use orbi_insitutional_core_v.Review.Flow.{reverse_eligible, reverse_transaction_with_reason}
use orbi_insitutional_core_v.Review.Rows.{find_tx-append, find_tx-update_status, status_after}

-- A row with the status, wherever the call ends.
abbrev HasRow : Text → Tx → Ending × Book → Type 0
HasRow id t (thrown e, b) = Unit
HasRow id t (finished, b) = find_tx id b.transactions ≡ some t

commit_legs-HasRow :
    (id : Text) (t new : Tx) (ps : List LedgerLeg) (o : Option Text) (b : Book)
    → find_tx id b.transactions ≡ some t
    → HasRow id t (commit_legs new ps o b)
unfolding commit_legs log_transaction_event
commit_legs-HasRow id t new ps none b e = find_tx-append id b.transactions (new ∷ []) t e
commit_legs-HasRow id t new ps (some m) b e = tt

commit_prepared-HasRow :
    (id : Text) (t new : Tx) (env : LedgerEnv) (o : Option (List LedgerLeg)) (b : Book)
    → find_tx id b.transactions ≡ some t
    → HasRow id t (commit_prepared env new o b)
unfolding commit_prepared
commit_prepared-HasRow id t new env none b e = tt
commit_prepared-HasRow id t new env (some ps) b e =
    commit_legs-HasRow id t new ps (env.rpc_error ps) b e

post-HasRow :
    (id : Text) (t new : Tx) (env : LedgerEnv) (ls : List LedgerLeg) (b : Book)
    → find_tx id b.transactions ≡ some t
    → HasRow id t (post_transaction_with_ledger env new ls b)
unfolding post_transaction_with_ledger
post-HasRow id t new env ls b e =
    let k = commit_prepared-HasRow id t new env (prepare_legs ls) b e in
    elim (Bool-cases (any (wallet_is (λ v. true)) ls)) [
      | inl x ↦ elim (Bool-cases (any (wallet_is env.is_internal) ls)) [
        | inl y ↦ rw (post_transaction_with_ledger, x, y) k
        | inr y ↦ rw (post_transaction_with_ledger, x, y) tt
      ]
      | inr x ↦ rw (post_transaction_with_ledger, x) k
    ]

found-HasRow :
    (id : Text) (t : Tx) (r : Ending × Book) → find_tx id r.1.transactions ≡ some t → HasRow id t r
found-HasRow id t (thrown m, b) e = tt
found-HasRow id t (finished, b) e = e

mark_reversed-HasRow :
    (env : LedgerEnv) (id : Text) (t : Tx) (r : Ending × Book)
    → HasRow id t r
    → HasRow id
        (record t { status = status_after env.update_refused t.status reversed })
        (mark_reversed env id r)
unfolding mark_reversed
mark_reversed-HasRow env id t (thrown m, b) h = tt
mark_reversed-HasRow env id t (finished, b) h =
    found-HasRow id (record t { status = status_after env.update_refused t.status reversed })
      (update_transaction_status env id reversed b) (find_tx-update_status env id reversed b t h)

-- What a second request does, if the first has ended.
abbrev pub IsAnswered : LedgerEnv → Bool → Text → Status → Ending × Book → Type 0
IsAnswered env refused id s (thrown m, b) = Unit
IsAnswered env refused id s (finished, b) = reverse_transaction_with_reason env id b ≡ (
    if refused || (same s created || same s pending)
    then reverse_transaction env id b
    else (thrown (codes "TRANSACTION_NOT_REVERSIBLE"), b))

-- The guard, on the status that a reversal leaves.
guard_after :
    (refused : Bool) (s : Status)
    → assert_reversal_eligible (status_text s) ≡ none
    → assert_reversal_eligible (status_text (status_after refused s reversed))
      ≡ (if refused || (same s created || same s pending) then none else some tt)
unfolding assert_reversal_eligible is_valid_transition
guard_after true s k = k
guard_after false created k = refl
guard_after false _ k = refl

HasRow-IsAnswered :
    (env : LedgerEnv) (refused : Bool) (id : Text) (t : Tx) (r : Ending × Book)
    → assert_reversal_eligible (status_text t.status) ≡ none
    → HasRow id (record t { status = status_after refused t.status reversed }) r
    → IsAnswered env refused id t.status r
unfolding reverse_transaction_with_reason reverse_eligible reverse_transaction
HasRow-IsAnswered env refused id t (thrown m, b) k h = tt
HasRow-IsAnswered env refused id t (finished, b) k h =
    elim (Bool-cases (refused || (same t.status created || same t.status pending))) [
      | inl x ↦
          rw (h, reverse_eligible, guard_after refused t.status k, x)
            (rw (reverse_transaction, h) refl)
      | inr x ↦ rw (h, reverse_eligible, guard_after refused t.status k, x) refl
    ]

-- After a reversal with a reason that has ended, a second one is refused as not reversible, except
-- for a transaction that was created or pending, and where the database refused the update of the
-- status in the first: then it is reversed again, as if it had not been reversed before.
pub second_reversal :
    (first second : LedgerEnv) (id : Text) (b : Book) (t : Tx)
    → find_tx id b.transactions ≡ some t
    → IsAnswered second first.update_refused id t.status
        (reverse_transaction_with_reason first id b)
unfolding reverse_transaction_with_reason reverse_transaction reverse_found
second_reversal first second id b t e =
    elim (Option-cases (assert_reversal_eligible (status_text t.status))) [
      | inr k ↦ rw (e, reverse_eligible, k.1) tt
      | inl k ↦
          rw (e, reverse_eligible, k, reverse_transaction, e)
            (HasRow-IsAnswered second first.update_refused id t
              (mark_reversed first id (
                post_transaction_with_ledger first (reversal_tx first.new_id t)
                  (map (reversal_leg first.new_id) (legs_of id b.ledger)) b))
              k
              (mark_reversed-HasRow first id t
                (post_transaction_with_ledger first (reversal_tx first.new_id t)
                  (map (reversal_leg first.new_id) (legs_of id b.ledger)) b)
                (post-HasRow id t (reversal_tx first.new_id t) first
                  (map (reversal_leg first.new_id) (legs_of id b.ledger)) b e)))
    ]
