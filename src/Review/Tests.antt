-- ===== src/Review/Tests.antt =====
-- Reviews and reversals of single transactions, and the theorems at single inputs.
use orbi_insitutional_core_v.Prelude.{◌≡◌, refl, true, false, false, none, some, [], ◌∷◌}
use orbi_insitutional_core_v.Prelude.Int.{pos}
use orbi_insitutional_core_v.Prelude.Text.{Text, codes, text_eq}
use orbi_insitutional_core_v.Lifecycle.{pending, completed}
use orbi_insitutional_core_v.Financial.{assert_reversal_eligible}
use orbi_insitutional_core_v.Review.{
  EntryType, debit, credit, LedgerLeg, Tx, Book, finished, find_tx, legs_of,
}
use orbi_insitutional_core_v.Review.Ledger.{LedgerEnv, reverse_transaction}
use orbi_insitutional_core_v.Review.Flow.{reverse_transaction_with_reason, Settle}
use orbi_insitutional_core_v.Review.Net.{IsCancelled, reverse_transaction-IsCancelled}
use orbi_insitutional_core_v.Review.Twice.{IsAnswered, second_reversal}
use orbi_insitutional_core_v.Review.Approval.{reviewed, reviewed-row}

abbrev transfer : Tx
transfer = record {
  id = codes "t";
  user_id = codes "u";
  type = codes "transfer";
  status = pending;
  amount = pos 70;
  created_at = 1000;
  transaction_lock = none;
  manual_review = false;
}

abbrev leg : Text → EntryType → LedgerLeg
leg w e = record { transaction_id = codes "t"; wallet_id = some w; entry_type = e; amount = pos 70 }

abbrev book : Book
book = record {
  transactions = transfer ∷ [];
  ledger = leg (codes "a") debit ∷ leg (codes "b") credit ∷ [];
  events = [];
}

abbrev env : LedgerEnv
env = record {
  new_id = codes "r";
  now = 5000;
  is_internal = λ w. true;
  rpc_error = λ ls. none;
  update_refused = false;
  status_error = λ s. none;
}

abbrev settle : Settle
settle t b = (finished, b)

reverse_transaction-IsCancelled_example :
    IsCancelled env
      (codes "a")
      (legs_of (codes "t") book.ledger)
      book
      (reverse_transaction env (codes "t") book)
reverse_transaction-IsCancelled_example =
    reverse_transaction-IsCancelled (codes "a") env (codes "t") book

second_reversal_example :
    IsAnswered env false (codes "t") pending (reverse_transaction_with_reason env (codes "t") book)
unfolding find_tx text_eq
second_reversal_example = second_reversal env env (codes "t") book transfer refl

-- A pending transfer that is locked twice is completed, although nothing has settled it.
reviewed-row_example :
    (final : Tx) × (find_tx
        (codes "t")
        (reviewed env settle (codes "t") (codes "s") none true book).1.transactions
      ≡ some final)
    × (final.status ≡ completed)
unfolding find_tx text_eq assert_reversal_eligible
reviewed-row_example =
    reviewed-row env settle (codes "s") none true transfer book (refl, λ s. refl) refl refl refl
