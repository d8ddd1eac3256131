-- ===== src/Financial/Eligibility.antt =====
-- Settlement and reversal against the table of transaction statuses.
use orbi_insitutional_core_v.Prelude.{◌≡◌, refl, if◌then◌else◌, ◌||◌, none, some}
use orbi_insitutional_core_v.Prelude.Text.{Text, codes}
use orbi_insitutional_core_v.Lifecycle.{
  Status, created, pending, authorized, processing, settled, completed, failed, reversed, refunded,
  cancelled, held_for_review, same, is_valid_transition,
}
use orbi_insitutional_core_v.Financial.{assert_reversal_eligible}

-- The text that stands for a status in the database.
abbrev pub status_text : Status → Text
status_text created = codes "created"
status_text pending = codes "pending"
status_text authorized = codes "authorized"
status_text processing = codes "processing"
status_text settled = codes "settled"
status_text completed = codes "completed"
status_text failed = codes "failed"
status_text reversed = codes "reversed"
status_text refunded = codes "refunded"
status_text cancelled = codes "cancelled"
status_text held_for_review = codes "held_for_review"

-- The reversal guard lets a transaction through exactly when the table of transitions has an edge
-- to `reversed`, or the transaction is created or pending, where the table has no such edge.
pub reversal_guard :
    (s : Status)
    → assert_reversal_eligible (status_text s) ≡ (
        if is_valid_transition s reversed || same s created || same s pending
        then none
        else some tt)
unfolding assert_reversal_eligible is_valid_transition
reversal_guard created = refl
reversal_guard _ = refl
