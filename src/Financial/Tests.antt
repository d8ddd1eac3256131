-- ===== src/Financial/Tests.antt =====
-- Runs of the financial rules, and the theorems at single inputs.
use orbi_insitutional_core_v.Prelude.{◌≡◌, none, some, ◌||◌, if◌then◌else◌}
use orbi_insitutional_core_v.Prelude.Text.{codes}
use orbi_insitutional_core_v.Lifecycle.{created, pending, reversed, same, is_valid_transition}
use orbi_insitutional_core_v.Financial.{assert_reversal_eligible}
use orbi_insitutional_core_v.Financial.Eligibility.{reversal_guard}

reversal_guard_example : assert_reversal_eligible (codes "pending") ≡ (
    if is_valid_transition pending reversed || same pending created || same pending pending
    then none
    else some tt)
reversal_guard_example = reversal_guard pending
