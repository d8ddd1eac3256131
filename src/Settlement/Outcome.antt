-- ===== src/Settlement/Outcome.antt =====
-- What one call of `commitToInternalLedger` leaves behind, its claim and its `catch` block included, when
-- no other worker interferes.
use mathlib.Core.Path.{ap, subst}
use orbi_insitutional_core_v.Prelude.{
  List, ◌≡◌, ◌⊎◌, inl, inr, refl, sym, true, none, some, Option-cases, Bool-cases,
}
use orbi_insitutional_core_v.Prelude.Text.{Text}
use orbi_insitutional_core_v.Settlement.State.{
  SettlementError, found, fail_row, already_in_progress, record_failure, throw, handle, AuditEvent,
  Settlement, Posting, ready_for_internal_commit, Db, Result, ok, thrown, change, update, same,
}
use orbi_insitutional_core_v.Settlement.Commit.{
  reply, settled, recover_commit, CommitEnv, book, claim, take_claim, lost_claim, is_claimable,
  claimed, commit_settlement, commit_to_internal_ledger, structured_reason, settled_tx,
}
use orbi_insitutional_core_v.Settlement.Booking.{
  IsFailedUnless, FailsLate, Posted, IsSettledBy, IsFailedFor, FeesAreSane, alone, Books,
  book-Books,
}

module _ (env : CommitEnv) (s : Settlement) where
  -- How the `try` block ends.
  abbrev Ends : Db → Result Text × Db → Type 0
  Ends d (ok t, d') =
      ((settled_tx s ≡ some t) × (d' ≡ d))
      ⊎ ((same s.current_phase ready_for_internal_commit ≡ true)
          × (t ≡ env.financial_tx_id)
          × Posted s d.ledger d'.ledger
          × IsSettledBy t d'.row)
  Ends d (thrown e, d') =
      ((row : Settlement) × (d'.row ≡ some row))
      × ((d'.ledger ≡ d.ledger) ⊎ (Posted s d.ledger d'.ledger × FailsLate env))

  Books-Ends :
      (ledger : List Posting) (audit : List AuditEvent)
      → same s.current_phase ready_for_internal_commit ≡ true
      → (r : Result Text × Db) → Books env s (update (claimed env s) (found s ledger audit)) r
      → Ends (found s ledger audit) r
  Books-Ends ledger audit ready (ok t, d') (ht, posted, hrow) =
      let settled_row : IsSettledBy t d'.row =
        subst (IsSettledBy t) (sym hrow) (refl, ap some (sym ht)) in
      inr (ready, ht, posted, settled_row)
  Books-Ends ledger audit ready (thrown e, d') (inl hrow, kept) = ((claimed env s s, hrow), kept)
  Books-Ends ledger audit ready (thrown e, d') (inr hrow, kept) =
      ((settled env s (claimed env s s), hrow), kept)

  lost_claim_if : settled_tx s ≡ none → lost_claim (some s) ≡ throw already_in_progress
  unfolding lost_claim
  lost_claim_if e = rw (e, lost_claim) refl

  commit_settlement-Ends :
      FeesAreSane env
      → (ledger : List Posting) (audit : List AuditEvent)
      → let d = found s ledger audit in Ends d (commit_settlement (alone env) s d)
  unfolding commit_settlement claim take_claim reply
  commit_settlement-Ends sane ledger audit = elim (Option-cases (settled_tx s)) [
    | inr (t, e) ↦ elim (Bool-cases (env.faults 4)) [
      | inl e4 ↦ rw (e, commit_settlement, reply, e4) ((s, refl), inl refl)
      | inr e4 ↦ rw (e, commit_settlement, reply, e4) (inl (e, refl))
    ]
    | inl e ↦ elim (Bool-cases (same s.current_phase ready_for_internal_commit)) [
      | inr e' ↦ rw (e, e', commit_settlement) ((s, refl), inl refl)
      | inl e' ↦ elim (Bool-cases (env.faults 0)) [
        | inl e0 ↦ rw (e, e', e0, commit_settlement, claim) ((s, refl), inl refl)
        | inr e0 ↦ elim (Bool-cases (is_claimable s.phase_started_at s)) [
          | inr c ↦
              rw (e, e', e0, c, commit_settlement, claim, lost_claim_if e) ((s, refl), inl refl)
          | inl c ↦
              let d = update (claimed env s) (found s ledger audit) in
              rw (e, e', e0, c, commit_settlement, claim, take_claim)
                (Books-Ends ledger audit e' (book (alone env) s d) (book-Books env s sane d))
        ]
      ]
    ]
  ]

-- The error is the cause of the failure, unless a log of the failure has thrown.
abbrev pub IsRethrown : CommitEnv → SettlementError → SettlementError → Type 0
IsRethrown env cause e = (e ≡ cause) ⊎ (env.faults 5 ≡ true) ⊎ (env.faults 6 ≡ true)

-- What one call of `commitToInternalLedger` does to a settlement that it finds.
abbrev pub Commits : CommitEnv → Settlement → List Posting → Result Text × Db → Type 0
Commits env s ledger (ok t, d') =
    ((settled_tx s ≡ some t) × (d'.ledger ≡ ledger) × (d'.row ≡ some s))
    ⊎ ((same s.current_phase ready_for_internal_commit ≡ true)
        × (t ≡ env.financial_tx_id)
        × Posted s ledger d'.ledger
        × IsSettledBy t d'.row)
Commits env s ledger (thrown e, d') =
    ((cause : SettlementError) × IsFailedUnless (env.faults 2) (structured_reason cause) d'.row
      × IsRethrown env cause e)
    × ((d'.ledger ≡ ledger) ⊎ (Posted s ledger d'.ledger × FailsLate env))

-- What the `catch` block leaves, for each of the faults it may meet.
abbrev Recovers : CommitEnv → SettlementError → Db → Result Text × Db → Type 0
Recovers env cause d (ok t, d') = ⊥
Recovers env cause d (thrown e, d') =
    IsFailedUnless (env.faults 2) (structured_reason cause) d'.row
    × IsRethrown env cause e
    × (d'.ledger ≡ d.ledger)

recover_commit-Recovers :
    (env : CommitEnv) (cause : SettlementError) (d : Db) (row : Settlement)
    → d.row ≡ some row
    → Recovers env cause d (recover_commit (alone env) cause d)
unfolding record_failure
recover_commit-Recovers env cause d row there =
    let failed : IsFailedFor (structured_reason cause)
        (change (fail_row (structured_reason cause)) d.row) =
      rw there (refl, refl) in
    elim (Bool-cases (env.faults 2)) [
      | inl e2 ↦ elim (Bool-cases (env.faults 5)) [
        | inl e5 ↦ rw (e2, e5) (inr e2, inr (inl e5), refl)
        | inr e5 ↦ elim (Bool-cases (env.faults 6)) [
          | inl e6 ↦ rw (e2, e5, e6) (inr e2, inr (inr e6), refl)
          | inr e6 ↦ rw (e2, e5, e6) (inr e2, inl refl, refl)
        ]
      ]
      | inr e2 ↦ elim (Bool-cases (env.faults 5)) [
        | inl e5 ↦ rw (e2, e5) (inl failed, inr (inl e5), refl)
        | inr e5 ↦ elim (Bool-cases (env.faults 6)) [
          | inl e6 ↦ rw (e2, e5, e6) (inl failed, inr (inr e6), refl)
          | inr e6 ↦ rw (e2, e5, e6) (inl failed, inl refl, refl)
        ]
      ]
    ]

Recovers-Commits :
    (env : CommitEnv) (s : Settlement) (ledger : List Posting) (cause : SettlementError) (d : Db)
    → (d.ledger ≡ ledger) ⊎ (Posted s ledger d.ledger × FailsLate env)
    → (r : Result Text × Db) → Recovers env cause d r
    → Commits env s ledger r
Recovers-Commits env s ledger cause d kept (ok t, d') h = absurd h
Recovers-Commits env s ledger cause d kept (thrown e, d') (failed, why, same_ledger) = (
  (cause, failed, why),
  subst (λ l. (l ≡ ledger) ⊎ (Posted s ledger l × FailsLate env)) (sym same_ledger) kept,
)

-- One call of `commitToInternalLedger`, with no other worker at the settlement, no negative fee
-- and a fee account that has an id: if it returns, the settlement was already booked and nothing
-- changed, or it was ready and is now settled by the new transaction, with exactly one balanced
-- posting added, of the amount, to the wallet. If it throws, the settlement is failed for the
-- reason of a cause, unless the update that records the failure was refused; the error is that
-- cause, unless a log of the failure threw; and the ledger is as it was, unless the cause is a
-- failure after the posting: of the last update, of its log, or of the read of the balance.
pub commit-Commits :
    (env : CommitEnv) (s : Settlement) (ledger : List Posting) (audit : List AuditEvent)
    → FeesAreSane env
    → Commits env s ledger (commit_to_internal_ledger (alone env) (found s ledger audit))
unfolding commit_to_internal_ledger
commit-Commits env s ledger audit sane =
    go (commit_settlement (alone env) s (found s ledger audit))
      (commit_settlement-Ends env s sane ledger audit)
  where
    go :
        (r : Result Text × Db)
        → Ends env s (found s ledger audit) r
        → Commits env s ledger (handle (recover_commit (alone env)) r)
    go (ok t, d') (inl (h, kept)) = inl (h, ap (λ d. d.ledger) kept, ap (λ d. d.row) kept)
    go (ok t, d') (inr h) = inr h
    go (thrown e, d') ((row, there), kept) =
        Recovers-Commits env s ledger e d' kept (recover_commit (alone env) e d')
          (recover_commit-Recovers env e d' row there)
