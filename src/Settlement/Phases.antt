-- ===== src/Settlement/Phases.antt =====
-- What a commit that is refused, or that loses its claim, does to the settlement.
use orbi_insitutional_core_v.Prelude.Text.{includes, starts_with}
use orbi_insitutional_core_v.Prelude.{◌≡◌, refl, true, false, none, some, List}
use orbi_insitutional_core_v.Settlement.Commit.{
  structured_reason, CommitEnv, settled_tx, is_claimable, claim, lost_claim, commit_settlement,
  commit_to_internal_ledger,
}
use orbi_insitutional_core_v.Settlement.State.{
  found, Settlement, Posting, AuditEvent, Db, thrown, SettlementError, already_in_progress, same,
  ready_for_internal_commit, record_failure, internal_commit_already_in_progress,
}
use orbi_insitutional_core_v.Settlement.Booking.{IsFailedFor}

reason_of_in_progress : structured_reason already_in_progress ≡ internal_commit_already_in_progress
unfolding structured_reason includes starts_with
reason_of_in_progress = refl

-- A call whose `try` block throws.
catches :
    (env : CommitEnv) (s : Settlement) (ledger : List Posting) (audit : List AuditEvent) (d' : Db)
    (e : SettlementError) (row : Settlement)
    → let d = found s ledger audit in
      commit_settlement env s d ≡ (thrown e, d')
      → d'.row ≡ some row
      → env.faults 2 ≡ false
      → env.faults 5 ≡ false
      → env.faults 6 ≡ false
      → let (r, after) = commit_to_internal_ledger env d in
        (r ≡ thrown e) × (after.ledger ≡ d'.ledger) × IsFailedFor (structured_reason e) after.row
unfolding commit_to_internal_ledger record_failure
catches env s ledger audit d' e row hc hrow f2 f5 f6 =
    rw (hc, f2, f5, f6, hrow) (refl, refl, (refl, refl))

-- A worker that finds the settlement ready but whose claim comes too late, as another took it
-- first and has not settled it yet, marks the settlement as failed while the other is still
-- booking it, where no statement or log of the failure fails.
pub lost_claim_fails_row :
    (env : CommitEnv) (s row : Settlement) (ledger : List Posting) (audit : List AuditEvent)
    → same s.current_phase ready_for_internal_commit ≡ true
    → settled_tx s ≡ none
    → (env.others 0 (found s ledger audit)).row ≡ some row
    → env.faults 0 ≡ false
    → is_claimable s.phase_started_at row ≡ false
    → settled_tx row ≡ none
    → env.faults 2 ≡ false
    → env.faults 5 ≡ false
    → env.faults 6 ≡ false
    → let (r, d') = commit_to_internal_ledger env (found s ledger audit) in
      (r ≡ thrown already_in_progress) × IsFailedFor internal_commit_already_in_progress d'.row
unfolding commit_settlement claim lost_claim
lost_claim_fails_row env s row ledger audit ready unbooked other fault lost unsettled f2 f5 f6 =
    let d = found s ledger audit in
    let e = already_in_progress in
    let claims : claim env s d ≡ (thrown e, env.others 0 d) =
      rw (claim, fault, other, lost, lost_claim, unsettled) refl in
    let throws : commit_settlement env s d ≡ (thrown e, env.others 0 d) =
      rw (unbooked, ready, commit_settlement, claims) refl in
    let (r, kept, failed) =
      catches env s ledger audit (env.others 0 d) e row throws other f2 f5 f6 in
    rw⁻¹ reason_of_in_progress (r, failed)
