-- ===== src/Settlement/Evidence.antt =====
-- What `startReconciliation` needs in order to answer that a payment is reconciled, and what it leaves
-- behind, when no other worker interferes.
use orbi_insitutional_core_v.Prelude.{
  ◌≡◌, ◌⊎◌, inl, inr, refl, Bool, true, false, Option, none, some, List, any, Bool-cases, arith,
}
use orbi_insitutional_core_v.Prelude.Text.{text_eq}
use orbi_insitutional_core_v.Settlement.Reconcile.{
  recover_reconciliation, Reconciliation, pass_reconciliation, refuse_again, refuse_reconciliation,
  Env, perform_reconciliation, is_ready_or_settled, is_already_applied, reconcile_settlement,
  run_reconciliation, start_reconciliation,
}
use orbi_insitutional_core_v.Settlement.State.{
  reconciliation_failed, audit_log, pure, db_error, FailureReason, ◌>>◌, reconciliation_running,
  found, Settlement, Posting, AuditEvent, Db, Result, ok, thrown, same, ready_for_internal_commit,
  external_pending, allowed_transitions, transition_lifecycle_phase, record_failure,
  get_trusted_provider_proof, trusted_sources, proof_source, key_matches, has_trusted_timestamp,
  get_provider_confirmation_key, provider_confirmation_required,
  provider_confirmation_already_applied, reconciliation_transition_denied, handle, fail_row,
}
use orbi_insitutional_core_v.Settlement.Rules.{if_rule}
use orbi_insitutional_core_v.Settlement.Booking.{IsFailedUnless}

-- The row's metadata names a trusted source and a time at which it confirmed this settlement.
abbrev pub HasTrustedProof : Settlement → Type 0
HasTrustedProof s =
    (any (λ t. text_eq t (proof_source s.metadata)) trusted_sources ≡ true)
    × (key_matches s.metadata (get_provider_confirmation_key s) ≡ true)
    × (has_trusted_timestamp s.metadata ≡ true)

unfoldable pub is_verified : Bool → Settlement → Bool
is_verified allow_stub s =
    (perform_reconciliation allow_stub s (get_provider_confirmation_key s)).verified

verified-cases :
    (allow_stub : Bool) (s : Settlement)
    → is_verified allow_stub s ≡ true
    → HasTrustedProof s ⊎ (allow_stub ≡ true)
unfolding is_verified perform_reconciliation get_trusted_provider_proof
verified-cases allow_stub s h = ground arith

abbrev pub undisturbed : Env → Env
undisturbed env = record env { others = λ k d. d }

-- What a refusal leaves, for each of the faults it may meet.
refusing :
    (refused unlogged lost : Bool) (reason : FailureReason) (row : Settlement)
    (ledger : List Posting) (audit : List AuditEvent) (P : Result Bool × Db → Type 0)
    → ((d : Db) → d.ledger ≡ ledger → IsFailedUnless refused reason d.row → P (ok false, d))
    → ((d : Db) (r : Settlement) → d.ledger ≡ ledger → d.row ≡ some r → P (thrown db_error, d))
    → P (
        (do
          record_failure refused unlogged reason
          audit_log lost reconciliation_failed
          pure false)
          (found row ledger audit))
unfolding record_failure
refusing true true lost reason row ledger audit P good bad = bad _ row refl refl
refusing true false true reason row ledger audit P good bad = bad _ row refl refl
refusing true false false reason row ledger audit P good bad = good _ refl (inr refl)
refusing false true lost reason row ledger audit P good bad = bad _ (fail_row reason row) refl refl
refusing false false true reason row ledger audit P good bad = bad _ (fail_row reason row) refl refl
refusing false false false reason row ledger audit P good bad = good _ refl (inl (refl, refl))

refusing_again :
    (refused unlogged : Bool) (reason : FailureReason) (row : Settlement) (ledger : List Posting)
    (audit : List AuditEvent) (P : Result Bool × Db → Type 0)
    → ((d : Db) → d.ledger ≡ ledger → IsFailedUnless refused reason d.row → P (ok false, d))
    → ((d : Db) (r : Settlement) → d.ledger ≡ ledger → d.row ≡ some r → P (thrown db_error, d))
    → P ((do record_failure refused unlogged reason; pure false) (found row ledger audit))
unfolding record_failure
refusing_again true true reason row ledger audit P good bad = bad _ row refl refl
refusing_again true false reason row ledger audit P good bad = good _ refl (inr refl)
refusing_again false true reason row ledger audit P good bad = bad _ (fail_row reason row) refl refl
refusing_again false false reason row ledger audit P good bad = good _ refl (inl (refl, refl))

abbrev pub IsReady : Option Settlement → Type 0
IsReady none = ⊥
IsReady (some s) = s.current_phase ≡ ready_for_internal_commit

refused_reason :
    (allow_stub : Bool) (s : Settlement)
    → is_verified allow_stub s ≡ false
    → (perform_reconciliation allow_stub s (get_provider_confirmation_key s)).reason
      ≡ some provider_confirmation_required
unfolding is_verified perform_reconciliation
refused_reason allow_stub s h =
    elim (Bool-cases
      (get_trusted_provider_proof allow_stub s (get_provider_confirmation_key s)).verified) [
        | inl e ↦
            let v : is_verified allow_stub s ≡ true =
              rw (is_verified, perform_reconciliation, e) refl in
            let absurd : ⊥ = cc in elim absurd [ ]
        | inr e ↦ rw (perform_reconciliation, e) refl
      ]

module _ (env : Env) (s : Settlement) (ledger : List Posting) where
  -- The answers of the method, and the row that each leaves.
  abbrev pub Answers : Result Bool × Db → Type 0
  Answers (ok true, d) =
      (d.ledger ≡ ledger)
      × (((is_ready_or_settled s.current_phase ≡ true) × (d.row ≡ some s))
          ⊎ ((same s.current_phase external_pending ≡ true)
              × (HasTrustedProof s ⊎ (env.allow_stub ≡ true))
              × IsReady d.row))
  Answers (ok false, d) =
      (d.ledger ≡ ledger)
      × ((IsFailedUnless (env.faults 6) provider_confirmation_required d.row
            × (is_verified env.allow_stub s ≡ false))
          ⊎ (IsFailedUnless (env.faults 6) provider_confirmation_already_applied d.row
              × (is_already_applied s ≡ true)))
  Answers (thrown e, d) = (d.ledger ≡ ledger) × ((row : Settlement) × (d.row ≡ some row))

  abbrev result : Reconciliation
  result = perform_reconciliation env.allow_stub s (get_provider_confirmation_key s)

  pass-Answers :
      (row : Settlement) (audit : List AuditEvent)
      → same s.current_phase external_pending ≡ true
      → same row.current_phase reconciliation_running ≡ true
      → is_verified env.allow_stub s ≡ true
      → Answers (pass_reconciliation (undisturbed env) s result (found row ledger audit))
  unfolding pass_reconciliation transition_lifecycle_phase allowed_transitions
  pass-Answers row audit pending running h = elim (Bool-cases (env.faults 2)) [
    | inl e ↦ rw (pass_reconciliation, transition_lifecycle_phase, e) (refl, (row, refl))
    | inr e ↦ elim (Bool-cases (env.faults 4)) [
      | inl e4 ↦
          rw (pass_reconciliation, transition_lifecycle_phase, e, running, e4) (refl, (_, refl))
      | inr e4 ↦ elim (Bool-cases (env.faults 5)) [
        | inl e5 ↦
            rw (pass_reconciliation, transition_lifecycle_phase, e, running, e4, e5)
              (refl, (_, refl))
        | inr e5 ↦
            rw (pass_reconciliation, transition_lifecycle_phase, e, running, e4, e5)
              (refl, inr (pending, verified-cases env.allow_stub s h, refl))
      ]
    ]
  ]

  refuse-Answers :
      (row : Settlement) (audit : List AuditEvent)
      → is_verified env.allow_stub s ≡ false
      → Answers (refuse_reconciliation (undisturbed env) result (found row ledger audit))
  unfolding refuse_reconciliation
  refuse-Answers row audit h =
      rw (refuse_reconciliation, refused_reason env.allow_stub s h)
        (refusing (env.faults 6) (env.faults 7) (env.faults 8) provider_confirmation_required row
          ledger audit Answers (λ d kept failed. (kept, inl (failed, h)))
          (λ d r kept there. (kept, (r, there))))

  run-Answers :
      (audit : List AuditEvent)
      → same s.current_phase external_pending ≡ true
      → Answers (run_reconciliation (undisturbed env) s (found s ledger audit))
  unfolding run_reconciliation transition_lifecycle_phase allowed_transitions is_verified
  run-Answers audit pending = elim (Bool-cases (env.faults 0)) [
    | inl e ↦ rw (run_reconciliation, transition_lifecycle_phase, e) (refl, (s, refl))
    | inr e ↦ elim (Bool-cases (env.faults 3)) [
      | inl e3 ↦
          rw (run_reconciliation, transition_lifecycle_phase, e, pending, e3) (refl, (_, refl))
      | inr e3 ↦ elim (Bool-cases (env.faults 1)) [
        | inl e1 ↦
            rw (run_reconciliation, transition_lifecycle_phase, e, pending, e3, e1)
              (refl, (_, refl))
        | inr e1 ↦
            rw (run_reconciliation, transition_lifecycle_phase, e, pending, e3, e1)
              (if_rule Answers (is_verified env.allow_stub s) _ _ _
                (λ v. pass-Answers _ _ pending refl v) (λ v. refuse-Answers _ _ v))
      ]
    ]
  ]

  reconcile-Answers :
      (audit : List AuditEvent)
      → Answers (reconcile_settlement (undisturbed env) s (found s ledger audit))
  unfolding reconcile_settlement refuse_again
  reconcile-Answers audit = elim (Bool-cases (is_ready_or_settled s.current_phase)) [
    | inl ready ↦ elim (Bool-cases (is_already_applied s)) [
      | inl a ↦ rw (reconcile_settlement, a, ready) (refl, inl (ready, refl))
      | inr a ↦ rw (reconcile_settlement, a, ready) (refl, inl (ready, refl))
    ]
    | inr ready ↦ elim (Bool-cases (is_already_applied s)) [
      | inl a ↦
          rw (reconcile_settlement, a, ready)
            (refusing_again (env.faults 6) (env.faults 7) provider_confirmation_already_applied s
              ledger audit Answers (λ d kept failed. (kept, inr (failed, a)))
              (λ d r kept there. (kept, (r, there))))
      | inr a ↦ elim (Bool-cases (same s.current_phase external_pending)) [
        | inl p ↦ rw (reconcile_settlement, a, ready, p) (run-Answers audit p)
        | inr p ↦ rw (reconcile_settlement, a, ready, p) (refl, (s, refl))
      ]
    ]
  ]

-- The answers of one call, and the row that each leaves.
abbrev pub Reconciles : Env → Settlement → List Posting → Result Bool × Db → Type 0
Reconciles env s ledger (ok b, d) = Answers env s ledger (ok b, d)
Reconciles env s ledger (thrown e, d) =
    (d.ledger ≡ ledger) × IsFailedUnless (env.faults 9) reconciliation_transition_denied d.row

caught :
    (refused unlogged : Bool) (ledger : List Posting) (d : Db) (row : Settlement)
    → d.ledger ≡ ledger
    → d.row ≡ some row
    → let d' = (record_failure refused unlogged reconciliation_transition_denied d).1 in
      (d'.ledger ≡ ledger) × IsFailedUnless refused reconciliation_transition_denied d'.row
unfolding record_failure
caught true true ledger d row kept there = (kept, inr refl)
caught true false ledger d row kept there = (kept, inr refl)
caught false true ledger d row kept there = (kept, inl (rw there (refl, refl)))
caught false false ledger d row kept there = (kept, inl (rw there (refl, refl)))

-- With no other worker at the settlement, `startReconciliation` posts nothing; it answers true
-- only if the settlement was already ready or settled, or was pending and is now ready on a
-- trusted proof (or the stub allowed outside production); where the update that records a failure
-- is not refused, it answers false only with the settlement failed for a missing proof or a
-- repeated confirmation, and throws only with the settlement failed.
pub start_reconciliation-Reconciles :
    (env : Env) (s : Settlement) (ledger : List Posting) (audit : List AuditEvent)
    → Reconciles env s ledger (start_reconciliation (undisturbed env) (found s ledger audit))
unfolding start_reconciliation
start_reconciliation-Reconciles env s ledger audit =
    go (reconcile_settlement (undisturbed env) s (found s ledger audit))
      (reconcile-Answers env s ledger audit)
  where
    go :
        (r : Result Bool × Db)
        → Answers env s ledger r
        → Reconciles env s ledger (handle (recover_reconciliation (undisturbed env)) r)
    go (ok b, d) h = h
    go (thrown e, d) (kept, (row, there)) =
        caught (env.faults 9) (env.faults 10) ledger d row kept there
