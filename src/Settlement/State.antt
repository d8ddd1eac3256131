-- ===== src/Settlement/State.antt =====
-- The settlement's row, the ledger and the audit log, and the operations that the two phases share.
-- Every statement names the settlement by its id, so one row is enough; other workers change it
-- between two statements by `others`, and a statement fails where `faults` says so.
use orbi_insitutional_core_v.Prelude.{
  ℕ, Bool, true, false, not, ◌&&◌, ◌||◌, ◌==◌, if◌then◌else◌, Option, none, some, List, [], ◌∷◌,
  ◌++◌, any,
}
use orbi_insitutional_core_v.Prelude.Int.{ℤ}
use orbi_insitutional_core_v.Prelude.Text.{Text, codes, text_eq, to_upper, trim, or_text}

pub data Phase : Type 0 where
  external_pending reconciliation_running ready_for_internal_commit internally_settled : Phase
  settlement_failed dispute_under_review reversed : Phase

pub data FailureReason : Type 0 where
  reconciliation_transition_denied reconciliation_verification_failed : FailureReason
  provider_confirmation_required provider_confirmation_already_applied : FailureReason
  internal_commit_transition_denied internal_commit_already_in_progress : FailureReason
  internal_commit_append_already_applied internal_commit_failed : FailureReason

abbrev pub place : Phase → ℕ
place external_pending = 0
place reconciliation_running = 1
place ready_for_internal_commit = 2
place internally_settled = 3
place settlement_failed = 4
place dispute_under_review = 5
place reversed = 6

-- `===` on phases
abbrev pub same : Phase → Phase → Bool
same p q = place p == place q

unfoldable pub allowed_transitions : Phase → List Phase
allowed_transitions external_pending = reconciliation_running ∷ settlement_failed ∷ []
allowed_transitions reconciliation_running = ready_for_internal_commit ∷ settlement_failed ∷ []
allowed_transitions ready_for_internal_commit = internally_settled ∷ settlement_failed ∷ []
allowed_transitions internally_settled = reversed ∷ []
allowed_transitions settlement_failed = []
allowed_transitions dispute_under_review = reversed ∷ settlement_failed ∷ []
allowed_transitions reversed = []

-- The keys of the row's JSON column that the code reads. A time is whether it is there.
pub record Metadata : Type 0 where
  pub provider_confirmation_key : Text
  pub provider_confirmation_source : Text
  pub provider_proof_source : Text
  pub trusted_gateway_event_source : Text
  pub provider_confirmation_applied_at : Bool
  pub trusted_gateway_event_applied_at : Bool
  pub verified_provider_webhook_at : Bool
  pub provider_api_reconciled_at : Bool
  pub internal_commit_claim_id : Text
  pub failure_reason : Option FailureReason

pub record Settlement : Type 0 where
  pub provider_id : Text
  pub external_settlement_id : Text
  pub wallet_id : Text
  pub amount : ℤ
  pub currency : Text
  pub current_phase : Phase
  pub phase_started_at : ℕ
  pub financial_tx_id : Option Text
  pub reconciliation_verified : Option Bool
  pub last_error : Option FailureReason
  pub metadata : Metadata

pub data EntryType : Type 0 where
  debit credit : EntryType

pub record Leg : Type 0 where
  pub wallet_id : Text
  pub entry_type : EntryType
  pub amount : ℤ

pub record Posting : Type 0 where
  pub transaction_id : Text
  pub amount : ℤ
  pub legs : List Leg

pub data AuditEvent : Type 0 where
  phase_transition : Phase → Phase → AuditEvent
  failure_recorded : FailureReason → AuditEvent
  reconciliation_passed reconciliation_failed internally_committed commit_failed : AuditEvent

pub record Db : Type 0 where
  pub row : Option Settlement
  pub ledger : List Posting
  pub audit : List AuditEvent

abbrev pub found : Settlement → List Posting → List AuditEvent → Db
found s ledger audit = record { row = some s; ledger = ledger; audit = audit }

pub data SettlementError : Type 0 where
  not_found db_error wallet_not_found source_wallet_required currency_required : SettlementError
  invalid_transition already_in_progress : SettlementError
  cannot_reconcile cannot_commit : Phase → SettlementError
  foreign : Text → SettlementError

pub data Result (A : Type 0) : Type 0 where
  ok : A → Result A
  thrown : SettlementError → Result A

-- A method may throw; what it wrote before stays written.
abbrev pub Action : Type 0 → Type 0
Action A = Db → Result A × Db

abbrev pub Done : Type 0
Done = Unit {0}

module _ {A : Type 0} where
  abbrev pub pure : A → Action A
  pure a d = (ok a, d)

  abbrev pub throw : SettlementError → Action A
  throw e d = (thrown e, d)

  abbrev pub or_throw : Option A → SettlementError → Action A
  or_throw none e = throw e
  or_throw (some a) e = pure a

  abbrev pub handle : (SettlementError → Action A) → Result A × Db → Result A × Db
  handle recover (ok a, d) = (ok a, d)
  handle recover (thrown e, d) = recover e d

  -- `try { … } catch (e) { … }`
  abbrev pub try_catch : Action A → (SettlementError → Action A) → Action A
  try_catch body recover d = handle recover (body d)

abbrev pub continue : {A B : Type 0} → (A → Action B) → Result A × Db → Result B × Db
continue f (ok a, d) = f a d
continue f (thrown e, d) = throw e d

infixl 5 ◌>>=◌ ◌>>◌
abbrev pub ◌>>=◌ : {A B : Type 0} → Action A → (A → Action B) → Action B
◌>>=◌ m f d = continue f (m d)

abbrev pub ◌>>◌ : {A B : Type 0} → Action A → Action B → Action B
m >> k = m >>= λ _. k

abbrev pub modify : (Db → Db) → Action Done
modify f d = (ok tt, f d)

abbrev pub throw_if : Bool → SettlementError → Action Done
throw_if c e d = (if c then thrown e else ok tt, d)

abbrev pub read : Action (Option Settlement)
read d = (ok d.row, d)

-- `update(…).eq('id', settlementId)`, which changes nothing where there is no such row
abbrev pub change : (Settlement → Settlement) → Option Settlement → Option Settlement
change f none = none
change f (some s) = some (f s)

abbrev pub update : (Settlement → Settlement) → Db → Db
update f d = record d { row = change f d.row }

abbrev pub log : AuditEvent → Db → Db
log e d = record d { audit = d.audit ++ e ∷ [] }

-- `await Audit.log(…)`, which throws where its row is refused.
abbrev pub audit_log : Bool → AuditEvent → Action Done
audit_log true e d = (thrown db_error, d)
audit_log false e d = (ok tt, log e d)

abbrev pub row_is : (Settlement → Bool) → Option Settlement → Bool
row_is test none = false
row_is test (some s) = test s

-- `transitionLifecyclePhase`, with `updates` for the columns that the caller sets besides the phase. The
-- update fails by `fault`, and what it is logged with by `unlogged`.
unfoldable pub transition_lifecycle_phase :
    Bool → Bool → ℕ → Phase → Phase → (Settlement → Settlement) → Action Done
transition_lifecycle_phase fault unlogged now from to updates d =
    if not (any (λ p. same p to) (allowed_transitions from))
    then throw invalid_transition d
    else if fault
    then throw db_error d
    else if not (row_is (λ s. same s.current_phase from) d.row)
    then throw invalid_transition d
    else audit_log unlogged (phase_transition from to)
        (update (λ s. updates (record s { current_phase = to; phase_started_at = now })) d)

abbrev pub fail_row : FailureReason → Settlement → Settlement
fail_row reason s = record s {
  current_phase = settlement_failed;
  last_error = some reason;
  metadata = record s.metadata { failure_reason = some reason };
}

abbrev pub fail_unless : Bool → FailureReason → Db → Db
fail_unless true reason d = d
fail_unless false reason d = update (fail_row reason) d

-- `recordFailure`: the phase is set whatever it was, and `allowed_transitions` is not asked. The error of
-- the update, by `refused`, is ignored; that of the log, by `unlogged`, is thrown.
unfoldable pub record_failure : Bool → Bool → FailureReason → Action Done
record_failure refused unlogged reason = do
  modify (fail_unless refused reason)
  audit_log unlogged (failure_recorded reason)

-- `.catch(() => {})`
abbrev pub swallow : Action Done → Action Done
swallow m d = (ok tt, (m d).1)

unfoldable pub get_provider_confirmation_key : Settlement → Text
get_provider_confirmation_key s =
    codes "provider_confirmation:" ++ (s.provider_id ++ (codes ":" ++ s.external_settlement_id))

pub record Proof : Type 0 where
  pub verified : Bool
  pub source : Text

abbrev pub trusted_sources : List Text
trusted_sources =
    codes "TRUSTED_GATEWAY"
    ∷ codes "VERIFIED_PROVIDER_WEBHOOK"
    ∷ codes "PROVIDER_API_RECONCILIATION"
    ∷ codes "ADMIN_DUAL_CONTROL"
    ∷ []

abbrev pub is_empty : Text → Bool
is_empty [] = true
is_empty (c ∷ s) = false

unfoldable pub proof_source : Metadata → Text
proof_source m = to_upper (
    trim (
      or_text m.provider_confirmation_source
        (or_text m.provider_proof_source m.trusted_gateway_event_source)))

unfoldable pub key_matches : Metadata → Text → Bool
key_matches m key = let k = trim m.provider_confirmation_key in is_empty k || text_eq k key

abbrev pub has_trusted_timestamp : Metadata → Bool
has_trusted_timestamp m =
    m.provider_confirmation_applied_at || m.trusted_gateway_event_applied_at
    || m.verified_provider_webhook_at || m.provider_api_reconciled_at

-- `allow_stub` is `allowStubProviderReconciliation()`, which reads the environment.
unfoldable pub get_trusted_provider_proof : Bool → Settlement → Text → Proof
get_trusted_provider_proof allow_stub s key =
    let source = proof_source s.metadata in
    if any (λ t. text_eq t source) trusted_sources
      && key_matches s.metadata key
      && has_trusted_timestamp s.metadata
    then record { verified = true; source = source }
    else if allow_stub
    then record { verified = true; source = codes "NON_PRODUCTION_STUB" }
    else record { verified = false; source = or_text source (codes "MISSING") }
