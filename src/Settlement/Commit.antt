-- ===== src/Settlement/Commit.antt =====
-- `commitToInternalLedger`: the second phase. The platform fee, the wallet for fees and the posting to
-- the ledger are answers of other services, and are arguments.
use orbi_insitutional_core_v.Prelude.{
  ℕ, Bool, true, false, not, ◌&&◌, ◌||◌, ◌==◌, if◌then◌else◌, Option, none, some, List, [], ◌∷◌,
  ◌++◌,
}
use orbi_insitutional_core_v.Prelude.Int.{ℤ, pos, ◌+ℤ◌, ltb_ℤ}
use orbi_insitutional_core_v.Prelude.Text.{Text, codes, includes, to_upper, trim, or_text}
use orbi_insitutional_core_v.Settlement.State.{
  ready_for_internal_commit, internally_settled, same, FailureReason,
  internal_commit_transition_denied, internal_commit_already_in_progress,
  internal_commit_append_already_applied, internal_commit_failed, Settlement, Db, Leg, debit,
  credit, Posting, SettlementError, not_found, db_error, wallet_not_found, source_wallet_required,
  currency_required, invalid_transition, already_in_progress, cannot_reconcile, cannot_commit,
  foreign, Action, Done, Result, ok, pure, throw, or_throw, try_catch, ◌>>=◌, ◌>>◌, modify,
  throw_if, read, update, audit_log, row_is, is_empty, internally_committed, commit_failed,
  record_failure,
}

pub record CommitEnv : Type 0 where
  pub now : ℕ
  pub claim_id : Text
  pub financial_tx_id : Text
  -- Before the claim, and before the update at the end.
  pub others : ℕ → Db → Db
  -- What fails: 0 the claim, 1 the last update, 2 the update of `recordFailure`, 3 the log of the commit,
  -- 4 the read of a balance, 5 the log of `recordFailure`, 6 the log of the failed commit.
  pub faults : ℕ → Bool
  pub source_wallet_id : Text
  pub suspense_wallet_id : Text
  pub wallet_exists : Bool
  -- The fee for an amount in a currency, the account of a currency's fees, and whether the ledger takes
  -- a posting; each may throw instead.
  pub resolve_fee : ℤ → Text → Result ℤ
  pub fee_account : Text → Result Text
  pub refuse_posting : Posting → List Posting → Option SettlementError

abbrev pub settled_tx : Settlement → Option Text
settled_tx s = if same s.current_phase internally_settled then s.financial_tx_id else none

-- The conditional update that takes the claim: the phase and the stamp are those that were read, and no
-- transaction is booked.
unfoldable pub is_claimable : ℕ → Settlement → Bool
is_claimable stamp row =
    same row.current_phase ready_for_internal_commit
    && row.phase_started_at == stamp
    && (elim row.financial_tx_id [ none ↦ true | some t ↦ false ])

abbrev pub claimed : CommitEnv → Settlement → Settlement → Settlement
claimed env read_row row = record row {
  phase_started_at = env.now;
  metadata = record read_row.metadata { internal_commit_claim_id = env.claim_id };
}

-- The reply, which reads the balance of the wallet.
unfoldable pub reply : CommitEnv → Text → Action Text
reply env t = throw_if (env.faults 4) db_error >> pure t

-- `some t`: another worker has settled the row by the transaction `t`; `none`: the claim is ours.
unfoldable pub lost_claim : Option Settlement → Action (Option Text)
lost_claim none = throw db_error
lost_claim (some row) = elim (settled_tx row) [
  | none ↦ throw already_in_progress
  | some t ↦ pure (some t)
]

unfoldable pub take_claim : CommitEnv → Settlement → Action (Option Text)
take_claim env s = do modify (update (claimed env s)); pure none

unfoldable pub claim : CommitEnv → Settlement → Action (Option Text)
claim env s = do
  modify (env.others 0)
  throw_if (env.faults 0) db_error
  latest ← read
  if row_is (is_claimable s.phase_started_at) latest then take_claim env s else lost_claim latest

-- `Number(platformFee || 0) > 0`
abbrev pub has_fee : ℤ → Bool
has_fee fee = ltb_ℤ (pos 0) fee

abbrev fee_legs : Option Text → ℤ → List Leg
fee_legs none fee = []
fee_legs (some w) fee =
    if is_empty w then [] else record { wallet_id = w; entry_type = credit; amount = fee } ∷ []

unfoldable pub ledger_legs : Text → Text → ℤ → ℤ → Option Text → List Leg
ledger_legs source target amount fee fee_wallet =
    record { wallet_id = source; entry_type = debit; amount = amount +ℤ fee }
    ∷ record { wallet_id = target; entry_type = credit; amount = amount }
    ∷ fee_legs fee_wallet fee

abbrev pub resolve_fee_wallet : CommitEnv → ℤ → Text → Action (Option Text)
resolve_fee_wallet env fee currency =
    if has_fee fee then (do w ← (λ d. (env.fee_account currency, d)); pure (some w)) else pure none

-- `postTransactionWithLedger`
unfoldable pub post : CommitEnv → Posting → Action Done
post env p d = elim (env.refuse_posting p d.ledger) [
  | none ↦ (ok tt, record d { ledger = d.ledger ++ p ∷ [] })
  | some e ↦ throw e d
]

abbrev pub settled : CommitEnv → Settlement → Settlement → Settlement
settled env read_row row = record row {
  current_phase = internally_settled;
  financial_tx_id = some env.financial_tx_id;
  metadata = record read_row.metadata { internal_commit_claim_id = env.claim_id };
}

-- The update that closes the settlement, once the ledger has taken the posting.
unfoldable pub finish_booking : CommitEnv → Settlement → Action Text
finish_booking env s = do
  modify (env.others 1)
  throw_if (env.faults 1) db_error
  modify (update (settled env s))
  audit_log (env.faults 3) internally_committed
  reply env env.financial_tx_id

abbrev pub posting_for : CommitEnv → Settlement → Text → ℤ → Option Text → Posting
posting_for env s source fee fee_wallet = record {
  transaction_id = env.financial_tx_id;
  amount = s.amount;
  legs = ledger_legs source s.wallet_id s.amount fee fee_wallet;
}

unfoldable pub book_from : CommitEnv → Settlement → Text → Text → Action Text
book_from env s source currency = do
  fee ← (λ d. (env.resolve_fee s.amount currency, d))
  fee_wallet ← resolve_fee_wallet env fee currency
  post env (posting_for env s source fee fee_wallet)
  finish_booking env s

abbrev pub source_wallet : CommitEnv → Text
source_wallet env = trim (or_text env.source_wallet_id env.suspense_wallet_id)

abbrev pub settlement_currency : Settlement → Text
settlement_currency s = to_upper (trim s.currency)

-- From the claim to the end of the `try` block.
unfoldable pub book : CommitEnv → Settlement → Action Text
book env s = do
  throw_if (not env.wallet_exists) wallet_not_found
  throw_if (is_empty (source_wallet env)) source_wallet_required
  throw_if (is_empty (settlement_currency s)) currency_required
  book_from env s (source_wallet env) (settlement_currency s)

unfoldable pub commit_settlement : CommitEnv → Settlement → Action Text
commit_settlement env s = elim (settled_tx s) [
  | some t ↦ reply env t
  | none ↦
      if not (same s.current_phase ready_for_internal_commit)
      then throw (cannot_commit s.current_phase)
      else (do other ← claim env s; (elim other [ none ↦ book env s | some t ↦ reply env t ]))
]

abbrev pub message : SettlementError → Text
message not_found = codes "Settlement not found"
message db_error = codes "database error"
message wallet_not_found = codes "Target wallet not found"
message source_wallet_required = codes "SETTLEMENT_SOURCE_WALLET_REQUIRED"
message currency_required = codes "SETTLEMENT_CURRENCY_REQUIRED"
message invalid_transition = codes "INVALID_SETTLEMENT_TRANSITION"
message already_in_progress = codes "SETTLEMENT_COMMIT_ALREADY_IN_PROGRESS"
message (cannot_reconcile p) = codes "Cannot reconcile settlement in phase: "
message (cannot_commit p) = codes "Cannot commit settlement in phase: "
message (foreign t) = t

unfoldable pub structured_reason : SettlementError → FailureReason
structured_reason e =
    if includes (codes "SETTLEMENT_COMMIT_ALREADY_IN_PROGRESS") (message e)
    then internal_commit_already_in_progress
    else if includes (codes "APPEND_ALREADY_APPLIED") (message e)
        || includes (codes "IDEMPOTENCY_VIOLATION") (message e)
    then internal_commit_append_already_applied
    else if includes (codes "Cannot commit settlement in phase") (message e)
    then internal_commit_transition_denied
    else internal_commit_failed

-- The `catch` block.
abbrev pub recover_commit : CommitEnv → SettlementError → Action Text
recover_commit env e =
    record_failure (env.faults 2) (env.faults 5) (structured_reason e)
    >> (audit_log (env.faults 6) commit_failed >> throw e)

-- Returns the id of the transaction that settled the row; the balance in the reply is left out.
unfoldable pub commit_to_internal_ledger : CommitEnv → Action Text
commit_to_internal_ledger env =
    try_catch (do found ← read; s ← or_throw found not_found; commit_settlement env s)
      (recover_commit env)
