-- ===== src/Escrow/Tests.antt =====
-- An escrow of 70 between two users, and the theorems at single inputs.
use orbi_insitutional_core_v.Prelude.{refl, true, false, none, some, [], ◌∷◌}
use orbi_insitutional_core_v.Prelude.Int.{pos}
use orbi_insitutional_core_v.Prelude.Text.{Text, codes, text_eq, trim, trim_start}
use orbi_insitutional_core_v.Review.{Book}
use orbi_insitutional_core_v.Review.Ledger.{LedgerEnv}
use orbi_insitutional_core_v.Escrow.{
  held, EscrowAgreement, transition, release, accept, dispute, refund, release_escrow,
  accept_escrow, refund_escrow, dispute_escrow, available_actions,
}
use orbi_insitutional_core_v.Escrow.Terms.{
  VaultRole, operating, internal_transfer, Vault, EscrowEnv, EscrowRequest,
}
use orbi_insitutional_core_v.Escrow.Offered.{Gives, offered-AreAnswered}

abbrev request : EscrowRequest
request = record {
  sender_id = codes "u";
  amount = pos 70;
  description = codes "boots";
  gateway_intent_id = [];
  merchant_id = [];
}

abbrev vault : Text → VaultRole → Vault
vault id role = record {
  id = id;
  vault_role = role;
  currency = codes "TZS";
  status = codes "active";
  is_locked = false;
  balance = pos 100;
}

abbrev escrow_env : EscrowEnv
escrow_env = record {
  recipient = some (codes "v");
  intent_error = false;
  agreement_of_intent = λ i. none;
  account_error = false;
  account_status = λ u. some (codes "Active");
  merchant_error = false;
  merchant = λ i. none;
  vault_error = false;
  vaults_of = λ u. vault (codes "o") operating ∷ vault (codes "s") internal_transfer ∷ [];
  active_error = false;
  active_vaults =
      vault (codes "o") operating
      ∷ vault (codes "s") internal_transfer
      ∷ vault (codes "o") operating
      ∷ [];
  fee_rows = [];
  audit_error = none;
}

abbrev ledger_env : LedgerEnv
ledger_env = record {
  new_id = codes "t";
  now = 5000;
  is_internal = λ w. true;
  rpc_error = λ ls. none;
  update_refused = false;
  status_error = λ s. none;
}

abbrev no_entries : Book
no_entries = record { transactions = []; ledger = []; events = [] }

abbrev agreement : EscrowAgreement
agreement = record {
  reference_id = codes "ESC";
  sender_id = codes "u";
  receiver_id = codes "v";
  source_vault_id = codes "o";
  merchant_id = none;
  status = held;
  expires_at = some 9000;
  receiver_accepted = false;
}

offered-AreAnswered_example :
    Gives
      (available_actions 5000 agreement (codes "v")).can_release
      (release_escrow agreement (codes "v"))
      (transition (codes "v") release none none)
    × Gives
        (available_actions 5000 agreement (codes "v")).can_accept
        (accept_escrow 5000 agreement (codes "v"))
        (transition (codes "v") accept none none)
    × Gives
        (available_actions 5000 agreement (codes "v")).can_refund
        (refund_escrow agreement (codes "v") (codes "late"))
        (transition (codes "v") refund (some (codes "o")) (some (codes "late")))
    × Gives
        (available_actions 5000 agreement (codes "v")).can_dispute
        (dispute_escrow agreement (codes "v") (codes "late"))
        (transition (codes "v") dispute none (some (codes "late")))
unfolding text_eq trim trim_start
offered-AreAnswered_example =
    offered-AreAnswered 5000 agreement (codes "v") (codes "late") refl refl refl
