-- ===== src/Movement/Tests.antt =====
-- A movement, and the theorems on it.
use orbi_insitutional_core_v.Prelude.{◌≡◌, refl, List, [], ◌∷◌}
use orbi_insitutional_core_v.Prelude.Text.{
  Text, codes, text_eq, includes, includes_any, starts_with, trim, trim_start, to_upper, to_lower,
  or_text,
}
use orbi_insitutional_core_v.Prelude.Dict.{Dict, lookup}
use orbi_insitutional_core_v.Movement.{
  Wallet, Leg, Transaction, internal_p2p, p2p_transfer, make_classification, transaction_text,
  first_text, wallet_owner, wallet_role_text, is_operating_wallet,
}
use orbi_insitutional_core_v.Movement.Owners.{
  lookup_wallet, operating_leg, source_owner, destination_owner,
}
use orbi_insitutional_core_v.Movement.Families.{classify, is_shared_pot, is_shared_budget}

abbrev main_wallet : Text → Wallet
main_wallet user = record {
  user_id = user;
  name = codes "Main";
  wallet_name = [];
  display_name = [];
  type = codes "operating";
  wallet_type = [];
  bucket_type = [];
  vault_role = [];
  role = [];
  management_tier = [];
}

abbrev wallets : Dict Wallet
wallets = (codes "w1", main_wallet (codes "ann")) ∷ (codes "w2", main_wallet (codes "bob")) ∷ []

abbrev transfer : Transaction
transfer = record {
  type = codes "transfer";
  transaction_type = [];
  description = codes "lunch";
  note = [];
  status = codes "completed";
  user_id = codes "ann";
  source_wallet_id = codes "w1";
  target_wallet_id = [];
  metadata = record {
    service_context = [];
    escrow_status = [];
    shared_pot_id = [];
    shared_budget_id = [];
    source_internal_vault_id = [];
    source_internal_vault_name = [];
    escrow_vault_id = [];
    destination_wallet_name = [];
    recipient_name = [];
    recipient_id = [];
    recipient_snapshot_id = [];
    recipient_snapshot_name = [];
  };
}

abbrev legs : List Leg
legs =
    record { entry_side = codes "debit"; entry_type = []; wallet_id = codes "w1"; user_id = [] }
    ∷ record { entry_side = []; entry_type = codes "CREDIT"; wallet_id = codes "w2"; user_id = [] }
    ∷ []

transfer_is_p2p : classify wallets transfer legs ≡ make_classification internal_p2p p2p_transfer
unfolding classify source_owner destination_owner operating_leg lookup_wallet lookup first_text
    wallet_owner wallet_role_text is_operating_wallet is_shared_pot is_shared_budget
    transaction_text includes_any includes starts_with text_eq trim trim_start to_upper to_lower
    or_text
transfer_is_p2p = refl
