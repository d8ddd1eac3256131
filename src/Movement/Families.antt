-- ===== src/Movement/Families.antt =====
-- `classify`, and the families that it gives.
use orbi_insitutional_core_v.Prelude.{Bool, ◌||◌, if◌then◌else◌, leb, List, [], ◌∷◌, length}
use orbi_insitutional_core_v.Prelude.Text.{Text, codes, includes_any}
use orbi_insitutional_core_v.Prelude.Dict.{Dict}
use orbi_insitutional_core_v.Movement.{
  Wallet, Leg, Transaction, Classification, internal_p2p, internal_ss, external, unknown,
  ss_shared_pot_withdrawal, ss_shared_pot_contribution, ss_shared_budget_movement, p2p_transfer,
  ss_paysafe_refund, ss_paysafe_release, ss_paysafe_escrow, external_deposit, external_withdrawal,
  ss_internal_reallocation, ss_internal_movement, unknown_movement, make_classification,
  transaction_text, is_present,
}
use orbi_insitutional_core_v.Movement.Owners.{
  source_owner, destination_owner, owners_differ, owners_agree,
}

unfoldable pub is_shared_pot : Transaction → Bool
is_shared_pot t =
    is_present t.metadata.shared_pot_id
    || includes_any (codes "shared_pot" ∷ codes "shared pot" ∷ codes "fungu" ∷ codes "pot_" ∷ [])
        (transaction_text t)

unfoldable pub is_shared_budget : Transaction → Bool
is_shared_budget t =
    is_present t.metadata.shared_budget_id
    || includes_any (codes "shared_budget" ∷ codes "shared budget" ∷ codes "mezani" ∷ [])
        (transaction_text t)

unfoldable pub is_escrow : Transaction → Bool
is_escrow t =
    is_present t.metadata.source_internal_vault_id
    || is_present t.metadata.escrow_vault_id
    || includes_any (codes "escrow" ∷ codes "paysafe" ∷ codes "pay safe" ∷ []) (transaction_text t)

unfoldable pub is_outside : Transaction → Bool
is_outside t =
    includes_any
      (codes "external"
        ∷ codes "bank"
        ∷ codes "mobile_money"
        ∷ codes "mobile money"
        ∷ codes "card"
        ∷ codes "cashout"
        ∷ codes "cash out"
        ∷ codes "provider"
        ∷ codes "merchant_settlement"
        ∷ [])
      (transaction_text t)

unfoldable pub classify_pot : Text → Classification
classify_pot text = make_classification internal_ss (
    if includes_any
      (codes "withdraw" ∷ codes "withdrawal" ∷ codes "pot_w_" ∷ codes "target_wallet_role" ∷ [])
      text
    then ss_shared_pot_withdrawal
    else ss_shared_pot_contribution)

unfoldable pub classify_escrow : Text → Classification
classify_escrow text = make_classification internal_ss (
    if includes_any (codes "refund" ∷ codes "refunded" ∷ codes "reverse" ∷ []) text
    then ss_paysafe_refund
    else if includes_any (codes "release" ∷ codes "settlement" ∷ []) text
    then ss_paysafe_release
    else ss_paysafe_escrow)

unfoldable pub classify_outside : Text → Classification
classify_outside text = make_classification external (
    if includes_any (codes "deposit" ∷ codes "external_to_internal" ∷ []) text
    then external_deposit
    else external_withdrawal)

unfoldable pub classify : Dict Wallet → Transaction → List Leg → Classification
classify wallet_map t legs =
    let source = source_owner wallet_map t legs in
    let destination = destination_owner wallet_map t legs in
    let text = transaction_text t in
    if is_shared_pot t
    then classify_pot text
    else if is_shared_budget t
    then make_classification internal_ss ss_shared_budget_movement
    else if owners_differ source destination
    then make_classification internal_p2p p2p_transfer
    else if is_escrow t
    then classify_escrow text
    else if is_outside t
    then classify_outside text
    else if owners_agree source destination
    then make_classification internal_ss ss_internal_reallocation
    else if leb 2 (length legs)
    then make_classification internal_ss ss_internal_movement
    else make_classification unknown unknown_movement
