-- ===== src/Movement.antt =====
-- `TransactionMovementClassifier` and the rules beside it, of backend/transactions/movement: what kind
-- of movement of money a transaction is. An absent field is the empty text.
pub mod Owners
pub mod Families
mod Tests
use orbi_insitutional_core_v.Prelude.{
  ℕ, zero, suc, Bool, true, false, not, ◌&&◌, ◌||◌, ◌==◌, if◌then◌else◌, leb, Option, none, some,
  List, [], ◌∷◌, ◌++◌, length, map,
}
use orbi_insitutional_core_v.Prelude.Text.{
  Text, codes, text_eq, includes, includes_any, trim, to_upper, to_lower, or_text,
}
use orbi_insitutional_core_v.Prelude.Dict.{Dict, lookup}

pub record Wallet : Type 0 where
  pub user_id : Text
  pub name : Text
  pub wallet_name : Text
  pub display_name : Text
  pub type : Text
  pub wallet_type : Text
  pub bucket_type : Text
  pub vault_role : Text
  pub role : Text
  pub management_tier : Text

pub record Leg : Type 0 where
  pub entry_side : Text
  pub entry_type : Text
  pub wallet_id : Text
  pub user_id : Text

pub record Metadata : Type 0 where
  pub service_context : Text
  pub escrow_status : Text
  pub shared_pot_id : Text
  pub shared_budget_id : Text
  pub source_internal_vault_id : Text
  pub source_internal_vault_name : Text
  pub escrow_vault_id : Text
  pub destination_wallet_name : Text
  pub recipient_name : Text
  pub recipient_id : Text
  pub recipient_snapshot_id : Text
  pub recipient_snapshot_name : Text

-- The wallet ids are after the `||` between the names of the field.
pub record Transaction : Type 0 where
  pub type : Text
  pub transaction_type : Text
  pub description : Text
  pub note : Text
  pub status : Text
  pub user_id : Text
  pub source_wallet_id : Text
  pub target_wallet_id : Text
  pub metadata : Metadata

abbrev pub clean_text : Text → Text
clean_text = trim

abbrev pub lower_text : Text → Text
lower_text t = to_lower (clean_text t)

abbrev pub is_present : Text → Bool
is_present [] = false
is_present (c ∷ s) = true

unfoldable pub first_text : List Text → Option Text
first_text [] = none
first_text (v ∷ vs) =
    let candidate = clean_text v in
    let rest = first_text vs in
    if is_present candidate
      && not (text_eq (to_lower candidate) (codes "null"))
      && not (text_eq candidate (codes "N/A"))
    then some candidate
    else rest

abbrev user_of_wallet : Option Wallet → Text
user_of_wallet none = []
user_of_wallet (some w) = w.user_id

abbrev user_of_leg : Option Leg → Text
user_of_leg none = []
user_of_leg (some l) = l.user_id

unfoldable pub wallet_owner : Option Wallet → Option Leg → Text
wallet_owner w l = clean_text (or_text (user_of_wallet w) (user_of_leg l))

abbrev join : List Text → Text
join [] = []
join (t ∷ []) = t
join (t ∷ u ∷ ts) = t ++ codes " " ++ join (u ∷ ts)

unfoldable pub wallet_role_text : Option Wallet → Text
wallet_role_text none = codes "        "
wallet_role_text (some w) = join (
    map lower_text (
      w.name ∷ w.wallet_name ∷ w.display_name ∷ w.type ∷ w.wallet_type ∷ w.bucket_type
      ∷ w.vault_role ∷ w.role ∷ w.management_tier ∷ []))

unfoldable pub is_operating_wallet : Option Wallet → Bool
is_operating_wallet wallet =
    let role_text = wallet_role_text wallet in
    if includes_any
      (codes "escrow"
        ∷ codes "paysafe"
        ∷ codes "pay safe"
        ∷ codes "goal"
        ∷ codes "saving"
        ∷ codes "budget"
        ∷ codes "mezani"
        ∷ codes "pot"
        ∷ codes "fungu"
        ∷ codes "reserve"
        ∷ codes "bill"
        ∷ [])
      role_text
    then false
    else includes_any
        (codes "operating"
          ∷ codes "main"
          ∷ codes "internal vault"
          ∷ codes "default"
          ∷ codes "dilpesa"
          ∷ codes "spendable"
          ∷ codes "available"
          ∷ [])
        role_text

unfoldable pub transaction_text : Transaction → Text
transaction_text t =
    let m = t.metadata in
    join (
      map lower_text (
        t.type ∷ t.transaction_type ∷ t.description ∷ t.note ∷ t.status ∷ m.service_context
        ∷ m.escrow_status ∷ m.shared_pot_id ∷ m.shared_budget_id ∷ m.source_internal_vault_id
        ∷ m.source_internal_vault_name ∷ m.destination_wallet_name ∷ m.recipient_name
        ∷ m.recipient_snapshot_name ∷ []))

pub data Family : Type 0 where
  internal_p2p internal_ss external unknown : Family

abbrev pub family_place : Family → ℕ
family_place internal_p2p = 0
family_place internal_ss = 1
family_place external = 2
family_place unknown = 3

abbrev family_eq : Family → Family → Bool
family_eq a b = family_place a == family_place b

pub data MovementCode : Type 0 where
  ss_shared_pot_withdrawal ss_shared_pot_contribution ss_shared_budget_movement : MovementCode
  p2p_transfer ss_paysafe_refund ss_paysafe_release ss_paysafe_escrow : MovementCode
  external_deposit external_withdrawal : MovementCode
  ss_internal_reallocation ss_internal_movement unknown_movement : MovementCode

pub record Classification : Type 0 where
  pub movement_family : Family
  pub movement_code : MovementCode
  pub is_from_outside : Bool
  pub is_internal : Bool
  pub is_self_service : Bool
  pub is_p2p : Bool
  pub is_external : Bool

unfoldable pub make_classification : Family → MovementCode → Classification
make_classification family code = record {
  movement_family = family;
  movement_code = code;
  is_from_outside = family_eq family external;
  is_internal = family_eq family internal_p2p || family_eq family internal_ss;
  is_self_service = family_eq family internal_ss;
  is_p2p = family_eq family internal_p2p;
  is_external = family_eq family external;
}
