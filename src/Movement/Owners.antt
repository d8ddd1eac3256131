-- ===== src/Movement/Owners.antt =====
-- The owners of the two sides of a transaction, as `classify` finds them.
use orbi_insitutional_core_v.Prelude.{
  Bool, false, not, ◌&&◌, if◌then◌else◌, Option, none, some, List, [], ◌∷◌,
}
use orbi_insitutional_core_v.Prelude.Text.{Text, codes, text_eq, includes, to_upper, or_text}
use orbi_insitutional_core_v.Prelude.Dict.{Dict, lookup}
use orbi_insitutional_core_v.Movement.{
  Wallet, Leg, Transaction, clean_text, first_text, wallet_owner, is_operating_wallet, is_present,
}

unfoldable pub lookup_wallet : Dict Wallet → Text → Option Wallet
lookup_wallet wallet_map wallet_id =
    let id = clean_text wallet_id in if is_present id then lookup id wallet_map else none

-- `lookupWallet(leg?.wallet_id)`
abbrev wallet_of : Dict Wallet → Option Leg → Option Wallet
wallet_of wallet_map none = none
wallet_of wallet_map (some l) = lookup_wallet wallet_map l.wallet_id

-- Of the legs on a side, the first whose wallet is an operating one.
unfoldable pub operating_leg : Dict Wallet → Text → List Leg → Option Leg
operating_leg wallet_map side [] = none
operating_leg wallet_map side (l ∷ legs) =
    let rest = operating_leg wallet_map side legs in
    if includes side (to_upper (clean_text (or_text l.entry_side l.entry_type)))
      && is_operating_wallet (lookup_wallet wallet_map l.wallet_id)
    then some l
    else rest

unfoldable pub source_owner : Dict Wallet → Transaction → List Leg → Option Text
source_owner wallet_map t legs =
    let debit = operating_leg wallet_map (codes "DEBIT") legs in
    first_text (
      wallet_owner (lookup_wallet wallet_map t.source_wallet_id) debit
      ∷ wallet_owner (wallet_of wallet_map debit) debit
      ∷ t.user_id
      ∷ [])

unfoldable pub destination_owner : Dict Wallet → Transaction → List Leg → Option Text
destination_owner wallet_map t legs =
    let credit = operating_leg wallet_map (codes "CREDIT") legs in
    first_text (
      wallet_owner (lookup_wallet wallet_map t.target_wallet_id) credit
      ∷ wallet_owner (wallet_of wallet_map credit) credit
      ∷ t.metadata.recipient_snapshot_id
      ∷ t.metadata.recipient_id
      ∷ [])

abbrev pub owners_differ : Option Text → Option Text → Bool
owners_differ (some s) (some d) = not (text_eq s d)
owners_differ _ _ = false

abbrev pub owners_agree : Option Text → Option Text → Bool
owners_agree (some s) (some d) = text_eq s d
owners_agree _ _ = false
