-- ===== src/Escrow/Terms.antt =====
-- The first part of `createEscrow`: the checks of the request, the accounts and the merchant, the choice
-- of the three vaults, and the fee of a merchant. What the database answers is an argument.
use orbi_insitutional_core_v.Prelude.{
  Bool, true, false, not, ◌&&◌, ◌||◌, Option, none, some, List, [], ◌∷◌, any, if◌then◌else◌,
}
use orbi_insitutional_core_v.Prelude.Int.{ℤ, pos, ◌*ℤ◌, leb_ℤ, ltb_ℤ}
use orbi_insitutional_core_v.Prelude.Text.{Text, codes, text_eq, to_lower, to_upper, trim}
use orbi_insitutional_core_v.Fees.{FeeConfig, FeeInput, millionths}
use orbi_insitutional_core_v.Fees.Compute.{FeeComputation, Outcome, returned, thrown, resolve_fee}
use orbi_insitutional_core_v.Escrow.{is_filled}

pub data VaultRole : Type 0 where
  operating internal_transfer other_role : VaultRole

pub record Vault : Type 0 where
  pub id : Text
  pub vault_role : VaultRole
  pub currency : Text
  pub status : Text
  pub is_locked : Bool
  pub balance : ℤ

pub record Merchant : Type 0 where
  pub owner_user_id : Text
  pub status : Text

-- The ids of the conditions are trimmed texts, empty where they are missing.
pub record EscrowRequest : Type 0 where
  pub sender_id : Text
  pub amount : ℤ
  pub description : Text
  pub gateway_intent_id : Text
  pub merchant_id : Text

-- The recipient that `resolveWallet` finds, the agreement of an intent, the status of an account, the
-- vaults of a user, the merchant, the vaults on the second read, the rows of the fees, and what the audit
-- log of the creation throws.
pub record EscrowEnv : Type 0 where
  pub recipient : Option Text
  pub intent_error : Bool
  pub agreement_of_intent : Text → Option Text
  pub account_error : Bool
  pub account_status : Text → Option Text
  pub merchant_error : Bool
  pub merchant : Text → Option Merchant
  pub vault_error : Bool
  pub vaults_of : Text → List Vault
  pub active_error : Bool
  pub active_vaults : List Vault
  pub fee_rows : List FeeConfig
  pub audit_error : Option Text

pub record EscrowTerms : Type 0 where
  pub source_vault : Vault
  pub pay_safe_vault : Vault
  pub recipient_vault : Vault
  pub currency : Text
  pub fee : Option FeeComputation

-- The first condition that fails.
unfoldable pub first_error : List (Bool × Text) → Option Text
first_error [] = none
first_error ((fails, e) ∷ cs) = if fails then some e else first_error cs

abbrev is_active : Text → Bool
is_active s = text_eq (to_lower s) (codes "active")

abbrev account_is_active : Option Text → Bool
account_is_active none = false
account_is_active (some s) = is_active s

abbrev is_blocked : Text → Bool
is_blocked s =
    any (λ t. text_eq t (to_lower s))
      (codes "locked" ∷ codes "frozen" ∷ codes "blocked" ∷ codes "suspended" ∷ [])

unfoldable pub is_usable_vault : Vault → Bool
unfolding text_eq to_lower
is_usable_vault v = not v.is_locked && not (is_blocked v.status)

unfoldable pub request_error : EscrowRequest → Option Text
unfolding first_error trim
request_error r = first_error (
    (leb_ℤ r.amount (pos 0), codes "PAYSAFE_AMOUNT_INVALID")
    ∷ (not (is_filled (trim r.description)), codes "PAYSAFE_DESCRIPTION_REQUIRED")
    ∷ [])

abbrev merchant_failure : Option Merchant → Text → Option Text
merchant_failure none recipient = some (codes "PAYSAFE_MERCHANT_NOT_FOUND")
merchant_failure (some m) recipient =
    if not (is_active m.status)
    then some (codes "PAYSAFE_MERCHANT_NOT_ACTIVE")
    else (if not (text_eq m.owner_user_id recipient)
        then some (codes "PAYSAFE_MERCHANT_RECIPIENT_MISMATCH")
        else none)

abbrev merchant_check : EscrowEnv → EscrowRequest → Text → Option Text
merchant_check env r recipient =
    if is_filled r.merchant_id
    then merchant_failure (env.merchant r.merchant_id) recipient
    else none

-- The checks of the two accounts and of the merchant.
unfoldable pub party_error : EscrowEnv → EscrowRequest → Text → Option Text
unfolding first_error text_eq to_lower
party_error env r recipient =
    elim (first_error (
      (env.account_error, codes "PAYSAFE_ACCOUNT_LOOKUP_FAILED")
      ∷ (
        not (account_is_active (env.account_status r.sender_id)),
        codes "PAYSAFE_SENDER_ACCOUNT_NOT_ACTIVE",
      )
      ∷ (
        not (account_is_active (env.account_status recipient)),
        codes "PAYSAFE_RECIPIENT_ACCOUNT_NOT_ACTIVE",
      )
      ∷ (env.merchant_error, codes "PAYSAFE_MERCHANT_LOOKUP_FAILED")
      ∷ [])) [ some e ↦ some e | none ↦ merchant_check env r recipient ]

abbrev pub role_is : VaultRole → VaultRole → Bool
role_is operating operating = true
role_is internal_transfer internal_transfer = true
role_is other_role other_role = true
role_is _ _ = false

abbrev pub has_role : VaultRole → Vault → Bool
has_role role v = role_is role v.vault_role

-- The usable vaults of a role.
unfoldable pub usable_vaults : VaultRole → List Vault → List Vault
unfolding is_usable_vault
usable_vaults role [] = []
usable_vaults role (v ∷ vs) =
    let rest = usable_vaults role vs in
    if has_role role v && is_usable_vault v then v ∷ rest else rest

-- `.sort((a, b) => b.balance - a.balance)`, which is stable
unfoldable pub place_by_balance : Vault → List Vault → List Vault
place_by_balance v [] = v ∷ []
place_by_balance v (w ∷ ws) =
    let rest = place_by_balance v ws in if leb_ℤ w.balance v.balance then v ∷ w ∷ ws else w ∷ rest

unfoldable pub by_balance : List Vault → List Vault
unfolding place_by_balance
by_balance [] = []
by_balance (v ∷ vs) = place_by_balance v (by_balance vs)

abbrev pub first_vault : List Vault → Option Vault
first_vault [] = none
first_vault (v ∷ vs) = some v

-- `.find((vault) => vault.balance >= amount)`
unfoldable pub find_funded : ℤ → List Vault → Option Vault
find_funded amount [] = none
find_funded amount (v ∷ vs) = if leb_ℤ amount v.balance then some v else find_funded amount vs

abbrev pub source_of : EscrowEnv → EscrowRequest → Option Vault
source_of env r =
    find_funded r.amount (by_balance (usable_vaults operating (env.vaults_of r.sender_id)))

abbrev pub pay_safe_of : EscrowEnv → EscrowRequest → Option Vault
pay_safe_of env r =
    first_vault (by_balance (usable_vaults internal_transfer (env.vaults_of r.sender_id)))

abbrev pub recipient_vault_of : EscrowEnv → Text → Option Vault
recipient_vault_of env recipient =
    first_vault (by_balance (usable_vaults operating (env.vaults_of recipient)))

-- The input of the fee of a merchant's payment.
unfoldable pub merchant_fee_input : ℤ → Text → FeeInput
unfolding ◌*ℤ◌
merchant_fee_input amount currency = record {
  flow_code = codes "MERCHANT_PAYMENT";
  amount = millionths (amount *ℤ pos 10000);
  currency = currency;
  provider_id = none;
  country_code = none;
  rail = some (codes "WALLET");
  channel = some (codes "PAYSAFE");
  direction = some (codes "INBOUND");
  transaction_model = some (codes "MERCHANT_PAYMENT");
  category_code = none;
  category_id = none;
  operation_type = some (codes "PAYSAFE_RELEASE");
  transaction_type = some (codes "MERCHANT_PAYMENT");
}

abbrev pub fee_check : ℤ → Outcome FeeComputation → Outcome (Option FeeComputation)
fee_check amount (thrown e) = thrown e
fee_check amount (returned f) =
    if ltb_ℤ f.total_fee (pos 0) || leb_ℤ f.net_amount (pos 0) || leb_ℤ amount f.total_fee
    then thrown (codes "PAYSAFE_MERCHANT_FEE_INVALID")
    else returned (some f)

unfoldable pub merchant_fee : EscrowEnv → EscrowRequest → Text → Outcome (Option FeeComputation)
unfolding resolve_fee merchant_fee_input
merchant_fee env r currency =
    if is_filled r.merchant_id
    then fee_check r.amount (resolve_fee env.fee_rows (merchant_fee_input r.amount currency))
    else returned none

abbrev pub with_fee :
    Vault → Vault → Vault → Text → Outcome (Option FeeComputation) → Outcome EscrowTerms
with_fee source safe recipient currency (thrown e) = thrown e
with_fee source safe recipient currency (returned fee) = returned (record {
  source_vault = source;
  pay_safe_vault = safe;
  recipient_vault = recipient;
  currency = currency;
  fee = fee;
})

abbrev pub three : List Vault → Bool
three (a ∷ b ∷ c ∷ []) = true
three _ = false

-- The checks of the chosen vaults, on the second read, and of their currencies.
unfoldable pub vaults_error : EscrowEnv → Vault → Vault → Vault → Option Text
unfolding first_error text_eq to_upper to_lower is_usable_vault
vaults_error env source safe recipient = first_error (
    (env.active_error || not (three env.active_vaults), codes "PAYSAFE_VAULT_LOOKUP_FAILED")
    ∷ (any (λ v. not (is_usable_vault v)) env.active_vaults, codes "PAYSAFE_VAULT_UNAVAILABLE")
    ∷ (
      not (text_eq (to_upper source.currency) (to_upper safe.currency))
          || not (text_eq (to_upper source.currency) (to_upper recipient.currency)),
      codes "PAYSAFE_CURRENCY_MISMATCH",
    )
    ∷ [])

unfoldable pub terms_checked :
    EscrowEnv → EscrowRequest → Vault → Vault → Vault → Option Text → Outcome EscrowTerms
unfolding merchant_fee to_upper
terms_checked env r source safe recipient (some e) = thrown e
terms_checked env r source safe recipient none =
    with_fee source safe recipient (to_upper source.currency)
      (merchant_fee env r (to_upper source.currency))

unfoldable pub terms_with :
    EscrowEnv → EscrowRequest → Option Vault → Option Vault → Option Vault → Outcome EscrowTerms
unfolding vaults_error terms_checked
terms_with env r none safe recipient = thrown (codes "OPERATING_WALLET_REQUIRED")
terms_with env r (some source) none recipient = thrown (codes "PAYSAFE_VAULT_NOT_FOUND")
terms_with env r (some source) (some safe) none = thrown (codes "RECIPIENT_VAULT_NOT_FOUND")
terms_with env r (some source) (some safe) (some recipient) =
    terms_checked env r source safe recipient (vaults_error env source safe recipient)

unfoldable pub terms_of_parties :
    EscrowEnv → EscrowRequest → Text → Option Text → Outcome EscrowTerms
unfolding terms_with find_funded by_balance usable_vaults
terms_of_parties env r recipient (some e) = thrown e
terms_of_parties env r recipient none =
    if env.vault_error
    then thrown (codes "PAYSAFE_VAULT_LOOKUP_FAILED")
    else terms_with env r (source_of env r) (pay_safe_of env r) (recipient_vault_of env recipient)

-- From the look at the accounts to the fee.
unfoldable pub escrow_terms : EscrowEnv → EscrowRequest → Text → Outcome EscrowTerms
unfolding party_error terms_of_parties
escrow_terms env r recipient = terms_of_parties env r recipient (party_error env r recipient)
