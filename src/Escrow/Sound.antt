-- ===== src/Escrow/Sound.antt =====
-- What the terms of an escrow satisfy.
use mathlib.Core.List.{Memᴰ}
use orbi_insitutional_core_v.Prelude.{
  ◌≡◌, refl, inl, inr, arith, Bool, true, false, not, ◌||◌, ◌&&◌, Option, none, some, List, [], ◌∷◌,
  All, if◌then◌else◌, Bool-cases, any,
}
use orbi_insitutional_core_v.Prelude.Int.{pos, ◌≤ℤ◌, leb_ℤ, ltb_ℤ}
use orbi_insitutional_core_v.Prelude.Text.{Text, codes, to_lower, to_upper, text_eq}
use orbi_insitutional_core_v.Prelude.Dict.{text_eq_iff}
use orbi_insitutional_core_v.Fees.Compute.{FeeComputation, Outcome, returned, thrown, resolve_fee}
use orbi_insitutional_core_v.Escrow.{is_filled}
use orbi_insitutional_core_v.Escrow.Terms.{
  VaultRole, operating, internal_transfer, other_role, Vault, EscrowEnv, EscrowRequest, EscrowTerms,
  first_error, is_usable_vault, party_error, usable_vaults, place_by_balance, by_balance,
  first_vault, find_funded, source_of, pay_safe_of, recipient_vault_of, has_role, role_is,
  merchant_fee_input, fee_check, merchant_fee, vaults_error, terms_with, terms_checked,
  terms_of_parties, three, escrow_terms, with_fee,
}

-- A fee is there for a merchant alone; it is not negative, and leaves the merchant something.
abbrev pub IsFairFee : EscrowRequest → Option FeeComputation → Type 0
IsFairFee r none = is_filled r.merchant_id ≡ false
IsFairFee r (some f) =
    (is_filled r.merchant_id ≡ true)
    × (ltb_ℤ f.total_fee (pos 0) ≡ false)
    × (leb_ℤ f.net_amount (pos 0) ≡ false)
    × (leb_ℤ r.amount f.total_fee ≡ false)

-- A vault that is not locked, by its flag or its status.
abbrev pub IsOpen : Vault → Type 0
IsOpen v =
    (v.is_locked ≡ false)
    × (text_eq (codes "locked") (to_lower v.status) ≡ false)
    × (text_eq (codes "frozen") (to_lower v.status) ≡ false)
    × (text_eq (codes "blocked") (to_lower v.status) ≡ false)
    × (text_eq (codes "suspended") (to_lower v.status) ≡ false)

-- A vault of the list that is open and has the role.
abbrev pub IsOwn : VaultRole → List Vault → Vault → Type 0
IsOwn role vs v = Memᴰ v vs × (v.vault_role ≡ role) × IsOpen v

-- The source and the safe are vaults of the sender, and the third one of the recipient; they are open and
-- of one currency, and the source holds the amount.
abbrev pub AreSound : EscrowEnv → EscrowRequest → Text → EscrowTerms → Type 0
AreSound env r recipient t =
    IsOwn operating (env.vaults_of r.sender_id) t.source_vault
    × (r.amount ≤ℤ t.source_vault.balance)
    × IsOwn internal_transfer (env.vaults_of r.sender_id) t.pay_safe_vault
    × IsOwn operating (env.vaults_of recipient) t.recipient_vault
    × (to_upper t.source_vault.currency ≡ to_upper t.pay_safe_vault.currency)
    × (to_upper t.source_vault.currency ≡ to_upper t.recipient_vault.currency)
    × IsFairFee r t.fee

open_bits :
    (l a b c d : Bool)
    → (not l && not (a || (b || (c || (d || false))))) ≡ true
    → (l ≡ false) × (a ≡ false) × (b ≡ false) × (c ≡ false) × (d ≡ false)
open_bits true a b c d h = cc
open_bits false true b c d h = cc
open_bits false false true c d h = cc
open_bits false false false true d h = cc
open_bits false false false false true h = cc
open_bits false false false false false h = (refl, refl, refl, refl, refl)

usable-IsOpen : (v : Vault) → is_usable_vault v ≡ true → IsOpen v
unfolding is_usable_vault
usable-IsOpen v u =
    open_bits v.is_locked (text_eq (codes "locked") (to_lower v.status))
      (text_eq (codes "frozen") (to_lower v.status)) (text_eq (codes "blocked") (to_lower v.status))
      (text_eq (codes "suspended") (to_lower v.status)) u

role_of : (r s : VaultRole) → role_is r s ≡ true → s ≡ r
role_of operating operating h = refl
role_of operating internal_transfer h = cc
role_of operating other_role h = cc
role_of internal_transfer operating h = cc
role_of internal_transfer internal_transfer h = refl
role_of internal_transfer other_role h = cc
role_of other_role operating h = cc
role_of other_role internal_transfer h = cc
role_of other_role other_role h = refl

usable_vaults-IsOwn :
    (role : VaultRole) (all vs : List Vault)
    → ((v : Vault) → Memᴰ v vs → Memᴰ v all)
    → All (IsOwn role all) (usable_vaults role vs)
unfolding usable_vaults
usable_vaults-IsOwn role all [] m = tt
usable_vaults-IsOwn role all (v ∷ vs) m =
    let rest = usable_vaults-IsOwn role all vs (λ x h. m x (Memᴰ.tail h)) in
    elim (Bool-cases (has_role role v)) [
      | inl h ↦ elim (Bool-cases (is_usable_vault v)) [
        | inl u ↦
            rw (h, u) ((m v (Memᴰ.head refl), role_of role v.vault_role h, usable-IsOpen v u), rest)
        | inr u ↦ rw (h, u) rest
      ]
      | inr h ↦ rw h rest
    ]

place-All :
    (P : Vault → Type 0) (v : Vault) (vs : List Vault)
    → P v
    → All P vs
    → All P (place_by_balance v vs)
unfolding place_by_balance
place-All P v [] u h = (u, tt)
place-All P v (w ∷ ws) u h = elim (Bool-cases (leb_ℤ w.balance v.balance)) [
  | inl b ↦ rw b (u, h)
  | inr b ↦ rw b (h.0, place-All P v ws u h.1)
]

by_balance-All : (P : Vault → Type 0) (vs : List Vault) → All P vs → All P (by_balance vs)
unfolding by_balance
by_balance-All P [] h = tt
by_balance-All P (v ∷ vs) h = place-All P v (by_balance vs) h.0 (by_balance-All P vs h.1)

abbrev IfAny : (Vault → Type 0) → Option Vault → Type 0
IfAny P none = Unit
IfAny P (some v) = P v

first_vault-IfAny : (P : Vault → Type 0) (vs : List Vault) → All P vs → IfAny P (first_vault vs)
first_vault-IfAny P [] h = tt
first_vault-IfAny P (v ∷ vs) h = h.0

find_funded-Funded :
    (P : Vault → Type 0) (r : EscrowRequest) (vs : List Vault)
    → All P vs
    → IfAny (λ v. P v × (r.amount ≤ℤ v.balance)) (find_funded r.amount vs)
unfolding find_funded
find_funded-Funded P r [] h = tt
find_funded-Funded P r (v ∷ vs) h = elim (Bool-cases (leb_ℤ r.amount v.balance)) [
  | inl b ↦ rw b (h.0, ground (arith, b))
  | inr b ↦ rw b (find_funded-Funded P r vs h.1)
]

abbrev FairIfAny : EscrowRequest → Outcome (Option FeeComputation) → Type 0
FairIfAny r (thrown e) = Unit
FairIfAny r (returned f) = IsFairFee r f

fee_check-Fair :
    (r : EscrowRequest) (o : Outcome FeeComputation)
    → is_filled r.merchant_id ≡ true
    → FairIfAny r (fee_check r.amount o)
fee_check-Fair r (thrown e) m = tt
fee_check-Fair r (returned f) m = elim (Bool-cases (ltb_ℤ f.total_fee (pos 0))) [
  | inl a ↦ rw a tt
  | inr a ↦ elim (Bool-cases (leb_ℤ f.net_amount (pos 0))) [
    | inl b ↦ rw (a, b) tt
    | inr b ↦ elim (Bool-cases (leb_ℤ r.amount f.total_fee)) [
      | inl c ↦ rw (a, b, c) tt
      | inr c ↦ rw (a, b, c) (m, a, b, c)
    ]
  ]
]

merchant_fee-Fair :
    (env : EscrowEnv) (r : EscrowRequest) (currency : Text)
    → FairIfAny r (merchant_fee env r currency)
unfolding merchant_fee
merchant_fee-Fair env r currency = elim (Bool-cases (is_filled r.merchant_id)) [
  | inr m ↦ rw m m
  | inl m ↦
      rw m (fee_check-Fair r (resolve_fee env.fee_rows (merchant_fee_input r.amount currency)) m)
]

abbrev pub SoundIfAny : EscrowEnv → EscrowRequest → Text → Outcome EscrowTerms → Type 0
SoundIfAny env r u (thrown e) = Unit
SoundIfAny env r u (returned t) = AreSound env r u t

-- The third of three checks.
third_check :
    (a b x y : Bool) (e₁ e₂ e₃ : Text)
    → first_error ((a, e₁) ∷ (b, e₂) ∷ (not x || not y, e₃) ∷ []) ≡ none
    → (x ≡ true) × (y ≡ true)
unfolding first_error
third_check true b x y e₁ e₂ e₃ h = cc
third_check false true x y e₁ e₂ e₃ h = cc
third_check false false false y e₁ e₂ e₃ h = cc
third_check false false true false e₁ e₂ e₃ h = cc
third_check false false true true e₁ e₂ e₃ h = (refl, refl)

vaults_error-none :
    (env : EscrowEnv) (source safe recipient : Vault)
    → vaults_error env source safe recipient ≡ none
    → (to_upper source.currency ≡ to_upper safe.currency)
      × (to_upper source.currency ≡ to_upper recipient.currency)
unfolding vaults_error
vaults_error-none env source safe recipient h =
    let k =
      third_check (env.active_error || not (three env.active_vaults))
        (any (λ v. not (is_usable_vault v)) env.active_vaults)
        (text_eq (to_upper source.currency) (to_upper safe.currency))
        (text_eq (to_upper source.currency) (to_upper recipient.currency))
        (codes "PAYSAFE_VAULT_LOOKUP_FAILED") (codes "PAYSAFE_VAULT_UNAVAILABLE")
        (codes "PAYSAFE_CURRENCY_MISMATCH") h in
    (
      (text_eq_iff (to_upper source.currency) (to_upper safe.currency)).0 k.0,
      (text_eq_iff (to_upper source.currency) (to_upper recipient.currency)).0 k.1,
    )

with_fee-Sound :
    (env : EscrowEnv) (r : EscrowRequest) (user : Text) (source safe recipient : Vault)
    (currency : Text) (o : Outcome (Option FeeComputation))
    → IsOwn operating (env.vaults_of r.sender_id) source × (r.amount ≤ℤ source.balance)
    → IsOwn internal_transfer (env.vaults_of r.sender_id) safe
    → IsOwn operating (env.vaults_of user) recipient
    → (to_upper source.currency ≡ to_upper safe.currency)
      × (to_upper source.currency ≡ to_upper recipient.currency)
    → FairIfAny r o
    → SoundIfAny env r user (with_fee source safe recipient currency o)
with_fee-Sound env r user source safe recipient currency (thrown e) u v w c f = tt
with_fee-Sound env r user source safe recipient currency (returned fee) u v w c f =
    (u.0, u.1, v, w, c.0, c.1, f)

terms_checked-Sound :
    (env : EscrowEnv) (r : EscrowRequest) (user : Text) (source safe recipient : Vault)
    (o : Option Text)
    → vaults_error env source safe recipient ≡ o
    → IsOwn operating (env.vaults_of r.sender_id) source × (r.amount ≤ℤ source.balance)
    → IsOwn internal_transfer (env.vaults_of r.sender_id) safe
    → IsOwn operating (env.vaults_of user) recipient
    → SoundIfAny env r user (terms_checked env r source safe recipient o)
unfolding terms_checked
terms_checked-Sound env r user source safe recipient (some m) e u v w = tt
terms_checked-Sound env r user source safe recipient none e u v w =
    with_fee-Sound env r user source safe recipient (to_upper source.currency)
      (merchant_fee env r (to_upper source.currency)) u v w
      (vaults_error-none env source safe recipient e)
      (merchant_fee-Fair env r (to_upper source.currency))

terms_with-Sound :
    (env : EscrowEnv) (r : EscrowRequest) (user : Text) (source safe recipient : Option Vault)
    → IfAny (λ v. IsOwn operating (env.vaults_of r.sender_id) v × (r.amount ≤ℤ v.balance)) source
    → IfAny (IsOwn internal_transfer (env.vaults_of r.sender_id)) safe
    → IfAny (IsOwn operating (env.vaults_of user)) recipient
    → SoundIfAny env r user (terms_with env r source safe recipient)
unfolding terms_with
terms_with-Sound env r user none safe recipient u v w = tt
terms_with-Sound env r user (some source) none recipient u v w = tt
terms_with-Sound env r user (some source) (some safe) none u v w = tt
terms_with-Sound env r user (some source) (some safe) (some recipient) u v w =
    terms_checked-Sound env r user source safe recipient (vaults_error env source safe recipient)
      refl u v w

ordered-IsOwn :
    (role : VaultRole) (vs : List Vault) → All (IsOwn role vs) (by_balance (usable_vaults role vs))
ordered-IsOwn role vs =
    by_balance-All (IsOwn role vs) (usable_vaults role vs)
      (usable_vaults-IsOwn role vs vs (λ v m. m))

if-Sound :
    (env : EscrowEnv) (r : EscrowRequest) (user : Text) (b : Bool) (e : Text)
    (o : Outcome EscrowTerms)
    → SoundIfAny env r user o
    → SoundIfAny env r user (if b then thrown e else o)
if-Sound env r user true e o h = tt
if-Sound env r user false e o h = h

terms_of_parties-Sound :
    (env : EscrowEnv) (r : EscrowRequest) (recipient : Text) (o : Option Text)
    → SoundIfAny env r recipient (terms_of_parties env r recipient o)
unfolding terms_of_parties
terms_of_parties-Sound env r recipient (some e) = tt
terms_of_parties-Sound env r recipient none =
    let own = env.vaults_of r.sender_id in
    let theirs = env.vaults_of recipient in
    if-Sound env r recipient env.vault_error (codes "PAYSAFE_VAULT_LOOKUP_FAILED")
      (terms_with env r (source_of env r) (pay_safe_of env r) (recipient_vault_of env recipient))
      (terms_with-Sound env r recipient (source_of env r) (pay_safe_of env r)
        (recipient_vault_of env recipient)
        (find_funded-Funded (IsOwn operating own) r (by_balance (usable_vaults operating own))
          (ordered-IsOwn operating own))
        (first_vault-IfAny (IsOwn internal_transfer own)
          (by_balance (usable_vaults internal_transfer own)) (ordered-IsOwn internal_transfer own))
        (first_vault-IfAny (IsOwn operating theirs) (by_balance (usable_vaults operating theirs))
          (ordered-IsOwn operating theirs)))

pub escrow_terms-Sound :
    (env : EscrowEnv) (r : EscrowRequest) (recipient : Text)
    → SoundIfAny env r recipient (escrow_terms env r recipient)
unfolding escrow_terms
escrow_terms-Sound env r recipient =
    terms_of_parties-Sound env r recipient (party_error env r recipient)
