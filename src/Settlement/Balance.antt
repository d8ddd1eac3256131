-- ===== src/Settlement/Balance.antt =====
-- The legs of a posting, and when they balance.
use orbi_insitutional_core_v.Prelude.{
  zero, suc, ◌≡◌, Bool, true, false, if◌then◌else◌, Option, none, some, List, [], ◌∷◌, arith,
}
use orbi_insitutional_core_v.Prelude.Int.{ℤ, pos, negsuc, ◌+ℤ◌, ◌≤ℤ◌, int_laws}
use orbi_insitutional_core_v.Prelude.Text.{Text}
use orbi_insitutional_core_v.Settlement.State.{EntryType, debit, credit, Leg, is_empty}
use orbi_insitutional_core_v.Settlement.Commit.{ledger_legs, has_fee}

abbrev type_eq : EntryType → EntryType → Bool
type_eq debit debit = true
type_eq credit credit = true
type_eq _ _ = false

pub total : EntryType → List Leg → ℤ
total t [] = pos 0
total t (l ∷ ls) = if type_eq t l.entry_type then l.amount +ℤ total t ls else total t ls

abbrev pub IsBalanced : List Leg → Type 0
IsBalanced ls = total debit ls ≡ total credit ls

-- The wallet of the fee, which is looked up if there is a fee to pay.
abbrev pub fee_wallet_for : ℤ → Text → Option Text
fee_wallet_for fee w = if has_fee fee then some w else none

-- The legs of a posting balance, debits with credits, if the fee is not negative and its account
-- has an id.
pub legs_balance :
    (source target : Text) (amount fee : ℤ) (w : Text)
    → pos 0 ≤ℤ fee
    → is_empty w ≡ false
    → IsBalanced (ledger_legs source target amount fee (fee_wallet_for fee w))
unfolding total ledger_legs
legs_balance source target amount (pos zero) w h hw = grind int_laws
legs_balance source target amount (pos (suc n)) (c ∷ cs) h hw = grind int_laws
legs_balance source target amount (pos (suc n)) [] h hw = grind int_laws
legs_balance source target amount (negsuc n) w h hw =
    let absurd : ⊥ = omega arith in elim absurd [ ]
