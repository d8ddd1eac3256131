-- ===== src/Policy/Daily.antt =====
-- The limits over a day (and an hour) of transactions of one user, each evaluated and committed in
-- turn, as backend/ledger/PolicyEngine.ts is called.
use orbi_insitutional_core_v.Prelude.{
  ◌≡◌, Bool, true, false, if◌then◌else◌, List, [], ◌∷◌, foldl, inl, inr, ◌↔◌, Bool-cases, arith,
}
use orbi_insitutional_core_v.Prelude.Int.{ℤ, pos, ◌+ℤ◌, ◌≤ℤ◌, +ℤ_parts}
use orbi_insitutional_core_v.Prelude.Text.{Text}
use orbi_insitutional_core_v.Cache.{Cache}
use orbi_insitutional_core_v.Policy.{
  PolicyEnv, Verdict, allowed, tx_limit, daily_limit, velocity_limit, daily_total, tx_count,
  is_frozen, evaluate_transaction, commit_metrics,
}
use orbi_insitutional_core_v.Policy.Keys.{daily_total-commit_metrics, tx_count-commit_metrics}

pub record Payment : Type 0 where
  pub amount : ℤ
  pub currency : Text

abbrev pub is_allowed : Verdict → Bool
is_allowed allowed = true
is_allowed _ = false

module _ {S : Type 0} (cache : Cache S) (env : PolicyEnv) (user : Text) where
  -- What `evaluate_transaction` looks at.
  abbrev pub Complies : Payment → S → Type 0
  Complies p s =
      let usd = env.convert_to_usd p.amount p.currency in
      (usd ≤ℤ tx_limit env)
      × (daily_total cache env user s +ℤ usd ≤ℤ daily_limit env)
      × (tx_count cache env user s ≤ℤ velocity_limit env)
      × (is_frozen cache env user s ≡ false)

  -- A payment is allowed exactly when its amount in dollars is at most the limit of a transaction,
  -- the total of the day with it is at most the daily limit, the count before it is at most the
  -- velocity limit, and the account is not frozen.
  pub is_allowed_iff :
      (p : Payment) (s : S)
      → (is_allowed (evaluate_transaction cache env user p.amount p.currency s) ≡ true)
        ↔ Complies p s
  unfolding evaluate_transaction
  is_allowed_iff p s = (λ h. ground arith, λ h. ground arith)

  -- A payment is evaluated, and committed if it is allowed.
  abbrev pub serve : S → Payment → S
  serve s p =
      if is_allowed (evaluate_transaction cache env user p.amount p.currency s)
      then commit_metrics cache env user p.amount p.currency s
      else s

  -- No more than the daily limit, and no more than one transaction above the limit of an hour.
  abbrev pub IsWithin : S → Type 0
  IsWithin s =
      (daily_total cache env user s ≤ℤ daily_limit env)
      × (tx_count cache env user s ≤ℤ velocity_limit env +ℤ pos 1)

  serve-IsWithin : (s : S) (p : Payment) → IsWithin s → IsWithin (serve s p)
  serve-IsWithin s p h =
      elim (Bool-cases (is_allowed (evaluate_transaction cache env user p.amount p.currency s))) [
        | inr e ↦ rw e h
        | inl e ↦
            let (tx, daily, velocity, frozen) = (is_allowed_iff p s).0 e in
            let count = tx_count cache env user s in
            rw
              (
                e,
                daily_total-commit_metrics cache env user p.amount p.currency s,
                tx_count-commit_metrics cache env user p.amount p.currency s,
              )
              (daily, omega (arith, +ℤ_parts count (pos 1), +ℤ_parts (velocity_limit env) (pos 1)))
      ]

  -- However many payments of a user are evaluated and committed one after the other on one day and
  -- in one hour, while no key expires, the committed total stays within the daily limit, and the
  -- count within one above the velocity limit, if both were so before.
  pub served-IsWithin : (ps : List Payment) (s : S) → IsWithin s → IsWithin (foldl serve s ps)
  served-IsWithin [] s h = h
  served-IsWithin (p ∷ ps) s h = served-IsWithin ps (serve s p) (serve-IsWithin s p h)
