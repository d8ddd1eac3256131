-- ===== src/Policy/Freeze.antt =====
-- A frozen account.
use orbi_insitutional_core_v.Prelude.{
  ◌≡◌, refl, ◌∙◌, true, false, List, [], ◌∷◌, foldl, inl, inr, Bool-cases, arith,
}
use orbi_insitutional_core_v.Prelude.Text.{Text}
use orbi_insitutional_core_v.Cache.{Cache}
use orbi_insitutional_core_v.Policy.{
  PolicyEnv, is_frozen, evaluate_transaction, freeze_account, commit_metrics,
}
use orbi_insitutional_core_v.Policy.Keys.{is_frozen-commit_metrics, is_frozen-freeze_account}
use orbi_insitutional_core_v.Policy.Daily.{Payment, is_allowed, is_allowed_iff, serve}

module _ {S : Type 0} (cache : Cache S) (user : Text) where
  -- A payment of a user, at a date and with the limits and rates of its own.
  abbrev pub serve_of : S → PolicyEnv × Text × Payment → S
  serve_of s (env, other, p) = serve cache env other s p

  -- Whether an account is frozen does not depend on the date.
  frozen_anytime :
      (env later : PolicyEnv) (s : S) → is_frozen cache env user s ≡ is_frozen cache later user s
  unfolding is_frozen
  frozen_anytime env later s = refl

  stays_frozen :
      (env : PolicyEnv) (s : S) (q : PolicyEnv × Text × Payment)
      → is_frozen cache env user s ≡ true
      → is_frozen cache env user (serve_of s q) ≡ true
  stays_frozen env s (at, other, p) h =
      elim (Bool-cases (is_allowed (evaluate_transaction cache at other p.amount p.currency s))) [
        | inr e ↦ rw e h
        | inl e ↦ rw e (
            frozen_anytime env at (commit_metrics cache at other p.amount p.currency s)
            ∙ is_frozen-commit_metrics cache at user other p.amount p.currency s
            ∙ frozen_anytime at env s
            ∙ h)
      ]

  all_stay_frozen :
      (env : PolicyEnv) (qs : List (PolicyEnv × Text × Payment)) (s : S)
      → is_frozen cache env user s ≡ true
      → is_frozen cache env user (foldl serve_of s qs) ≡ true
  all_stay_frozen env [] s h = h
  all_stay_frozen env (q ∷ qs) s h = all_stay_frozen env qs (serve_of s q) (stays_frozen env s q h)

  -- Once an account is frozen, none of its payments is allowed, whatever payments of whatever
  -- users are evaluated and committed in between, each at a date and hour and with limits and
  -- rates of its own, while no key expires.
  pub frozen_account_blocked :
      (env last : PolicyEnv) (qs : List (PolicyEnv × Text × Payment)) (p : Payment) (s : S)
      → let after = foldl serve_of (freeze_account cache env user s) qs in
        is_allowed (evaluate_transaction cache last user p.amount p.currency after) ≡ false
  frozen_account_blocked env last qs p s =
      let after = foldl serve_of (freeze_account cache env user s) qs in
      let frozen =
        all_stay_frozen env qs (freeze_account cache env user s)
          (is_frozen-freeze_account cache env user s) in
      let still = frozen_anytime last env after ∙ frozen in
      ground (arith, is_allowed_iff cache last user p after)
