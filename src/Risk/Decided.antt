-- ===== src/Risk/Decided.antt =====
-- The decision of a report, beside the tests of the code that it follows.
use orbi_insitutional_core_v.Risk.Failures.{results_violation, results_warning}
use orbi_insitutional_core_v.Prelude.{
  ◌≡◌, refl, ◌↔◌, arith, ℕ, ◌≤◌, ◌<◌, Bool, true, false, not, ◌&&◌, ◌||◌, List, any, if◌then◌else◌,
  ltb, leb,
}
use orbi_insitutional_core_v.Prelude.Int.{ℤ, pos, ltb_ℤ, ◌≤ℤ◌}
use orbi_insitutional_core_v.Risk.{
  FraudDecision, Past, RiskUser, Payload, RiskEnv, screening_of, does_pass, screen,
}
use orbi_insitutional_core_v.Risk.Rules.{
  Decision, allow, challenge, block, RuleConfig, is_active_user, is_blocked_region, count_small,
  exceeds_day, is_high_risk, is_anomaly, all_results, is_violation, is_warning, is_block, is_hold,
  decide, evaluate,
}

-- What the safe and the calm cases say, in numbers and Booleans.
safe_iff :
    (risk ml score most : ℕ) (active blocked over : Bool)
    → (is_block (screening_of risk)
          || (not (does_pass (screening_of risk))
              || (not active || (blocked || (over || (not (ltb ml 9000) && ltb 9500 ml)))))
          || leb 9800 ml
          || leb most score
        ≡ false)
      ↔ ((risk < 80)
          × (active ≡ true)
          × (blocked ≡ false)
          × (over ≡ false)
          × (ml ≤ 9500)
          × (score < most))
safe_iff risk ml score most active blocked over = (λ h. ground arith, λ h. ground arith)

calm_iff :
    (risk ml score most small : ℕ) (country anomaly : Bool) (amount : ℤ)
    → risk < 80
    → ml ≤ 9500
    → ((is_hold (screening_of risk)
          || leb most score
          || (leb 3 small
              || (country
                  || ((anomaly || ltb_ℤ (pos 100000000) amount)
                      || (not (ltb ml 9000) && not (ltb 9500 ml))))))
        ≡ false)
      ↔ ((risk < 40)
          × (score < most)
          × (small < 3)
          × (country ≡ false)
          × (anomaly ≡ false)
          × (amount ≤ℤ pos 100000000)
          × (ml < 9000))
calm_iff risk ml score most small country anomaly amount h k =
    (λ z. ground arith, λ z. ground arith)

-- A block stands for what is not safe, a challenge for what is safe and not calm.
abbrev pub Judged : Type 0 → Type 0 → Decision → Type 0
Judged safe calm block = ¬ safe
Judged safe calm challenge = safe × ¬ calm
Judged safe calm allow = safe × calm

two_tests-Judged :
    {safe calm : Type 0} (b c : Bool)
    → (b ≡ false) ↔ safe
    → (safe → (c ≡ false) ↔ calm)
    → Judged safe calm (if b then block else (if c then challenge else allow))
two_tests-Judged true c f g = λ s. let e = f.1 s in ground arith
two_tests-Judged false true f g = let s = f.0 refl in (s, λ k. let e = (g s).1 k in ground arith)
two_tests-Judged false false f g = let s = f.0 refl in (s, (g s).0 refl)

module _ (env : RiskEnv) (config : RuleConfig) (ml : ℕ) (u : RiskUser) (p : Payload)
    (history : List Past) where
  abbrev pub SafeAt : ℕ → ℕ → Type 0
  SafeAt risk score =
      (risk < 80)
      × (is_active_user u ≡ true)
      × (is_blocked_region u ≡ false)
      × (exceeds_day env p history config.max_daily_total ≡ false)
      × (ml ≤ 9500)
      × (score < config.auto_block)

  abbrev pub CalmAt : ℕ → ℕ → Type 0
  CalmAt risk score =
      (risk < 40)
      × (score < config.hold_for_review)
      × (count_small env history < 3)
      × (is_high_risk p ≡ false)
      × (is_anomaly p history ≡ false)
      × (p.amount ≤ℤ pos 100000000)
      × (ml < 9000)

  decide-Judged :
      (risk score : ℕ) (fraud : FraudDecision)
      → fraud.decision ≡ screening_of risk
      → Judged (SafeAt risk score) (CalmAt risk score) (
          decide config ml fraud
            (all_results env config ml u p history (does_pass (screening_of risk)))
            score)
  unfolding decide
  decide-Judged risk score fraud e =
      let results = all_results env config ml u p history (does_pass (screening_of risk)) in
      let violated = results_violation env config ml u p history (does_pass (screening_of risk)) in
      let warned = results_warning env config ml u p history (does_pass (screening_of risk)) in
      two_tests-Judged
        (is_block fraud.decision
          || any is_violation results
          || leb 9800 ml
          || leb config.auto_block score)
        (is_hold fraud.decision || leb config.hold_for_review score || any is_warning results)
        (rw (e, violated)
          (safe_iff risk ml score config.auto_block (is_active_user u) (is_blocked_region u)
            (exceeds_day env p history config.max_daily_total)))
        (λ s.
          rw (e, warned)
            (calm_iff risk ml score config.hold_for_review (count_small env history)
              (is_high_risk p) (is_anomaly p history) p.amount s.0 s.4))

  pub evaluate-Judged :
      let score = (evaluate env config ml u p history).score in
      let risk = (screen env u p history).risk_score in
      Judged (SafeAt risk score) (CalmAt risk score) (evaluate env config ml u p history).decision
  unfolding evaluate screen
  evaluate-Judged =
      let fraud = screen env u p history in
      decide-Judged fraud.risk_score (evaluate env config ml u p history).score fraud refl
