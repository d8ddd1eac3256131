-- ===== src/Risk/Failures.antt =====
-- Which rules of each domain fail, in one condition.
use orbi_insitutional_core_v.Prelude.{
  ◌∙◌, ◌≡◌, refl, arith, ℕ, Bool, true, false, not, ◌&&◌, ◌||◌, List, [], ◌∷◌, ◌++◌, any, ltb, leb,
}
use orbi_insitutional_core_v.Prelude.Int.{ℤ}
use orbi_insitutional_core_v.Prelude.Text.{Text, codes}
use orbi_insitutional_core_v.Risk.{Past, RiskUser, Payload, RiskEnv}
use orbi_insitutional_core_v.Risk.Rules.{
  RiskSeverity, critical, high, RuleResult, RuleConfig, rule, breach, is_active_user,
  is_blocked_region, evaluate_identity_domain, count_small, exceeds_day, evaluate_velocity_domain,
  is_high_risk, evaluate_geographic_domain, is_anomaly, is_high_value, evaluate_behavioral_domain,
  model_rule, all_results, is_violation, is_warning,
}

any-append :
    (q : RuleResult → Bool) (xs ys : List RuleResult) → any q (xs ++ ys) ≡ (any q xs || any q ys)
any-append q [] ys = refl
any-append q (x ∷ xs) ys = let ih = any-append q xs ys in ground arith

two_breaches :
    (q : RuleResult → Bool) (a b : Bool) (i j : Text) (s t : RiskSeverity)
    → any q (breach a i s ++ breach b j t)
      ≡ ((a && q (rule i false s)) || (b && q (rule j false t)))
two_breaches q true true i j s t = ground arith
two_breaches q true false i j s t = ground arith
two_breaches q false true i j s t = ground arith
two_breaches q false false i j s t = refl

pub identity_violation :
    (u : RiskUser)
    → any is_violation (evaluate_identity_domain u)
      ≡ (not (is_active_user u) || is_blocked_region u)
unfolding evaluate_identity_domain
identity_violation u = ground arith

pub identity_warning : (u : RiskUser) → any is_warning (evaluate_identity_domain u) ≡ false
unfolding evaluate_identity_domain
identity_warning u = ground arith

pub velocity_violation :
    (env : RiskEnv) (p : Payload) (history : List Past) (most : ℤ)
    → any is_violation (evaluate_velocity_domain env p history most)
      ≡ exceeds_day env p history most
unfolding evaluate_velocity_domain
velocity_violation env p history most =
    let h =
      two_breaches is_violation (exceeds_day env p history most) (leb 3 (count_small env history))
        (codes "VL-001") (codes "VL-010") critical high in
    h ∙ (ground arith)

pub velocity_warning :
    (env : RiskEnv) (p : Payload) (history : List Past) (most : ℤ)
    → any is_warning (evaluate_velocity_domain env p history most) ≡ leb 3 (count_small env history)
unfolding evaluate_velocity_domain
velocity_warning env p history most =
    let h =
      two_breaches is_warning (exceeds_day env p history most) (leb 3 (count_small env history))
        (codes "VL-001") (codes "VL-010") critical high in
    h ∙ (ground arith)

pub geographic_violation : (p : Payload) → any is_violation (evaluate_geographic_domain p) ≡ false
unfolding evaluate_geographic_domain
geographic_violation p = ground arith

pub geographic_warning :
    (p : Payload) → any is_warning (evaluate_geographic_domain p) ≡ is_high_risk p
unfolding evaluate_geographic_domain
geographic_warning p = ground arith

pub behavioral_violation :
    (p : Payload) (history : List Past)
    → any is_violation (evaluate_behavioral_domain p history) ≡ false
unfolding evaluate_behavioral_domain
behavioral_violation p history =
    let h =
      two_breaches is_violation (is_anomaly p history) (is_high_value p) (codes "BH-001")
        (codes "BH-010") high high in
    h ∙ (ground arith)

pub behavioral_warning :
    (p : Payload) (history : List Past)
    → any is_warning (evaluate_behavioral_domain p history)
      ≡ (is_anomaly p history || is_high_value p)
unfolding evaluate_behavioral_domain
behavioral_warning p history =
    let h =
      two_breaches is_warning (is_anomaly p history) (is_high_value p) (codes "BH-001")
        (codes "BH-010") high high in
    h ∙ (ground arith)

five_parts :
    (q : RuleResult → Bool) (xs ys zs ws : List RuleResult) (r : RuleResult) {a b c d : Bool}
    → any q xs ≡ a
    → any q ys ≡ b
    → any q zs ≡ c
    → any q ws ≡ d
    → any q (xs ++ (ys ++ (zs ++ (ws ++ (r ∷ []))))) ≡ (a || (b || (c || (d || (q r || false)))))
five_parts q xs ys zs ws r a b c d =
    rw (any-append q xs, any-append q ys, any-append q zs, any-append q ws, a, b, c, d) refl

pub results_violation :
    (env : RiskEnv) (config : RuleConfig) (ml : ℕ) (u : RiskUser) (p : Payload)
    (history : List Past) (cleared : Bool)
    → any is_violation (all_results env config ml u p history cleared) ≡ (
        not cleared
        || (not (is_active_user u)
            || (is_blocked_region u
                || (exceeds_day env p history config.max_daily_total
                    || (not (ltb ml 9000) && ltb 9500 ml)))))
unfolding all_results
results_violation env config ml u p history cleared =
    let parts =
      five_parts is_violation (evaluate_identity_domain u)
        (evaluate_velocity_domain env p history config.max_daily_total)
        (evaluate_geographic_domain p) (evaluate_behavioral_domain p history) (model_rule ml)
        (identity_violation u) (velocity_violation env p history config.max_daily_total)
        (geographic_violation p) (behavioral_violation p history) in
    rw (parts) (ground arith)

pub results_warning :
    (env : RiskEnv) (config : RuleConfig) (ml : ℕ) (u : RiskUser) (p : Payload)
    (history : List Past) (cleared : Bool)
    → any is_warning (all_results env config ml u p history cleared) ≡ (
        leb 3 (count_small env history)
        || (is_high_risk p
            || ((is_anomaly p history || is_high_value p)
                || (not (ltb ml 9000) && not (ltb 9500 ml)))))
unfolding all_results
results_warning env config ml u p history cleared =
    let parts =
      five_parts is_warning (evaluate_identity_domain u)
        (evaluate_velocity_domain env p history config.max_daily_total)
        (evaluate_geographic_domain p) (evaluate_behavioral_domain p history) (model_rule ml)
        (identity_warning u) (velocity_warning env p history config.max_daily_total)
        (geographic_warning p) (behavioral_warning p history) in
    rw (parts) (ground arith)
