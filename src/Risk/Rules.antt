-- ===== src/Risk/Rules.antt =====
-- `RulesEngine` of ledger/rulesEngine.ts: the rules of its domains, the score and the decision. Evidence and
-- the messages that print a number or a reason are left out. The score of the model is in ten-thousandths, and the sums are exact.
use orbi_insitutional_core_v.Prelude.{
  ℕ, ◌+◌, ◌*◌, Bool, true, false, not, ◌&&◌, ◌||◌, Option, none, some, List, [], ◌∷◌, ◌++◌, any,
  if◌then◌else◌, ltb, leb, length, ◌/◌,
}
use orbi_insitutional_core_v.Prelude.Int.{ℤ, pos, ◌+ℤ◌, ◌*ℤ◌, ltb_ℤ}
use orbi_insitutional_core_v.Prelude.Text.{Text, codes, text_eq}
use orbi_insitutional_core_v.Risk.{
  Past, RiskUser, Payload, RiskEnv, Screening, hold, FraudDecision, within, is_given, screen,
}
use orbi_insitutional_core_v.Risk as Risk

pub data RiskSeverity : Type 0 where
  low medium high critical : RiskSeverity

pub record RuleResult : Type 0 where
  pub rule_id : Text
  pub passed : Bool
  pub severity : RiskSeverity
  pub message : Option Text
  pub shadow_mode : Bool

pub data Decision : Type 0 where
  allow challenge block : Decision

pub record RuleConfig : Type 0 where
  pub score_weights : RiskSeverity → ℕ
  pub max_daily_total : ℤ
  pub auto_block : ℕ
  pub hold_for_review : ℕ

pub record ValidationReport : Type 0 where
  pub passed : Bool
  pub score : ℕ
  pub results : List RuleResult
  pub decision : Decision

abbrev pub rule : Text → Bool → RiskSeverity → RuleResult
rule id passed severity = record {
  rule_id = id;
  passed = passed;
  severity = severity;
  message = none;
  shadow_mode = false;
}

abbrev pub with_message : Text → RuleResult → RuleResult
with_message m r = record r { message = some m }

-- A rule that is pushed only where it fails.
abbrev pub breach : Bool → Text → RiskSeverity → List RuleResult
breach c id severity = if c then rule id false severity ∷ [] else []

abbrev pub option_is : Text → Option Text → Bool
option_is s none = false
option_is s (some t) = text_eq t s

unfoldable pub is_active_user : RiskUser → Bool
unfolding text_eq
is_active_user u =
    option_is (codes "active")
      (if is_given u.metadata_status then u.metadata_status else u.account_status)

unfoldable pub is_blocked_region : RiskUser → Bool
unfolding text_eq
is_blocked_region u = option_is (codes "Blocked-Region") u.nationality

unfoldable pub evaluate_identity_domain : RiskUser → List RuleResult
unfolding is_active_user is_blocked_region
evaluate_identity_domain u =
    with_message (codes "Primary identity node must be in ACTIVE state.")
      (rule (codes "ID-001") (is_active_user u) critical)
    ∷ with_message
        (if is_blocked_region u
          then codes "Sanctions region detected for origin node."
          else codes "Nationality cleared.")
        (rule (codes "ID-005") (not (is_blocked_region u)) critical)
    ∷ []

unfoldable pub todays_total : Text → List Past → ℤ
unfolding text_eq ◌+ℤ◌
todays_total today [] = pos 0
todays_total today (t ∷ ts) =
    let others = todays_total today ts in
    if text_eq t.date today && text_eq t.status (codes "completed")
    then t.amount +ℤ others
    else others

unfoldable pub count_small : RiskEnv → List Past → ℕ
count_small env [] = 0
count_small env (t ∷ ts) =
    let others = count_small env ts in
    if within env.now 14400000 (env.time_of t.created_at)
      && ltb_ℤ (pos 90000) t.amount
      && ltb_ℤ t.amount (pos 100000)
    then 1 + others
    else others

unfoldable pub exceeds_day : RiskEnv → Payload → List Past → ℤ → Bool
unfolding todays_total ◌+ℤ◌
exceeds_day env p history most = ltb_ℤ most (todays_total env.today history +ℤ p.amount)

unfoldable pub evaluate_velocity_domain : RiskEnv → Payload → List Past → ℤ → List RuleResult
unfolding exceeds_day count_small
evaluate_velocity_domain env p history most =
    breach (exceeds_day env p history most) (codes "VL-001") critical
    ++ breach (leb 3 (count_small env history)) (codes "VL-010") high

abbrev pub high_risk_corridors : List Text
high_risk_corridors = codes "KY" ∷ codes "VG" ∷ codes "PA" ∷ codes "KP" ∷ codes "IR" ∷ []

unfoldable pub is_high_risk : Payload → Bool
unfolding text_eq
is_high_risk p = any (λ c. option_is c p.destination_country) high_risk_corridors

unfoldable pub evaluate_geographic_domain : Payload → List RuleResult
unfolding is_high_risk
evaluate_geographic_domain p =
    with_message
      (if is_high_risk p
        then codes "High-risk geographic corridor flagged for blocking."
        else codes "Corridor nominal.")
      (rule (codes "GE-001") (not (is_high_risk p)) high)
    ∷ []

unfoldable pub sum_amounts : List Past → ℤ
unfolding ◌+ℤ◌
sum_amounts [] = pos 0
sum_amounts (t ∷ ts) = t.amount +ℤ sum_amounts ts

-- `amount > avg * 12` with at least ten amounts, cleared of the division.
unfoldable pub is_anomaly : Payload → List Past → Bool
unfolding sum_amounts ◌*ℤ◌
is_anomaly p history =
    leb 10 (length history)
    && ltb_ℤ (sum_amounts history *ℤ pos 12) (p.amount *ℤ pos (length history))

abbrev pub is_high_value : Payload → Bool
is_high_value p = ltb_ℤ (pos 100000000) p.amount

unfoldable pub evaluate_behavioral_domain : Payload → List Past → List RuleResult
unfolding is_anomaly
evaluate_behavioral_domain p history =
    breach (is_anomaly p history) (codes "BH-001") high
    ++ breach (is_high_value p) (codes "BH-010") high

abbrev pub model_rule : ℕ → RuleResult
model_rule ml =
    rule (codes "ML-NODE-PROBABILITY") (ltb ml 9000) (if ltb 9500 ml then critical else high)

unfoldable pub all_results :
    RiskEnv → RuleConfig → ℕ → RiskUser → Payload → List Past → Bool → List RuleResult
unfolding evaluate_identity_domain evaluate_velocity_domain evaluate_geographic_domain
    evaluate_behavioral_domain
all_results env config ml user p history cleared =
    rule (codes "COMPLIANCE-AML-SCREENING") cleared critical
    ∷ (evaluate_identity_domain user
        ++ (evaluate_velocity_domain env p history config.max_daily_total
            ++ (evaluate_geographic_domain p
                ++ (evaluate_behavioral_domain p history ++ (model_rule ml ∷ [])))))

unfoldable pub heuristic_score : RuleConfig → List RuleResult → ℕ
heuristic_score config [] = 0
heuristic_score config (r ∷ rs) =
    let others = heuristic_score config rs in
    if r.passed || r.shadow_mode then others else config.score_weights r.severity + others

abbrev pub at_most_100 : ℕ → ℕ
at_most_100 n = if leb n 100 then n else 100

-- The rules count for 40 %, the model for 60 %.
abbrev pub fused_score : ℕ → ℕ → ℕ
fused_score heuristic ml = at_most_100 ((heuristic * 4000 + ml * 60 + 5000) / 10000)

abbrev pub final_score : ℕ → ℕ → ℕ
final_score risk fused = if ltb fused risk then risk else fused

abbrev pub is_critical : RiskSeverity → Bool
is_critical critical = true
is_critical _ = false

abbrev pub is_high : RiskSeverity → Bool
is_high high = true
is_high _ = false

abbrev pub is_violation : RuleResult → Bool
is_violation r = not r.passed && is_critical r.severity && not r.shadow_mode

abbrev pub is_warning : RuleResult → Bool
is_warning r = not r.passed && is_high r.severity

abbrev pub is_block : Screening → Bool
is_block Risk.block = true
is_block _ = false

abbrev pub is_hold : Screening → Bool
is_hold hold = true
is_hold _ = false

unfoldable pub decide : RuleConfig → ℕ → FraudDecision → List RuleResult → ℕ → Decision
decide config ml fraud results score =
    if is_block fraud.decision
      || any is_violation results
      || leb 9800 ml
      || leb config.auto_block score
    then block
    else (if is_hold fraud.decision || leb config.hold_for_review score || any is_warning results
        then challenge
        else allow)

abbrev pub is_passed : Decision → Bool
is_passed block = false
is_passed _ = true

unfoldable pub evaluate :
    RiskEnv → RuleConfig → ℕ → RiskUser → Payload → List Past → ValidationReport
unfolding screen all_results heuristic_score decide
evaluate env config ml user p history =
    let fraud = screen env user p history in
    let results = all_results env config ml user p history fraud.passed in
    let score = final_score fraud.risk_score (fused_score (heuristic_score config results) ml) in
    let decision = decide config ml fraud results score in
    record { passed = is_passed decision; score = score; results = results; decision = decision }
