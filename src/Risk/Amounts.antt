-- ===== src/Risk/Amounts.antt =====
-- Bounds of the score, and what they mean for a large amount.
use mathlib.Core.Path.{subst}
use orbi_insitutional_core_v.Prelude.{
  some, ◌≡◌, ◌≢◌, arith, ℕ, ◌+◌, ◌≤◌, ◌<◌, Bool, true, false, ◌&&◌, List, [], if◌then◌else◌, ltb,
}
use orbi_insitutional_core_v.Prelude.Int.{pos, ltb_ℤ}
use orbi_insitutional_core_v.Prelude.Text.{Text, codes}
use orbi_insitutional_core_v.Risk.{
  Past, RiskUser, Payload, RiskEnv, Answer, rows, failed, raised, Flagged, with_flag, count_recent,
  velocity_check, flagged, screen, is_given, no_rows,
}
use orbi_insitutional_core_v.Risk.Rules.{
  RuleConfig, allow, fused_score, final_score, heuristic_score, all_results, evaluate,
}
use orbi_insitutional_core_v.Risk.Justified.{IsJustified, evaluate-IsJustified}

-- A check adds at most its points.
Adds : ℕ → Flagged → Flagged → Type 0
Adds points f g = (f.0 ≤ g.0) × (g.0 ≤ f.0 + points)

with_flag-Adds :
    (c : Bool) (points : ℕ) (flag : Text) (f : Flagged) → Adds points f (with_flag c points flag f)
unfolding Adds
with_flag-Adds true points flag (score, flags) = (omega arith, omega arith)
with_flag-Adds false points flag (score, flags) = (omega arith, omega arith)

velocity_check-Adds :
    (env : RiskEnv) (history : List Past) (a : Answer) (f : Flagged)
    → Adds 40 f (velocity_check env history a f)
unfolding velocity_check Adds
velocity_check-Adds env history (rows n) f = with_flag-Adds (ltb 5 n) 40 (codes "VELOCITY_BURST") f
velocity_check-Adds env history failed f = (omega arith, omega arith)
velocity_check-Adds env history raised f =
    with_flag-Adds (ltb 5 (count_recent env history)) 40 (codes "VELOCITY_BURST_FALLBACK") f

if-Adds :
    (c : Bool) (points : ℕ) (f g : Flagged) → Adds points f g → Adds points f (if c then g else f)
unfolding Adds
if-Adds true points f g h = h
if-Adds false points f g h = (omega arith, omega arith)

-- The first flag, of a large amount.
amount_flag :
    (c : Bool)
    → ((with_flag c 30 (codes "HIGH_VALUE_TX") (0, [])).0 ≤ 30)
      × ((c ≡ true) → 30 ≤ (with_flag c 30 (codes "HIGH_VALUE_TX") (0, [])).0)
amount_flag true = (omega arith, λ e. omega arith)
amount_flag false = (omega arith, λ e. ground arith)

sum_bounds : {a b c : ℕ} → b ≤ a + 40 → c ≤ b + 15 → a ≤ 30 → c ≤ 85
sum_bounds h k l = omega arith

at_least : {a b c : ℕ} → 30 ≤ a → a ≤ b → b ≤ c → 30 ≤ c
at_least h k l = omega arith

screen_bounds :
    (env : RiskEnv) (u : RiskUser) (p : Payload) (history : List Past)
    → ((screen env u p history).risk_score ≤ 85)
      × ((ltb_ℤ (pos 1000000) p.amount ≡ true) → 30 ≤ (screen env u p history).risk_score)
unfolding screen flagged Adds
screen_bounds env u p history =
    let asks = env.has_database && is_given (some u.id) in
    let high = with_flag (ltb_ℤ (pos 1000000) p.amount) 30 (codes "HIGH_VALUE_TX") (0, []) in
    let checked = velocity_check env history env.recent high in
    let fast = if asks then checked else high in
    let first = amount_flag (ltb_ℤ (pos 1000000) p.amount) in
    let second = if-Adds asks 40 high checked (velocity_check-Adds env history env.recent high) in
    let third =
      with_flag-Adds (asks && is_given p.target_wallet_id && no_rows env.prior) 15
        (codes "NEW_BENEFICIARY") fast in
    (sum_bounds second.1 third.1 first.0, λ e. at_least (first.1 e) second.0 third.0)

score_bounds :
    (risk fused : ℕ)
    → risk ≤ 85
    → fused ≤ 100
    → (final_score risk fused ≤ 100) × (risk ≤ final_score risk fused)
score_bounds risk fused h k = (ground arith, ground arith)

waits : {hold risk score : ℕ} → hold ≤ 30 → 30 ≤ risk → risk ≤ score → score < hold → ⊥
waits h k l m = omega arith

fused_bound : (heuristic ml : ℕ) → fused_score heuristic ml ≤ 100
fused_bound heuristic ml = ground arith

-- Where the score that holds for review is at most 30, a payment of more than 10000 is never
-- allowed, only challenged or blocked, whatever else is known of it; and its score is at most 100.
pub large_amount_waits :
    (env : RiskEnv) (config : RuleConfig) (ml : ℕ) (u : RiskUser) (p : Payload)
    (history : List Past)
    → config.hold_for_review ≤ 30
    → ltb_ℤ (pos 1000000) p.amount ≡ true
    → ((evaluate env config ml u p history).score ≤ 100)
      × ((evaluate env config ml u p history).decision ≢ allow)
unfolding evaluate
large_amount_waits env config ml u p history small large =
    let risk = (screen env u p history).risk_score in
    let results = all_results env config ml u p history (screen env u p history).passed in
    let fused = fused_score (heuristic_score config results) ml in
    let bounds = screen_bounds env u p history in
    let score =
      score_bounds risk fused bounds.0 (fused_bound (heuristic_score config results) ml) in
    let enough = bounds.1 large in
    (
      score.0,
      λ e.
          let calm =
            (subst (λ d. IsJustified env config ml u p history d) e
              (evaluate-IsJustified env config ml u p history)).1 in
          waits small enough score.1 calm.1,
    )
