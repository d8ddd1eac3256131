-- ===== src/Risk/Justified.antt =====
-- The decision of a report, beside the facts that it stands for.
use orbi_insitutional_core_v.Prelude.{◌↔◌, ℕ, ◌≤◌, ◌<◌, List}
use orbi_insitutional_core_v.Prelude.Int.{pos, ◌≤ℤ◌}
use orbi_insitutional_core_v.Risk.{Past, RiskUser, Payload, RiskEnv, screen}
use orbi_insitutional_core_v.Risk.Rules.{Decision, allow, challenge, block, RuleConfig, evaluate}
use orbi_insitutional_core_v.Risk.Decided.{Judged, SafeAt, CalmAt, evaluate-Judged}
use orbi_insitutional_core_v.Risk.Facts.{
  IsActive, IsFromElsewhere, IsWithinDay, IsUnstructured, IsNominalCorridor, IsUsual, IsActive-iff,
  elsewhere_iff, IsWithinDay-iff, IsUnstructured-iff, corridor_iff, IsUsual-iff,
}

Judged-iff :
    {safe calm safe' calm' : Type 0} (d : Decision)
    → safe ↔ safe'
    → calm ↔ calm'
    → Judged safe calm d
    → Judged safe' calm' d
Judged-iff block f g h = λ s. h (f.1 s)
Judged-iff challenge f g h = (f.0 h.0, λ c. h.1 (g.1 c))
Judged-iff allow f g h = (f.0 h.0, g.0 h.1)

module _ (env : RiskEnv) (config : RuleConfig) (ml : ℕ) (u : RiskUser) (p : Payload)
    (history : List Past) where
  abbrev risk : ℕ
  risk = (screen env u p history).risk_score

  abbrev score : ℕ
  score = (evaluate env config ml u p history).score

  -- The screening and every critical rule are passed, and the score is below the block.
  abbrev IsSafe : Type 0
  IsSafe =
      (risk < 80)
      × IsActive u
      × IsFromElsewhere u
      × IsWithinDay env p history config.max_daily_total
      × (ml ≤ 9500)
      × (score < config.auto_block)

  -- And so are the screening without a hold, and every rule of high severity.
  abbrev IsCalm : Type 0
  IsCalm =
      (risk < 40)
      × (score < config.hold_for_review)
      × IsUnstructured env history
      × IsNominalCorridor p
      × IsUsual p history
      × (p.amount ≤ℤ pos 100000000)
      × (ml < 9000)

  abbrev pub IsJustified : Decision → Type 0
  IsJustified d = Judged IsSafe IsCalm d

  safe-facts : SafeAt env config ml u p history risk score ↔ IsSafe
  safe-facts =
      let a = IsActive-iff u in
      let e = elsewhere_iff u in
      let w = IsWithinDay-iff env p history config.max_daily_total in
      (
        λ s. (s.0, a.0 s.1, e.0 s.2, w.0 s.3, s.4, s.5),
        λ s. (s.0, a.1 s.1, e.1 s.2, w.1 s.3, s.4, s.5),
      )

  calm-facts : CalmAt env config ml u p history risk score ↔ IsCalm
  calm-facts =
      let a = IsUnstructured-iff env history in
      let c = corridor_iff p in
      let u = IsUsual-iff p history in
      (
        λ s. (s.0, s.1, a.0 s.2, c.0 s.3, u.0 s.4, s.5, s.6),
        λ s. (s.0, s.1, a.1 s.2, c.1 s.3, u.1 s.4, s.5, s.6),
      )

  -- A report blocks exactly what is not safe, challenges exactly what is safe and not calm, and
  -- allows the rest. Safe is a risk of the screening below 80, a user whose status is active and
  -- whose nationality is not the blocked region, completed payments of today that with this one
  -- are within the limit, a model score of at most 0.95, and a score below the block; calm is also
  -- a risk below 40, a score below the hold, fewer than three payments between 900 and 1000 in the
  -- last four hours, a destination other than KY, VG, PA, KP and IR, fewer than ten payments in
  -- the history or an amount of at most twelve times their mean, an amount of at most a million,
  -- and a model score below 0.9.
  pub evaluate-IsJustified : IsJustified (evaluate env config ml u p history).decision
  evaluate-IsJustified =
      Judged-iff (evaluate env config ml u p history).decision safe-facts calm-facts
        (evaluate-Judged env config ml u p history)
