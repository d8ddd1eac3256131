-- ===== src/Risk/Tests.antt =====
-- A payment of 20000 by an active user, and the theorems at it.
use orbi_insitutional_core_v.Prelude.{◌≢◌, ◌≤◌, refl, arith, true, none, some, [], ℕ}
use orbi_insitutional_core_v.Prelude.Int.{pos}
use orbi_insitutional_core_v.Prelude.Text.{codes}
use orbi_insitutional_core_v.Risk.{RiskUser, Payload, RiskEnv, rows}
use orbi_insitutional_core_v.Risk.Rules.{
  RiskSeverity, low, medium, high, critical, RuleConfig, allow, evaluate,
}
use orbi_insitutional_core_v.Risk.Justified.{IsJustified, evaluate-IsJustified}
use orbi_insitutional_core_v.Risk.Amounts.{large_amount_waits}

abbrev weight : RiskSeverity → ℕ
weight critical = 100
weight high = 40
weight medium = 20
weight low = 5

-- The default configuration, with 50000 a day.
abbrev config : RuleConfig
config = record {
  score_weights = weight;
  max_daily_total = pos 5000000;
  auto_block = 85;
  hold_for_review = 30;
}

abbrev env : RiskEnv
env = record {
  now = 5000;
  today = codes "today";
  time_of = λ s. none;
  has_database = true;
  recent = rows 1;
  prior = rows 1;
}

abbrev user : RiskUser
user = record {
  id = codes "u";
  metadata_status = some (codes "active");
  account_status = none;
  nationality = none;
}

abbrev payment : Payload
payment = record {
  amount = pos 2000000;
  target_wallet_id = some (codes "w");
  destination_country = none;
}

evaluate-IsJustified_example :
    IsJustified env config 1000 user payment [] (evaluate env config 1000 user payment []).decision
evaluate-IsJustified_example = evaluate-IsJustified env config 1000 user payment []

-- No rule fails, and yet the payment is challenged.
large_amount_waits_example :
    ((evaluate env config 1000 user payment []).score ≤ 100)
    × ((evaluate env config 1000 user payment []).decision ≢ allow)
large_amount_waits_example = large_amount_waits env config 1000 user payment [] (omega arith) refl
