-- ===== src/Policy/Tests.antt =====
-- Runs of the policy engine over the memory store, and the theorems at single inputs.
use orbi_insitutional_core_v.Prelude.{ℕ, ◌≡◌, refl, false, List, [], ◌∷◌, foldl, arith}
use orbi_insitutional_core_v.Prelude.Int.{pos, ◌+ℤ◌}
use orbi_insitutional_core_v.Prelude.Text.{Text, codes, text_eq}
use orbi_insitutional_core_v.Prelude.Dict.{lookup, insert}
use orbi_insitutional_core_v.Cache.{Memory, memory_cache, get, set}
use orbi_insitutional_core_v.Policy.{
  PolicyEnv, daily_key, velocity_key, frozen_key, daily_total, tx_count, is_frozen,
  evaluate_transaction, commit_metrics, freeze_account,
}
use orbi_insitutional_core_v.Policy.Daily.{Payment, is_allowed, serve, IsWithin, served-IsWithin}
use orbi_insitutional_core_v.Policy.Freeze.{serve_of, frozen_account_blocked}

abbrev empty_memory : Memory
empty_memory = record {
  now = 0;
  memory_store = [];
  locks = [];
  store_timers = [];
  lock_timers = [];
}

abbrev env : PolicyEnv
env = record {
  limits = record {
    max_per_transaction = pos 1000;
    max_daily_total = pos 1500;
    velocity_limit = pos 1;
    freeze_duration = 0;
  };
  ledger = record {
    tx_limit = pos 1000000;
    daily_limit = pos 5000000;
    velocity_limit = pos 50;
    freeze_duration = 604800;
    daily_ttl = 86400;
    velocity_ttl = 3600;
  };
  today = codes "2026-01-01";
  hour = codes "9";
  convert_to_usd = λ amount currency. amount;
}

abbrev user : Text
user = codes "u1"

abbrev pay : ℕ → Payment
pay n = record { amount = pos n; currency = codes "USD" }

abbrev payments : List Payment
payments = pay 600 ∷ pay 1001 ∷ pay 700 ∷ pay 300 ∷ []

-- A limit of one transaction lets two through.
two_under_a_limit_of_one :
    tx_count memory_cache env user (foldl (serve memory_cache env user) empty_memory payments)
    ≡ pos 2
unfolding tx_count daily_total is_frozen evaluate_transaction commit_metrics get set lookup insert
    text_eq daily_key velocity_key frozen_key ◌+ℤ◌
two_under_a_limit_of_one = refl

served-IsWithin_example :
    IsWithin memory_cache env user (foldl (serve memory_cache env user) empty_memory payments)
unfolding tx_count daily_total get lookup ◌+ℤ◌
served-IsWithin_example =
    served-IsWithin memory_cache env user payments empty_memory (omega arith, omega arith)

-- The next day.
abbrev next_day : PolicyEnv
next_day = record env { today = codes "tomorrow"; hour = codes "01" }

frozen_account_blocked_example :
    let after =
      foldl
        (serve_of memory_cache user)
        (freeze_account memory_cache env user empty_memory)
        ((env, user, pay 5) ∷ (next_day, codes "u2", pay 600) ∷ []) in
    is_allowed (evaluate_transaction memory_cache next_day user (pos 1) (codes "USD") after) ≡ false
frozen_account_blocked_example =
    frozen_account_blocked memory_cache user env next_day
      ((env, user, pay 5) ∷ (next_day, codes "u2", pay 600) ∷ []) (pay 1) empty_memory
