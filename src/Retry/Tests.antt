-- ===== src/Retry/Tests.antt =====
-- Runs of the retry policy, and the theorems at single inputs.
use orbi_insitutional_core_v.Prelude.{ℕ, zero, suc, ◌≤◌, ◌+◌, ◌≡◌, refl, some, arith, [], ◌∷◌}
use orbi_insitutional_core_v.Prelude.Text.{codes, text_eq, to_upper, includes}
use orbi_insitutional_core_v.Prelude.Dict.{lookup, insert, erase}
use orbi_insitutional_core_v.Retry.Errors.{raw, normalize_provider_error, to_provider_domain_error}
use orbi_insitutional_core_v.Retry.{
  Config, Call, Policy, Result, ok, thrown, worked, on_retry, on_failover_candidate, slept, opened,
  closed_circuit, get_circuit_key, check_circuit, assert_circuit_allows, record_success,
  after_failure, record_failure, acquire, release, fail, circuit_open_error, run_with_bulkhead,
  record_outcome, try_attempt, max_attempts, base_delay_ms, attempts_from, execute,
}
use orbi_insitutional_core_v.Retry.Breaker.{AreSound, AreSoundIfAny, circuits-AreSound}
use orbi_insitutional_core_v.Retry.Bulkhead.{
  Reach, idle, next, start, finish, IsCounted, Reach-IsCounted,
}
use orbi_insitutional_core_v.Retry.Loop.{calls, calls-execute, IsOutcome, execute-IsOutcome}
use orbi_insitutional_core_v.Retry.Starvation.{Tripped, execute_at, last_time, open_circuit_starves}

-- What a run looks through.
run : Unit {0}
unfolding execute attempts_from try_attempt record_outcome run_with_bulkhead fail record_failure
    after_failure record_success assert_circuit_allows check_circuit max_attempts base_delay_ms
    normalize_provider_error to_provider_domain_error to_upper includes lookup insert erase text_eq
    get_circuit_key circuit_open_error
run = tt

abbrev cfg : Config
cfg = record {
  default_max_attempts = 3;
  default_base_delay_ms = 250;
  circuit_failure_threshold = 5;
  circuit_cooldown_ms = 60000;
  max_concurrent_per_provider = 2;
}

abbrev work : ℕ → Result ℕ
work (suc zero) = thrown (raw (codes "socket timeout") 0)
work n = ok 7

abbrev payout : Call ℕ
payout = record {
  partner = record { id = codes "p1"; name = codes "Pay" };
  operation = codes "PAYOUT";
  now = λ n. n;
  work = work;
  max_attempts = 0;
  base_delay_ms = 0;
}

abbrev fresh : Policy
fresh = record { circuits = []; active = []; effects = [] }

-- The first attempt times out and is retried after 250 ms.
retry_run : execute cfg payout fresh ≡ (
  ok 7,
  record {
    circuits = (codes "p1:PAYOUT", closed_circuit) ∷ [];
    active = [];
    effects = worked 1 ∷ on_retry 1 ∷ on_failover_candidate 1 ∷ slept 250 ∷ worked 2 ∷ [];
  },
)
unfolding run
retry_run = refl

execute-IsOutcome_example : IsOutcome cfg payout (execute cfg payout fresh)
execute-IsOutcome_example = execute-IsOutcome cfg payout fresh

empty-AreSound : AreSound cfg []
unfolding lookup
empty-AreSound k c h = cc

circuits-AreSound_example :
    AreSoundIfAny cfg (assert_circuit_allows cfg 9 (codes "k") [])
    × AreSound cfg (record_success (codes "k") [])
    × AreSound cfg (record_failure cfg 9 (codes "k") [])
circuits-AreSound_example = circuits-AreSound cfg 9 (codes "k") [] (omega arith) empty-AreSound

overlap : Reach cfg (record { active = (codes "p1", 1) ∷ []; running = codes "p1" ∷ [] })
unfolding acquire release lookup insert erase text_eq
overlap =
    next (next (next idle (start (codes "p1") _ refl refl)) (start (codes "p1") _ refl refl))
      (finish (codes "p1") [] _ refl refl)

Reach-IsCounted_example :
    IsCounted cfg (record { active = (codes "p1", 1) ∷ []; running = codes "p1" ∷ [] })
Reach-IsCounted_example = Reach-IsCounted overlap

abbrev tripped : Policy
tripped = record fresh {
  circuits =
      (codes "p1:PAYOUT", record { state = opened; failures = 5; opened_at = some 1000 }) ∷ [];
}

tripped-Tripped : Tripped cfg payout 1000 tripped
unfolding run
tripped-Tripped = (_, refl, record { is_open = refl; since_then = refl; over = omega arith })

-- Two minutes of calls, every 50 seconds, against a cooldown of one minute.
open_circuit_starves_example :
    (calls (execute_at cfg payout (51000 ∷ 101000 ∷ 151000 ∷ []) tripped).effects ≡ calls [])
    × Tripped cfg payout
        (last_time 1000 (51000 ∷ 101000 ∷ 151000 ∷ []))
        (execute_at cfg payout (51000 ∷ 101000 ∷ 151000 ∷ []) tripped)
open_circuit_starves_example =
    open_circuit_starves cfg payout 1000 (51000 ∷ 101000 ∷ 151000 ∷ []) tripped tripped-Tripped
      (omega arith)

calls-execute_example :
    calls (execute cfg payout fresh).1.effects ≤ calls fresh.effects + max_attempts cfg payout
calls-execute_example = calls-execute cfg payout fresh
