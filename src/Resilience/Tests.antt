-- ===== src/Resilience/Tests.antt =====
-- A service that fails twice, at a threshold of two.
use orbi_insitutional_core_v.Prelude.{[], arith}
use orbi_insitutional_core_v.Prelude.Text.{codes}
use orbi_insitutional_core_v.Resilience.{
  Engine, BreakerConfig, admit, on_failure, start, admitted, faulted,
}
use orbi_insitutional_core_v.Resilience.Matched.{AreMatched, Reach-AreMatched}

abbrev cfg : BreakerConfig
cfg = record { breaker_cooldown = 60000; breaker_threshold = 2 }

abbrev fresh : Engine
fresh = record { circuits = []; healing_pool = [] }

abbrev failed_once : Engine
failed_once = on_failure cfg 5 (codes "bank") fresh

abbrev failed_twice : Engine
failed_twice = on_failure cfg 9 (codes "bank") failed_once

Reach-AreMatched_example : AreMatched cfg (admit cfg 70000 (codes "bank") failed_twice).1
Reach-AreMatched_example =
    Reach-AreMatched cfg (admit cfg 70000 (codes "bank") failed_twice).1 (omega arith) (
      admitted 70000 (codes "bank") failed_twice
        (faulted 9 (codes "bank") failed_once (faulted 5 (codes "bank") fresh start)))
