-- ===== src/Resilience.antt =====
-- `ResilienceEngineService` of backend/infrastructure/ResilienceEngine.ts: the circuit of a service and the
-- pool of those to heal. A set is a dictionary of units. The endpoint, which is always the same, and the
-- attempts to recover, which nothing reads, are left out.
pub mod Matched
mod Tests
use orbi_insitutional_core_v.Prelude.{
  ℕ, ◌+◌, Bool, true, false, Option, none, some, List, [], ◌∷◌, if◌then◌else◌, ltb, leb,
}
use orbi_insitutional_core_v.Prelude.Text.{Text}
use orbi_insitutional_core_v.Prelude.Dict.{Dict, lookup, insert, erase}

-- The healing state is never entered.
pub data BreakerState : Type 0 where
  closed opened half_open healing : BreakerState

pub record ServiceCircuit : Type 0 where
  pub state : BreakerState
  pub failures : ℕ
  pub last_failure_time : ℕ

pub record Engine : Type 0 where
  pub circuits : Dict ServiceCircuit
  pub healing_pool : Dict (Unit {0})

pub record BreakerConfig : Type 0 where
  pub breaker_cooldown : ℕ
  pub breaker_threshold : ℕ

abbrev pub new_circuit : ServiceCircuit
new_circuit = record { state = closed; failures = 0; last_failure_time = 0 }

abbrev pub or_new : Option ServiceCircuit → ServiceCircuit
or_new none = new_circuit
or_new (some c) = c

-- `getCircuit`, with the circuit that it adds.
unfoldable pub get_circuit : Text → Engine → ServiceCircuit × Engine
get_circuit id s =
    let c = or_new (lookup id s.circuits) in (c, record s { circuits = insert id c s.circuits })

abbrev pub has_cooled : BreakerConfig → ℕ → ServiceCircuit → Bool
has_cooled cfg now c = ltb (c.last_failure_time + cfg.breaker_cooldown) now

abbrev pub probing : ServiceCircuit → ServiceCircuit
probing c = record c { state = half_open }

-- Whether the circuit lets a call through.
unfoldable pub admit_through :
    BreakerConfig → ℕ → BreakerState → ServiceCircuit → Bool × ServiceCircuit
admit_through cfg now opened c = if has_cooled cfg now c then (true, probing c) else (false, c)
admit_through cfg now _ c = (true, c)

-- The start of `execute`, before the action.
unfoldable pub admit : BreakerConfig → ℕ → Text → Engine → Bool × Engine
unfolding get_circuit admit_through
admit cfg now id s =
    let (c, s') = get_circuit id s in
    let (admitted, c') = admit_through cfg now c.state c in
    (admitted, record s' { circuits = insert id c' s'.circuits })

abbrev pub restored : ServiceCircuit → ServiceCircuit
restored c = record c { state = closed; failures = 0 }

abbrev pub restore : Text → Option ServiceCircuit → Engine → Engine
restore id none s = s
restore id (some c) s = record {
  circuits = insert id (restored c) s.circuits;
  healing_pool = erase id s.healing_pool;
}

unfoldable pub on_success : Text → Engine → Engine
on_success id s = restore id (lookup id s.circuits) s

abbrev pub failed : ℕ → ServiceCircuit → ServiceCircuit
failed now c = record c { failures = c.failures + 1; last_failure_time = now }

unfoldable pub on_failure : BreakerConfig → ℕ → Text → Engine → Engine
unfolding get_circuit
on_failure cfg now id s =
    let (c, s') = get_circuit id s in
    if leb cfg.breaker_threshold (c.failures + 1)
    then record {
      circuits = insert id (record (failed now c) { state = opened }) s'.circuits;
      healing_pool = insert id tt s'.healing_pool;
    }
    else record s' { circuits = insert id (failed now c) s'.circuits }

-- A service whose health check is answered well is taken for one that succeeded.
abbrev pub heal_one : Bool → Text → Engine → Engine
heal_one true id s = restore id (lookup id s.circuits) s
heal_one false id s = s

-- The loop over the ids of the pool, with the answer of the health check for each.
unfoldable pub heal_each : (Text → Bool) → Dict (Unit {0}) → Engine → Engine
heal_each healthy [] s = s
heal_each healthy ((id, u) ∷ ids) s = heal_each healthy ids (heal_one (healthy id) id s)

unfoldable pub run_global_heal_cycle : (Text → Bool) → Engine → Engine
unfolding heal_each
run_global_heal_cycle healthy s = heal_each healthy s.healing_pool s

-- What a run of the engine goes through: calls that interleave, and cycles.
pub data Reach (cfg : BreakerConfig) : Engine → Type 0 where
  start : Reach cfg (record { circuits = []; healing_pool = [] })
  admitted : (now : ℕ) (id : Text) (s : Engine) → Reach cfg s → Reach cfg (admit cfg now id s).1
  succeeded : (id : Text) (s : Engine) → Reach cfg s → Reach cfg (on_success id s)
  faulted : (now : ℕ) (id : Text) (s : Engine) → Reach cfg s → Reach cfg (on_failure cfg now id s)
  healed :
      (healthy : Text → Bool) (s : Engine)
      → Reach cfg s
      → Reach cfg (run_global_heal_cycle healthy s)
