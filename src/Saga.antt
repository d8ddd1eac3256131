-- ===== src/Saga.antt =====
-- `SagaOrchestrator` of backend/ledger/stateMachine.ts. A step's `execute` and `compensate` are
-- callbacks that change the shared context `C` and may reject; what they wrote before they rejected
-- stays written. `emit('alert:critical', …)` appends to a list.
pub mod Order
pub mod Rollback
mod Tests
use Prim.Native.String.{String}
use orbi_insitutional_core_v.Prelude.{
  ℕ, zero, suc, Bool, true, false, Option, none, some, List, [], ◌∷◌, ◌++◌, length, get_elem?,
}

-- How a callback's promise ends, and the context that it leaves.
pub data Attempt (C : Type 0) : Type 0 where
  resolved rejected : C → Attempt C

pub record SagaStep (C : Type 0) : Type 0 where
  pub name : String
  pub execute : C → Attempt C
  pub compensate : C → Attempt C

-- The payload of the alert 'SAGA_COMPENSATION_FAILED'.
pub record Alert : Type 0 where
  pub saga_id : String
  pub step : String

pub record Saga (C : Type 0) : Type 0 where
  pub steps : List (SagaStep C)
  pub executed_steps : List (SagaStep C)
  pub context : C
  pub saga_id : String
  pub alerts : List Alert

module _ {C : Type 0} where
  unfoldable pub new_saga : C → String → Saga C
  new_saga context saga_id = record {
    steps = [];
    executed_steps = [];
    context = context;
    saga_id = saga_id;
    alerts = [];
  }

  unfoldable pub add_step : SagaStep C → Saga C → Saga C
  add_step step s = record s { steps = s.steps ++ step ∷ [] }

  -- One round of the loop in `compensate`: a rejected compensation raises an alert and the loop goes
  -- on.
  pub compensate_step : SagaStep C → Saga C → Saga C
  compensate_step step s = elim (step.compensate s.context) [
    | resolved c ↦ record s { context = c }
    | rejected c ↦ record s {
      context = c;
      alerts = s.alerts ++ record { saga_id = s.saga_id; step = step.name } ∷ [];
    }
  ]

  -- The round at an index. The loop stays within the list, so `none` never comes up.
  pub compensate_at : Option (SagaStep C) → Saga C → Saga C
  compensate_at none s = s
  compensate_at (some step) s = compensate_step step s

  -- `for (let i = n - 1; i >= 0; i--)`
  pub compensate_from : ℕ → Saga C → Saga C
  compensate_from zero s = s
  compensate_from (suc i) s = compensate_from i (compensate_at (get_elem? s.executed_steps i) s)

  unfoldable pub compensate : Saga C → Saga C
  unfolding compensate_from compensate_at compensate_step
  compensate s = compensate_from (length s.executed_steps) s

  -- `for (const step of this.steps)`
  pub execute_steps : List (SagaStep C) → Saga C → Saga C × Bool
  execute_steps [] s = (s, true)
  execute_steps (step ∷ rest) s = elim (step.execute s.context) [
    | resolved c ↦
        execute_steps rest
          (record s { context = c; executed_steps = s.executed_steps ++ step ∷ [] })
    | rejected c ↦ (compensate (record s { context = c }), false)
  ]

  unfoldable pub execute : Saga C → Saga C × Bool
  unfolding execute_steps compensate
  execute s = execute_steps s.steps s
