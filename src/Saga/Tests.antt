-- ===== src/Saga/Tests.antt =====
-- Sagas over a counter, and the theorems at them.
use orbi_insitutional_core_v.Prelude.{ℕ, suc, ◌-◌, ◌≡◌, refl, List, [], ◌∷◌, arith}
use orbi_insitutional_core_v.Saga.{
  resolved, rejected, SagaStep, Saga, new_saga, add_step, compensate, execute,
}
use orbi_insitutional_core_v.Saga.Order.{undo, compensate-undo}
use orbi_insitutional_core_v.Saga.Rollback.{IsReversible, rollback_restores}

-- Adds one; its compensation takes one away.
abbrev credit : SagaStep ℕ
credit = record {
  name = "credit";
  execute = λ n. resolved (suc n);
  compensate = λ n. resolved (n - 1);
}

abbrev refuse : SagaStep ℕ
refuse = record { name = "refuse"; execute = λ n. rejected n; compensate = λ n. rejected n }

credit-IsReversible : IsReversible credit
credit-IsReversible = record { undone = λ c c' h. ground arith; atomic = λ c c' h. cc }

refuse-IsReversible : IsReversible refuse
refuse-IsReversible = record { undone = λ c c' h. cc; atomic = λ c c' h. ground arith }

abbrev saga_of : List (SagaStep ℕ) → Saga ℕ
saga_of steps = record {
  steps = steps;
  executed_steps = [];
  context = 5;
  saga_id = "s1";
  alerts = [];
}

built : add_step refuse (add_step credit (new_saga 5 "s1")) ≡ saga_of (credit ∷ refuse ∷ [])
unfolding add_step new_saga
built = refl

rollback_restores_example :
    let s = saga_of (credit ∷ credit ∷ refuse ∷ []) in
    ((execute s).0.context ≡ 5) × ((execute s).0.alerts ≡ [])
unfolding execute
rollback_restores_example =
    rollback_restores (saga_of (credit ∷ credit ∷ refuse ∷ [])) refl
      (credit-IsReversible, (credit-IsReversible, (refuse-IsReversible, tt))) refl

abbrev stuck : Saga ℕ
stuck = record (saga_of []) { executed_steps = credit ∷ refuse ∷ [] }

compensate-undo_example : compensate stuck ≡ undo (refuse ∷ credit ∷ []) stuck
compensate-undo_example = compensate-undo stuck
