-- ===== src/Saga/Rollback.antt =====
-- A saga that fails is undone by its compensations, and one that succeeds has run every step.
use mathlib.Core.Path.{subst}
use mathlib.Core.List.{append_assoc, append-nil, reverse-append}
use orbi_insitutional_core_v.Prelude.{
  ◌≡◌, refl, sym, ◌⊎◌, inl, inr, ◌∙◌, true, false, List, [], ◌∷◌, ◌++◌, reverse, All, arith,
}
use orbi_insitutional_core_v.Saga.{
  Attempt, resolved, rejected, SagaStep, Saga, compensate_step, compensate, execute_steps, execute,
}
use orbi_insitutional_core_v.Saga.Order.{undo, compensate-undo}

module _ {C : Type 0} where
  -- The compensation takes back what the step did, and a step that rejects has done nothing.
  pub record IsReversible (step : SagaStep C) : Type 0 where
    pub undone : (c c' : C) → step.execute c ≡ resolved c' → step.compensate c' ≡ resolved c
    pub atomic : (c c' : C) → step.execute c ≡ rejected c' → c' ≡ c

  -- Compensating these steps leads from the context `c` back to `start`, with no rejection.
  abbrev Back : List (SagaStep C) → C → C → Type 0
  Back [] c start = c ≡ start
  Back (step ∷ rest) c start = (c' : C) × (step.compensate c ≡ resolved c') × Back rest c' start

  compensate_step-resolved :
      (step : SagaStep C) (s : Saga C) (c : C)
      → step.compensate s.context ≡ resolved c
      → compensate_step step s ≡ record s { context = c }
  unfolding compensate_step
  compensate_step-resolved step s c h = ground arith

  undo-Back :
      (steps : List (SagaStep C)) (s : Saga C) (start : C)
      → Back steps s.context start
      → ((undo steps s).context ≡ start) × ((undo steps s).alerts ≡ s.alerts)
  undo-Back [] s start b = (b, refl)
  undo-Back (step ∷ rest) s start b =
      subst (λ t. ((undo rest t).context ≡ start) × ((undo rest t).alerts ≡ s.alerts))
        (sym (compensate_step-resolved step s b.0 b.1))
        (undo-Back rest (record s { context = b.0 }) start b.2)

  Attempt-cases : (a : Attempt C) → ((c : C) × (a ≡ resolved c)) ⊎ ((c : C) × (a ≡ rejected c))
  Attempt-cases (resolved c) = inl (c, refl)
  Attempt-cases (rejected c) = inr (c, refl)

  -- The saga after a step that resolved.
  abbrev record_step : SagaStep C → C → Saga C → Saga C
  record_step step c s = record s { context = c; executed_steps = s.executed_steps ++ step ∷ [] }

  execute_steps-resolved :
      (step : SagaStep C) (rest : List (SagaStep C)) (s : Saga C) (c : C)
      → step.execute s.context ≡ resolved c
      → execute_steps (step ∷ rest) s ≡ execute_steps rest (record_step step c s)
  unfolding execute_steps
  execute_steps-resolved step rest s c h = ground arith

  execute_steps-rejected :
      (step : SagaStep C) (rest : List (SagaStep C)) (s : Saga C) (c : C)
      → step.execute s.context ≡ rejected c
      → execute_steps (step ∷ rest) s ≡ (compensate (record s { context = c }), false)
  unfolding execute_steps
  execute_steps-rejected step rest s c h = ground arith

  Back-record_step :
      (step : SagaStep C) (s : Saga C) (c start : C)
      → IsReversible step
      → step.execute s.context ≡ resolved c
      → Back (reverse s.executed_steps) s.context start
      → Back (reverse (record_step step c s).executed_steps) c start
  Back-record_step step s c start r h b =
      rw (reverse-append s.executed_steps (step ∷ [])) (s.context, r.undone s.context c h, b)

  compensate-Back :
      (s : Saga C) (start : C)
      → Back (reverse s.executed_steps) s.context start
      → ((compensate s).context ≡ start) × ((compensate s).alerts ≡ s.alerts)
  compensate-Back s start b =
      rw (compensate-undo s) (undo-Back (reverse s.executed_steps) s start b)

  execute_steps-Back :
      (steps : List (SagaStep C)) (s : Saga C) (start : C)
      → All IsReversible steps
      → Back (reverse s.executed_steps) s.context start
      → (execute_steps steps s).1 ≡ false
      → ((execute_steps steps s).0.context ≡ start) × ((execute_steps steps s).0.alerts ≡ s.alerts)
  unfolding execute_steps
  execute_steps-Back [] s start r b f = cc
  execute_steps-Back (step ∷ rest) s start r b f = elim (Attempt-cases (step.execute s.context)) [
    | inl (c, h) ↦
        let e = execute_steps-resolved step rest s c h in
        let b' = Back-record_step step s c start r.0 h b in
        rw e (execute_steps-Back rest (record_step step c s) start r.1 b' (rw e at f))
    | inr (c, h) ↦
        rw (execute_steps-rejected step rest s c h)
          (compensate-Back (record s { context = c }) start (rw (r.0.atomic s.context c h) b))
  ]

  -- If every step is reversible, a fresh saga that fails leaves the context as it found it and
  -- raises no alert.
  pub rollback_restores :
      (s : Saga C)
      → s.executed_steps ≡ []
      → All IsReversible s.steps
      → (execute s).1 ≡ false
      → ((execute s).0.context ≡ s.context) × ((execute s).0.alerts ≡ s.alerts)
  unfolding execute
  rollback_restores s e r f = execute_steps-Back s.steps s s.context r (rw e refl) f

  execute_steps_success :
      (steps : List (SagaStep C)) (s : Saga C)
      → (execute_steps steps s).1 ≡ true
      → ((execute_steps steps s).0.executed_steps ≡ s.executed_steps ++ steps)
        × ((execute_steps steps s).0.alerts ≡ s.alerts)
  unfolding execute_steps
  execute_steps_success [] s h = (sym (append-nil s.executed_steps), refl)
  execute_steps_success (step ∷ rest) s h = elim (Attempt-cases (step.execute s.context)) [
    | inl (c, a) ↦
        let e = execute_steps-resolved step rest s c a in
        let ih = execute_steps_success rest (record_step step c s) (rw e at h) in
        rw e (ih.0 ∙ append_assoc s.executed_steps (step ∷ []) rest, ih.1)
    | inr (c, a) ↦ ground (arith, execute_steps-rejected step rest s c a)
  ]
