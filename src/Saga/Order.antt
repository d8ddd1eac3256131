-- ===== src/Saga/Order.antt =====
-- The loop of `compensate` counts an index down; it visits the executed steps last first.
use mathlib.Core.List.{append_assoc, reverse-cons}
use orbi_insitutional_core_v.Prelude.{
  ℕ, zero, suc, ◌≡◌, refl, sym, ◌∙◌, ap, Option, none, some, List, [], ◌∷◌, ◌++◌, reverse, length,
  get_elem?, arith,
}
use orbi_insitutional_core_v.Saga.{
  SagaStep, Saga, compensate_step, compensate_at, compensate_from, compensate,
}

abbrev found {ℓ} : {A : Type ℓ} → Option A → List A
found none = []
found (some a) = a ∷ []

-- The elements below an index, from the top down.
visited {ℓ} : {A : Type ℓ} → ℕ → List A → List A
visited zero xs = []
visited (suc i) xs = found (get_elem? xs i) ++ visited i xs

visited-cons {ℓ} :
    {A : Type ℓ} (i : ℕ) (x : A) (xs : List A) → visited (suc i) (x ∷ xs) ≡ visited i xs ++ x ∷ []
unfolding visited
visited-cons zero x xs = refl
visited-cons (suc i) x xs =
    rw (visited-cons i x xs) (sym (append_assoc (found (get_elem? xs i)) (visited i xs) (x ∷ [])))

visited-length {ℓ} : {A : Type ℓ} (xs : List A) → visited (length xs) xs ≡ reverse xs
unfolding visited
visited-length [] = refl
visited-length (x ∷ xs) =
    visited-cons (length xs) x xs ∙ (rw (visited-length xs) (sym (reverse-cons x xs)))

module _ {C : Type 0} where
  -- Compensate these steps in this order, whatever becomes of each.
  abbrev pub undo : List (SagaStep C) → Saga C → Saga C
  undo [] s = s
  undo (step ∷ rest) s = undo rest (compensate_step step s)

  executed_steps-compensate_at :
      (o : Option (SagaStep C)) (s : Saga C) → (compensate_at o s).executed_steps ≡ s.executed_steps
  unfolding compensate_at compensate_step
  executed_steps-compensate_at o s = ground arith

  undo-found :
      (o : Option (SagaStep C)) (rest : List (SagaStep C)) (s : Saga C)
      → undo (found o ++ rest) s ≡ undo rest (compensate_at o s)
  unfolding compensate_at
  undo-found none rest s = refl
  undo-found (some step) rest s = refl

  compensate_from-visited :
      (i : ℕ) (s : Saga C) → compensate_from i s ≡ undo (visited i s.executed_steps) s
  unfolding compensate_from visited
  compensate_from-visited zero s = refl
  compensate_from-visited (suc i) s =
      let o = get_elem? s.executed_steps i in
      compensate_from-visited i (compensate_at o s)
      ∙ ap (λ l. undo (visited i l) (compensate_at o s)) (executed_steps-compensate_at o s)
      ∙ sym (undo-found o (visited i s.executed_steps) s)

  -- `compensate` attempts the compensation of every executed step, in reverse order of execution,
  -- also after one that rejects.
  pub compensate-undo : (s : Saga C) → compensate s ≡ undo (reverse s.executed_steps) s
  unfolding compensate
  compensate-undo s =
      compensate_from-visited _ s ∙ ap (λ l. undo l s) (visited-length s.executed_steps)
