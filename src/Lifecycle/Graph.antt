-- ===== src/Lifecycle/Graph.antt =====
-- Which sequences of `transition` calls the table allows.
use orbi_insitutional_core_v.Prelude.{
  ◌≡◌, Bool-cases, ◌≢◌, ◌⊎◌, inl, inr, true, List, [], ◌∷◌, ◌++◌, arith,
}
use orbi_insitutional_core_v.Lifecycle.{
  Status, same, same→eq, StatusEvent, moved, transition, is_valid_transition,
}

-- `transition` accepts the move, whatever was emitted before.
abbrev pub Accepts : Status → Status → Type 0
Accepts s t = (emitted : List StatusEvent) × (transition s t [] ≡ moved emitted)

-- The log that `transition` calls leave. Each call gets its current status from its caller, which is any.
pub data Logged : List StatusEvent → Type 0 where
  empty : Logged []
  called :
      (t u : Status) {events emitted : List StatusEvent}
      → Logged events
      → transition t u events ≡ moved emitted
      → Logged emitted

-- Every event is a move of the table, and none is a no-op.
abbrev pub AreMoves : List StatusEvent → Type 0
AreMoves [] = Unit
AreMoves (e ∷ es) =
    ((e.old_state ≢ e.new_state) × (is_valid_transition e.old_state e.new_state ≡ true))
    × AreMoves es

AreMoves-append :
    (es : List StatusEvent) (t u : Status)
    → AreMoves es
    → t ≢ u
    → is_valid_transition t u ≡ true
    → AreMoves (es ++ record { old_state = t; new_state = u } ∷ [])
AreMoves-append [] t u h ne v = ((ne, v), tt)
AreMoves-append (e ∷ es) t u h ne v = (h.0, AreMoves-append es t u h.1 ne v)

-- An accepted call either changes nothing or moves along the table and emits one event.
transition-moved :
    (t u : Status) (events : List StatusEvent) {emitted : List StatusEvent}
    → transition t u events ≡ moved emitted
    → ((t ≡ u) × (emitted ≡ events))
      ⊎ ((t ≢ u)
          × (is_valid_transition t u ≡ true)
          × (emitted ≡ events ++ record { old_state = t; new_state = u } ∷ []))
unfolding transition
transition-moved t u events h = elim (Bool-cases (same t u)) [
  | inl e ↦ inl (same→eq t u e, ground arith)
  | inr e ↦ elim (Bool-cases (is_valid_transition t u)) [
    | inl v ↦ inr (λ p. ground arith, v, ground arith)
    | inr v ↦ ground arith
  ]
]

called-AreMoves :
    (t u : Status) (events : List StatusEvent) {emitted : List StatusEvent}
    → AreMoves events
    → transition t u events ≡ moved emitted
    → AreMoves emitted
called-AreMoves t u events h e = elim (transition-moved t u events e) [
  | inl (same_status, kept) ↦ rw kept h
  | inr (ne, v, added) ↦ rw added (AreMoves-append events t u h ne v)
]

-- In the log that any sequence of accepted `transition` calls leaves, each call with any current
-- status that its caller gives, every event is a move of the table and none is a no-op.
pub Logged-AreMoves : {events : List StatusEvent} → Logged events → AreMoves events
Logged-AreMoves empty = tt
Logged-AreMoves (called t u {events} l e) = called-AreMoves t u events (Logged-AreMoves l) e
