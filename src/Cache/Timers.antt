-- ===== src/Cache/Timers.antt =====
-- The timers of `setTimeout`: each deletes a key at a time.
use orbi_insitutional_core_v.Prelude.{
  ℕ, ◌≤◌, ◌<◌, ◌≡◌, refl, Bool, true, false, ◌&&◌, ◌||◌, leb, if◌then◌else◌, none, List, [], ◌∷◌,
  ◌++◌, arith,
}
use orbi_insitutional_core_v.Prelude.Text.{Text, text_eq}
use orbi_insitutional_core_v.Prelude.Dict.{Dict, lookup, erase, lookup-erase, text_eq_refl}

pub record Timer : Type 0 where
  pub key : Text
  pub due : ℕ

-- The timers that are due fire, and the others stay.
unfoldable pub erase_due : {V : Type 0} → ℕ → List Timer → Dict V → Dict V
erase_due t [] m = m
erase_due t (x ∷ xs) m =
    let rest = erase_due t xs m in if leb x.due t then erase x.key rest else rest

unfoldable pub pending : ℕ → List Timer → List Timer
pending t [] = []
pending t (x ∷ xs) = let rest = pending t xs in if leb x.due t then rest else x ∷ rest

-- Whether a timer of the key has fired by the time `t`.
unfoldable pub is_due : ℕ → Text → List Timer → Bool
is_due t k [] = false
is_due t k (x ∷ xs) = (leb x.due t && text_eq x.key k) || is_due t k xs

pub lookup-erase_due :
    {V : Type 0} (t : ℕ) (k : Text) (xs : List Timer) (m : Dict V)
    → lookup k (erase_due t xs m) ≡ (if is_due t k xs then none else lookup k m)
unfolding erase_due is_due
lookup-erase_due t k [] m = refl
lookup-erase_due t k (x ∷ xs) m =
    ground (arith, lookup-erase_due t k xs m, lookup-erase x.key k (erase_due t xs m))

pub is_due-append :
    (t : ℕ) (k : Text) (xs ys : List Timer)
    → is_due t k (xs ++ ys) ≡ (is_due t k xs || is_due t k ys)
unfolding is_due
is_due-append t k [] ys = refl
is_due-append t k (x ∷ xs) ys = ground (arith, is_due-append t k xs ys)

-- A timer that is not due yet is still there.
pub is_due-pending :
    (t u due : ℕ) (k : Text) (xs : List Timer)
    → t < due
    → due ≤ u
    → is_due u k (pending t (xs ++ record { key = k; due = due } ∷ [])) ≡ true
unfolding is_due pending
is_due-pending t u due k [] h h' = ground (arith, text_eq_refl k)
is_due-pending t u due k (x ∷ xs) h h' = ground (arith, is_due-pending t u due k xs h h')
