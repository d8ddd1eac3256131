-- ===== src/Locking/Table.antt =====
-- What the loops of the lock manager do to the table, key by key.
use orbi_insitutional_core_v.Prelude.{
  ◌⊎◌, ℕ, ◌≤◌, ◌≡◌, refl, ◌&&◌, ◌||◌, if◌then◌else◌, ltb, none, some, List, [], ◌∷◌, arith,
  Option-cases, Bool-cases, inl, inr,
}
use orbi_insitutional_core_v.Prelude.Text.{Text, text_eq}
use orbi_insitutional_core_v.Prelude.Dict.{lookup, erase, lookup-erase, text_eq_iff}
use orbi_insitutional_core_v.Locking.{
  Locks, lock_key, contains, filled, unique, place_in, sort, sorted_ids, is_filled, clean_up,
  release_each,
}

pub contains-filled :
    (k : Text) (xs : List Text) → contains k (filled xs) ≡ (is_filled k && contains k xs)
unfolding contains filled
contains-filled k [] = ground arith
contains-filled k (x ∷ xs) = ground (arith, text_eq_iff x k, contains-filled k xs)

pub contains-unique : (k : Text) (xs : List Text) → contains k (unique xs) ≡ contains k xs
unfolding contains unique
contains-unique k [] = refl
contains-unique k (x ∷ xs) = ground (arith, text_eq_iff x k, contains-unique k xs)

contains-place_in :
    (k x : Text) (xs : List Text) → contains k (place_in x xs) ≡ (text_eq x k || contains k xs)
unfolding contains place_in
contains-place_in k x [] = refl
contains-place_in k x (y ∷ ys) = ground (arith, contains-place_in k x ys)

contains-sort : (k : Text) (xs : List Text) → contains k (sort xs) ≡ contains k xs
unfolding contains sort
contains-sort k [] = refl
contains-sort k (x ∷ xs) = ground (arith, contains-place_in k x (sort xs), contains-sort k xs)

pub contains-sorted_ids :
    (k : Text) (ids : List Text) → contains k (sorted_ids ids) ≡ (is_filled k && contains k ids)
unfolding sorted_ids
contains-sorted_ids k ids = ground (
  arith,
  contains-sort k (unique (filled ids)),
  contains-unique k (filled ids),
  contains-filled k ids,
)

-- Cleaning up leaves a lock as it was or takes it away, and takes away none that has not expired.
pub lookup-clean_up :
    (now : ℕ) (k j : Text) (t : Locks)
    → (lookup j (clean_up now k t) ≡ lookup j t) ⊎ (lookup j (clean_up now k t) ≡ none)
unfolding clean_up
lookup-clean_up now k j t = elim (Option-cases (lookup k t)) [
  | inl e ↦ rw (clean_up, e) (inl refl)
  | inr (expires_at, e) ↦ elim (Bool-cases (ltb expires_at now)) [
    | inr e' ↦ rw (clean_up, e, e') (inl refl)
    | inl e' ↦ rw (clean_up, e, e', lookup-erase k j t) (ground arith)
  ]
]

pub clean_up-live :
    (now : ℕ) (k j : Text) (t : Locks) (e : ℕ)
    → lookup j t ≡ some e
    → now ≤ e
    → lookup j (clean_up now k t) ≡ some e
unfolding clean_up
clean_up-live now k j t e h live = elim (Option-cases (lookup k t)) [
  | inl e0 ↦ rw (clean_up, e0) h
  | inr (expires_at, e0) ↦ elim (Bool-cases (ltb expires_at now)) [
    | inr e1 ↦ rw (clean_up, e0, e1) h
    | inl e1 ↦ rw (clean_up, e0, e1) (ground (arith, text_eq_iff k j, lookup-erase k j t))
  ]
]

pub lock_key_eq : (a b : Text) → text_eq (lock_key a) (lock_key b) ≡ text_eq a b
unfolding text_eq
lock_key_eq a b = refl

pub lookup-release_each :
    (j : Text) (ids : List Text) (t : Locks)
    → lookup (lock_key j) (release_each ids t)
      ≡ (if contains j ids then none else lookup (lock_key j) t)
unfolding contains release_each
lookup-release_each j [] t = refl
lookup-release_each j (id ∷ ids) t = ground (
  arith,
  lookup-release_each j ids (erase (lock_key id) t),
  lookup-erase (lock_key id) (lock_key j) t,
  lock_key_eq id j,
)
