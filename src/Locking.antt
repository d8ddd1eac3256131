-- ===== src/Locking.antt =====
-- `LockManager` of backend/enterprise/infrastructure/LockManager.ts: locks on several wallets, as rows of
-- the table ent_locks with the time at which each expires.
pub mod Table
pub mod AllOrNone
mod Tests
use orbi_insitutional_core_v.Prelude.{
  ℕ, zero, suc, ◌+◌, ◌*◌, Bool, true, false, not, ◌&&◌, ◌||◌, if◌then◌else◌, leb, ltb, Option, none,
  some, List, [], ◌∷◌, ◌++◌,
}
use orbi_insitutional_core_v.Prelude.Text.{Text, codes, text_eq}
use orbi_insitutional_core_v.Prelude.Dict.{Dict, lookup, insert, erase}

abbrev pub lock_key : Text → Text
lock_key id = codes "lock:wallet:" ++ id

unfoldable pub contains : Text → List Text → Bool
contains k [] = false
contains k (x ∷ xs) = text_eq x k || contains k xs

abbrev pub is_filled : Text → Bool
is_filled [] = false
is_filled (c ∷ s) = true

-- `resourceIds.filter(Boolean)`
unfoldable pub filled : List Text → List Text
filled [] = []
filled (x ∷ xs) = let rest = filled xs in if is_filled x then x ∷ rest else rest

-- `[...new Set(xs)]`, up to order
unfoldable pub unique : List Text → List Text
unique [] = []
unique (x ∷ xs) = let rest = unique xs in if contains x rest then rest else x ∷ rest

-- The order of `sort()`, by code units.
abbrev text_leb : Text → Text → Bool
text_leb [] t = true
text_leb (a ∷ s) [] = false
text_leb (a ∷ s) (b ∷ t) = ltb a b || (leb a b && text_leb s t)

unfoldable pub place_in : Text → List Text → List Text
place_in x [] = x ∷ []
place_in x (y ∷ ys) = let rest = place_in x ys in if text_leb x y then x ∷ y ∷ ys else y ∷ rest

unfoldable pub sort : List Text → List Text
sort [] = []
sort (x ∷ xs) = place_in x (sort xs)

unfoldable pub sorted_ids : List Text → List Text
sorted_ids ids = sort (unique (filled ids))

-- The times at which locks expire.
abbrev pub Locks : Type 0
Locks = Dict ℕ

-- Deletes the lock if it has expired.
unfoldable pub clean_up : ℕ → Text → Locks → Locks
clean_up now k t = elim (lookup k t) [
  | none ↦ t
  | some expires_at ↦ if ltb expires_at now then erase k t else t
]

-- The inner loop, with the ids that are locked so far; the insertion fails where the key is there.
unfoldable pub acquire_each : ℕ → ℕ → List Text → List Text → Locks → Bool × List Text × Locks
acquire_each now expires_at [] acquired t = (true, acquired, t)
acquire_each now expires_at (id ∷ ids) acquired t =
    let t' = clean_up now (lock_key id) t in
    elim (lookup (lock_key id) t') [
      | some e ↦ (false, acquired, t')
      | none ↦
          acquire_each now expires_at ids (acquired ++ id ∷ []) (insert (lock_key id) expires_at t')
    ]

unfoldable pub release_each : List Text → Locks → Locks
release_each [] t = t
release_each (id ∷ ids) t = release_each ids (erase (lock_key id) t)

unfoldable pub release_locks : List Text → Locks → Locks
release_locks ids t = release_each (unique (filled ids)) t

-- What a run meets: the clock at each attempt, and what other workers do before it.
pub record LockEnv : Type 0 where
  pub now : ℕ → ℕ
  pub others : ℕ → Locks → Locks

-- The outer loop, with the attempts that are left.
unfoldable pub attempts : LockEnv → ℕ → List Text → ℕ → ℕ → Locks → Bool × Locks
attempts env ttl ids zero n t = (false, t)
attempts env ttl ids (suc left) n t =
    let now = env.now n in
    let (done, acquired, t') = acquire_each now (now + ttl * 1000) ids [] (env.others n t) in
    let rest = attempts env ttl ids left (suc n) (release_locks acquired t') in
    if done then (true, t') else rest

abbrev pub lock_sorted : LockEnv → List Text → ℕ → ℕ → Locks → Bool × Locks
lock_sorted env [] ttl retries t = (true, t)
lock_sorted env (id ∷ ids) ttl retries t = attempts env ttl (id ∷ ids) (suc retries) 0 t

unfoldable pub acquire_locks : LockEnv → List Text → ℕ → ℕ → Locks → Bool × Locks
acquire_locks env resource_ids ttl retries t =
    lock_sorted env (sorted_ids resource_ids) ttl retries t

-- `withLock`: `none` where it throws LOCK_TIMEOUT. The callback takes the locks as they are and returns
-- them as they have become when it ends, with its value or its error.
unfoldable pub with_lock :
    {A : Type 0} → LockEnv → List Text → (Locks → A × Locks) → Locks → Option A × Locks
with_lock env resource_ids callback t =
    let (locked, t') = acquire_locks env resource_ids 15 5 t in
    let (result, t'') = callback t' in
    if locked then (some result, release_locks resource_ids t'') else (none, t')
