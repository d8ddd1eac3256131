-- ===== src/Locking/Tests.antt =====
-- Runs of the lock manager, and the theorem at single inputs.
use orbi_insitutional_core_v.Prelude.{ℕ, ◌+◌, ◌*◌, ◌≡◌, refl, false, some, List, [], ◌∷◌}
use orbi_insitutional_core_v.Prelude.Text.{Text, codes, text_eq}
use orbi_insitutional_core_v.Prelude.Dict.{lookup, insert, erase}
use orbi_insitutional_core_v.Locking.{
  Locks, LockEnv, lock_key, contains, filled, unique, place_in, sort, sorted_ids, clean_up,
  acquire_each, release_each, release_locks, attempts, acquire_locks, with_lock,
}
use orbi_insitutional_core_v.Locking.AllOrNone.{AllOrNone, alone, acquire_locks-AllOrNone}

abbrev env : LockEnv
env = record { now = λ n. 1000 + n * 100; others = λ n t. t }

abbrev wallets : List Text
wallets = codes "w2" ∷ [] ∷ codes "w1" ∷ codes "w2" ∷ []

-- Another worker has locked w2.
abbrev taken : Locks
taken = (lock_key (codes "w2"), 9000) ∷ []

taken_fails : acquire_locks env wallets 15 1 taken ≡ (false, taken)
unfolding acquire_locks attempts acquire_each clean_up release_locks release_each sorted_ids sort
    place_in unique filled contains lookup insert erase text_eq
taken_fails = refl

-- The callback outlives the locks, and another worker takes w1 meanwhile; the end takes its lock away.
other_lock_released :
    with_lock {A = ℕ} env (codes "w1" ∷ []) (λ t. (7, insert (lock_key (codes "w1")) 99000 t)) []
    ≡ (some 7, [])
unfolding with_lock acquire_locks attempts acquire_each clean_up release_locks release_each
    sorted_ids sort place_in unique filled contains lookup insert erase text_eq
other_lock_released = refl

acquire_locks-AllOrNone_example :
    AllOrNone env 15 (filled wallets) taken (acquire_locks (alone env) wallets 15 5 taken)
acquire_locks-AllOrNone_example = acquire_locks-AllOrNone env wallets 15 5 taken
