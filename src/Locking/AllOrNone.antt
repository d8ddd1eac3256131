-- ===== src/Locking/AllOrNone.antt =====
-- A call of `acquireLocks` takes all the locks or none.
use orbi_insitutional_core_v.Prelude.{
  ℕ, zero, suc, ◌+◌, ◌*◌, ◌≤◌, ◌≡◌, refl, Bool, true, false, ◌||◌, some, List, [], ◌∷◌, ◌++◌, arith,
  Option-cases, Bool-cases, inl, inr,
}
use orbi_insitutional_core_v.Prelude.Text.{Text, text_eq}
use orbi_insitutional_core_v.Prelude.Dict.{lookup, insert, lookup-insert, text_eq_iff}
use orbi_insitutional_core_v.Locking.{
  lock_sorted, Locks, LockEnv, lock_key, contains, filled, unique, sorted_ids, is_filled, clean_up,
  acquire_each, release_locks, attempts, acquire_locks,
}
use orbi_insitutional_core_v.Locking.Table.{
  contains-filled, contains-unique, contains-sorted_ids, lookup-clean_up, clean_up-live,
  lock_key_eq, lookup-release_each,
}

-- A lock that has not expired stays through a run of the inner loop.
acquire_each-live :
    (now expires_at : ℕ) (ids acquired : List Text) (t : Locks) (k : Text) (e : ℕ)
    → lookup k t ≡ some e
    → now ≤ e
    → lookup k (acquire_each now expires_at ids acquired t).2 ≡ some e
unfolding acquire_each
acquire_each-live now expires_at [] acquired t k e h live = h
acquire_each-live now expires_at (id ∷ ids) acquired t k e h live =
    let t' = clean_up now (lock_key id) t in
    let h' = clean_up-live now (lock_key id) k t e h live in
    elim (Option-cases (lookup (lock_key id) t')) [
      | inr (x, found) ↦ rw (acquire_each, found) h'
      | inl free ↦
          rw (acquire_each, free)
            (acquire_each-live now expires_at ids (acquired ++ id ∷ [])
              (insert (lock_key id) expires_at t') k e
              (ground
                (arith, lookup-insert (lock_key id) k expires_at t', text_eq_iff (lock_key id) k))
              live)
    ]

-- If all are acquired, each of the ids is locked until the new time.
acquire_each-all :
    (now expires_at : ℕ) (ids acquired : List Text) (t : Locks) (id : Text)
    → now ≤ expires_at
    → contains id ids ≡ true
    → (acquire_each now expires_at ids acquired t).0 ≡ true
    → lookup (lock_key id) (acquire_each now expires_at ids acquired t).2 ≡ some expires_at
unfolding acquire_each contains
acquire_each-all now expires_at [] acquired t id later member = λ done. ground arith
acquire_each-all now expires_at (j ∷ ids) acquired t id later member =
    let t' = clean_up now (lock_key j) t in
    let t'' : Locks = insert (lock_key j) expires_at t' in
    let k = lock_key id in
    let inserted = lookup-insert (lock_key j) k expires_at t' in
    elim (Option-cases (lookup (lock_key j) t')) [
      | inr (x, found) ↦ rw (acquire_each, found) (λ done. ground arith)
      | inl free ↦
          rw (acquire_each, free)
            (λ done. elim (Bool-cases (text_eq j id)) [
              | inl e ↦
                  acquire_each-live now expires_at ids (acquired ++ j ∷ []) t'' k expires_at
                    (ground (arith, inserted, lock_key_eq j id)) later
              | inr e ↦
                  acquire_each-all now expires_at ids (acquired ++ j ∷ []) t'' id later
                    (ground arith) done
            ])
    ]

-- Every lock of `t` that is not one of the acquired was there in `t0`.
abbrev IsOld : Locks → List Text → Locks → Type 0
IsOld t0 acquired t =
    (k : Text) (e : ℕ)
    → contains k acquired ≡ false
    → lookup (lock_key k) t ≡ some e
    → lookup (lock_key k) t0 ≡ some e

contains-append :
    (k : Text) (xs ys : List Text) → contains k (xs ++ ys) ≡ (contains k xs || contains k ys)
unfolding contains
contains-append k [] ys = refl
contains-append k (x ∷ xs) ys = ground (arith, contains-append k xs ys)

acquire_each-IsOld :
    (now expires_at : ℕ) (ids acquired : List Text) (t t0 : Locks)
    → IsOld t0 acquired t
    → let (done, acquired', t') = acquire_each now expires_at ids acquired t in
      IsOld t0 acquired' t'
unfolding acquire_each contains
acquire_each-IsOld now expires_at [] acquired t t0 h = h
acquire_each-IsOld now expires_at (id ∷ ids) acquired t t0 h =
    let t' = clean_up now (lock_key id) t in
    let cleaned : IsOld t0 acquired t' = λ k e fresh there.
      (let old = h k e fresh in ground (arith, lookup-clean_up now (lock_key id) (lock_key k) t)) in
    elim (Option-cases (lookup (lock_key id) t')) [
      | inr (x, found) ↦ rw (acquire_each, found) cleaned
      | inl free ↦
          let added : IsOld t0 (acquired ++ id ∷ []) (insert (lock_key id) expires_at t') =
            λ k e fresh there.
              (let old = cleaned k e in
                ground (
                  arith,
                  contains-append k acquired (id ∷ []),
                  lock_key_eq id k,
                  lookup-insert (lock_key id) (lock_key k) expires_at t',
                )) in
          rw (acquire_each, free)
            (acquire_each-IsOld now expires_at ids (acquired ++ id ∷ [])
              (insert (lock_key id) expires_at t') t0 added)
    ]

released-old :
    (acquired : List Text) (t t0 : Locks) (k : Text) (e : ℕ)
    → IsOld t0 acquired t
    → is_filled k ≡ true
    → lookup (lock_key k) (release_locks acquired t) ≡ some e
    → lookup (lock_key k) t0 ≡ some e
unfolding release_locks
released-old acquired t t0 k e h full there =
    let old = h k e in
    ground (
      arith,
      lookup-release_each k (unique (filled acquired)) t,
      contains-unique k (filled acquired),
      contains-filled k acquired,
    )

-- How a call ends, from the table `t0`: every id is locked until the time to live after one of the
-- attempts, or no lock is there that was not there before.
abbrev pub AllOrNone : LockEnv → ℕ → List Text → Locks → Bool × Locks → Type 0
AllOrNone env ttl ids t0 (true, t) =
    (id : Text)
    → contains id ids ≡ true
    → (n : ℕ) × (lookup (lock_key id) t ≡ some (env.now n + ttl * 1000))
AllOrNone env ttl ids t0 (false, t) =
    (k : Text) (e : ℕ)
    → is_filled k ≡ true
    → lookup (lock_key k) t ≡ some e
    → lookup (lock_key k) t0 ≡ some e

abbrev pub alone : LockEnv → LockEnv
alone env = record env { others = λ n t. t }

module _ (env : LockEnv) (ttl : ℕ) (ids : List Text) (t0 : Locks) where
  abbrev IsOldIfFilled : Locks → Type 0
  IsOldIfFilled t = AllOrNone env ttl ids t0 (false, t)

  attempts-AllOrNone :
      (left n : ℕ) (t : Locks)
      → IsOldIfFilled t
      → AllOrNone env ttl ids t0 (attempts (alone env) ttl ids left n t)
  unfolding attempts
  attempts-AllOrNone zero n t h = h
  attempts-AllOrNone (suc left) n t h =
      let now = env.now n in
      let run = acquire_each now (now + ttl * 1000) ids [] t in
      elim (Bool-cases run.0) [
        | inl e ↦
            rw (attempts, e)
              (λ id member.
                (n, acquire_each-all now (now + ttl * 1000) ids [] t id (omega arith) member e))
        | inr e ↦
            rw (attempts, e)
              (attempts-AllOrNone left (suc n) (release_locks run.1 run.2) (λ k x full there.
                h k x full (
                  released-old run.1 run.2 t k x
                    (acquire_each-IsOld now (now + ttl * 1000) ids [] t t (λ k' e' fresh old. old))
                    full there)))
      ]

lock_sorted-AllOrNone :
    (env : LockEnv) (ids : List Text) (ttl retries : ℕ) (t : Locks)
    → AllOrNone env ttl ids t (lock_sorted (alone env) ids ttl retries t)
unfolding contains
lock_sorted-AllOrNone env [] ttl retries t = λ id member. ground arith
lock_sorted-AllOrNone env (id ∷ ids) ttl retries t =
    attempts-AllOrNone env ttl (id ∷ ids) t (suc retries) 0 t (λ k e full there. there)

fewer_ids :
    (env : LockEnv) (ttl : ℕ) (ids ids' : List Text) (t : Locks) (r : Bool × Locks)
    → ((id : Text) → contains id ids' ≡ true → contains id ids ≡ true)
    → AllOrNone env ttl ids t r
    → AllOrNone env ttl ids' t r
fewer_ids env ttl ids ids' t (true, t') sub h = λ id member. h id (sub id member)
fewer_ids env ttl ids ids' t (false, t') sub h = h

-- With no other worker at the table, a call of `acquireLocks` that answers true has locked every
-- id that is not empty, until the time to live after one of its attempts; one that answers false
-- leaves no lock of an id that was not there before, with its time.
pub acquire_locks-AllOrNone :
    (env : LockEnv) (resource_ids : List Text) (ttl retries : ℕ) (t : Locks)
    → AllOrNone env ttl
        (filled resource_ids)
        t
        (acquire_locks (alone env) resource_ids ttl retries t)
unfolding acquire_locks
acquire_locks-AllOrNone env resource_ids ttl retries t =
    let ids = sorted_ids resource_ids in
    fewer_ids env ttl ids (filled resource_ids) t (lock_sorted (alone env) ids ttl retries t)
      (λ id member.
        ground (arith, contains-sorted_ids id resource_ids, contains-filled id resource_ids))
      (lock_sorted-AllOrNone env ids ttl retries t)
