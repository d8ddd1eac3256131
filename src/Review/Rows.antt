-- ===== src/Review/Rows.antt =====
-- The rows that the operations leave: searches after an update, and after the moves of the status.
use orbi_insitutional_core_v.Prelude.{
  ◌≡◌, refl, ap, ◌∙◌, sym, ◌⊎◌, inl, inr, false, some, List, [], ◌∷◌, ◌++◌, if◌then◌else◌,
  Bool-cases, Bool, true, none,
}
use orbi_insitutional_core_v.Prelude.Text.{Text, text_eq}
use orbi_insitutional_core_v.Prelude.Dict.{text_eq_iff}
use orbi_insitutional_core_v.Lifecycle.{Status, is_valid_transition}
use orbi_insitutional_core_v.Review.{
  Ending, finished, Tx, Book, find_tx, update_tx, log_transaction_event,
}
use orbi_insitutional_core_v.Review.Ledger.{
  LedgerEnv, set_status, update_found_status, update_transaction_status,
}
use mathlib.Core.Option.{some-injective}

find_tx_next :
    (id : Text) (t row : Tx) (ts : List Tx)
    → find_tx id (t ∷ ts) ≡ some row
    → ((t.id ≡ id) × (t ≡ row)) ⊎ ((text_eq t.id id ≡ false) × (find_tx id ts ≡ some row))
unfolding find_tx
find_tx_next id t row ts e = elim (Bool-cases (text_eq t.id id)) [
  | inl b ↦ inl ((text_eq_iff t.id id).0 b, some-injective t row (rw b at e))
  | inr b ↦ inr (b, rw b at e)
]

pub find_tx-id : (id : Text) (ts : List Tx) (row : Tx) → find_tx id ts ≡ some row → row.id ≡ id
unfolding find_tx
find_tx-id id [] row e = cc
find_tx-id id (t ∷ ts) row e = elim (find_tx_next id t row ts e) [
  | inl k ↦ ap (λ x. x.id) (sym k.1) ∙ k.0
  | inr k ↦ find_tx-id id ts row k.1
]

pub find_tx-append :
    (id : Text) (ts us : List Tx) (row : Tx)
    → find_tx id ts ≡ some row
    → find_tx id (ts ++ us) ≡ some row
unfolding find_tx
find_tx-append id [] us row e = cc
find_tx-append id (t ∷ ts) us row e = elim (Bool-cases (text_eq t.id id)) [
  | inl b ↦ rw b (rw b at e)
  | inr b ↦ rw b (find_tx-append id ts us row (rw b at e))
]

-- An update that keeps the id is what the next search finds.
pub find_tx-update_tx :
    (id : Text) (f : Tx → Tx) (ts : List Tx) (row : Tx)
    → ((x : Tx) → (f x).id ≡ x.id)
    → find_tx id ts ≡ some row
    → find_tx id (update_tx id f ts) ≡ some (f row)
unfolding find_tx update_tx
find_tx-update_tx id f [] row h e = cc
find_tx-update_tx id f (t ∷ ts) row h e = elim (find_tx_next id t row ts e) [
  | inl k ↦
      let there = (text_eq_iff t.id id).1 k.0 in
      let same_row = (text_eq_iff (f t).id id).1 (h t ∙ k.0) in
      rw (there, same_row) (ap (λ x. some (f x)) k.1)
  | inr k ↦ rw (k.0, find_tx) (rw k.0 (find_tx-update_tx id f ts row h k.1))
]

-- The status after `updateTransactionStatus`.
abbrev pub moved_to : Status → Status → Status
moved_to old new = if is_valid_transition old new then new else old

-- The same where the update may be refused.
abbrev pub status_after : Bool → Status → Status → Status
status_after true old new = old
status_after false old new = moved_to old new

find_tx-set_status :
    (refused : Bool) (id : Text) (status : Status) (b : Book) (t : Tx)
    → is_valid_transition t.status status ≡ true
    → find_tx id b.transactions ≡ some t
    → find_tx id (set_status refused id status b).transactions
      ≡ some (record t { status = status_after refused t.status status })
unfolding set_status
find_tx-set_status true id status b t v e = e
find_tx-set_status false id status b t v e =
    rw v (find_tx-update_tx id (λ x. record x { status = status }) b.transactions t (λ x. refl) e)

unmoved :
    (refused : Bool) (old new : Status)
    → is_valid_transition old new ≡ false
    → status_after refused old new ≡ old
unmoved true old new v = refl
unmoved false old new v = rw v refl

pub find_tx-update_status :
    (env : LedgerEnv) (id : Text) (status : Status) (b : Book) (t : Tx)
    → find_tx id b.transactions ≡ some t
    → find_tx id (update_transaction_status env id status b).1.transactions
      ≡ some (record t { status = status_after env.update_refused t.status status })
unfolding update_transaction_status update_found_status log_transaction_event
find_tx-update_status env id status b t e =
    elim (Bool-cases (is_valid_transition t.status status)) [
      | inl v ↦
          rw (e, update_found_status, v) (find_tx-set_status env.update_refused id status b t v e)
      | inr v ↦ rw (e, update_found_status, v, unmoved env.update_refused t.status status v) e
    ]

-- Every update of a status is taken, and nothing is thrown after one.
abbrev pub Takes : LedgerEnv → Type 0
Takes env = (env.update_refused ≡ false) × ((s : Status) → env.status_error s ≡ none)

pub update_status_taken :
    (env : LedgerEnv) (id : Text) (status : Status) (b : Book) (t : Tx)
    → Takes env
    → find_tx id b.transactions ≡ some t
    → (b' : Book) × (update_transaction_status env id status b ≡ (finished, b'))
      × (find_tx id b'.transactions ≡ some (record t { status = moved_to t.status status }))
unfolding update_transaction_status update_found_status
update_status_taken env id status b t h e =
    let row = find_tx-update_status env id status b t e in
    let r : Ending × Book = update_transaction_status env id status b in
    let ends : r.0 ≡ finished = elim (Bool-cases (is_valid_transition t.status status)) [
      | inl v ↦ rw (e, update_found_status, v, h.1 status) refl
      | inr v ↦ rw (e, update_found_status, v) refl
    ] in
    (
      r.1,
      ap (λ x. (x, r.1)) ends,
      row ∙ ap (λ u. some (record t { status = status_after u t.status status })) h.0,
    )
