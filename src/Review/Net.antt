-- ===== src/Review/Net.antt =====
-- What a reversal leaves on each wallet.
use orbi_insitutional_core_v.Prelude.{
  ◌⊎◌, ◌≡◌, refl, inl, inr, Bool, true, false, Option, none, some, List, [], ◌∷◌, ◌++◌, map,
  if◌then◌else◌, Bool-cases, Option-cases, any,
}
use orbi_insitutional_core_v.Prelude.Int.{ℤ, pos, ◌+ℤ◌, ◌-ℤ◌, leb_ℤ, int_laws}
use orbi_insitutional_core_v.Prelude.Text.{Text, text_eq}
use orbi_insitutional_core_v.Lifecycle.{Status, reversed, is_valid_transition}
use orbi_insitutional_core_v.Review.{
  EntryType, debit, credit, LedgerLeg, Tx, Book, Ending, finished, thrown, find_tx, legs_of,
  log_transaction_event,
}
use orbi_insitutional_core_v.Review.Ledger.{
  ending_of, set_status, opposite, LedgerEnv, cons_leg, add_leg, wallet_is, prepare_legs,
  commit_legs, commit_prepared, post_transaction_with_ledger, update_found_status,
  update_transaction_status, reversal_leg, reversal_tx, mark_reversed, reverse_found,
  reverse_transaction,
}

abbrev signed : EntryType → ℤ → ℤ
signed credit a = a
signed debit a = pos 0 -ℤ a

abbrev on_wallet : Text → Option Text → Bool
on_wallet w none = false
on_wallet w (some v) = text_eq v w

-- The credits of a wallet less its debits.
unfoldable pub net : Text → List LedgerLeg → ℤ
net w [] = pos 0
net w (l ∷ ls) =
    let rest = net w ls in
    if on_wallet w l.wallet_id then signed l.entry_type l.amount +ℤ rest else rest

pub net-append : (w : Text) (ls ms : List LedgerLeg) → net w (ls ++ ms) ≡ net w ls +ℤ net w ms
unfolding net
net-append w [] ms = grind int_laws
net-append w (l ∷ ls) ms = elim (Bool-cases (on_wallet w l.wallet_id)) [
  | inl e ↦ rw (e, net-append w ls ms) (grind int_laws)
  | inr e ↦ rw e (net-append w ls ms)
]

-- Prepared legs that cancel the given ones on a wallet; none if an amount is invalid.
abbrev IsOpposite : Text → List LedgerLeg → Option (List LedgerLeg) → Type 0
IsOpposite w ls none = Unit
IsOpposite w ls (some ps) = net w ps +ℤ net w ls ≡ pos 0

signed-opposite :
    (t : EntryType) (a x y : ℤ)
    → x +ℤ y ≡ pos 0
    → (signed (opposite t) a +ℤ x) +ℤ (signed t a +ℤ y) ≡ pos 0
signed-opposite debit a x y h = grind (int_laws, h)
signed-opposite credit a x y h = grind (int_laws, h)

cons_leg-IsOpposite :
    (w id tid v : Text) (t : EntryType) (a : ℤ) (ls : List LedgerLeg)
    (rest : Option (List LedgerLeg))
    → IsOpposite w ls rest
    → let l : LedgerLeg = record {
      transaction_id = tid;
      wallet_id = some v;
      entry_type = t;
      amount = a;
    } in
      IsOpposite w (l ∷ ls) (cons_leg (reversal_leg id l) rest)
unfolding net
cons_leg-IsOpposite w id tid v t a ls none h = tt
cons_leg-IsOpposite w id tid v t a ls (some ps) h = elim (Bool-cases (text_eq v w)) [
  | inl e ↦ rw e (signed-opposite t a (net w ps) (net w ls) h)
  | inr e ↦ rw e h
]

add_leg-IsOpposite :
    (w id tid : Text) (o : Option Text) (t : EntryType) (a : ℤ) (ls : List LedgerLeg)
    (rest : Option (List LedgerLeg))
    → IsOpposite w ls rest
    → let l : LedgerLeg = record {
      transaction_id = tid;
      wallet_id = o;
      entry_type = t;
      amount = a;
    } in
      IsOpposite w (l ∷ ls) (add_leg (reversal_leg id l) o rest)
unfolding net
add_leg-IsOpposite w id tid none t a ls none h = tt
add_leg-IsOpposite w id tid none t a ls (some ps) h = h
add_leg-IsOpposite w id tid (some v) t a ls rest h = elim (Bool-cases (leb_ℤ a (pos 0))) [
  | inl e ↦ rw e tt
  | inr e ↦ rw e (cons_leg-IsOpposite w id tid v t a ls rest h)
]

prepare_legs-IsOpposite :
    (w id : Text) (ls : List LedgerLeg) → IsOpposite w ls (prepare_legs (map (reversal_leg id) ls))
unfolding prepare_legs net
prepare_legs-IsOpposite w id [] = grind int_laws
prepare_legs-IsOpposite w id (l ∷ ls) =
    add_leg-IsOpposite w id l.transaction_id l.wallet_id l.entry_type l.amount ls
      (prepare_legs (map (reversal_leg id) ls)) (prepare_legs-IsOpposite w id ls)

-- What cancels the legs on the wallet has been added.
abbrev IsOpposed : Text → List LedgerLeg → Book → Book → Type 0
IsOpposed w ls b b' = net w b'.ledger +ℤ net w ls ≡ net w b.ledger

-- A posting that throws leaves the book as it was.
abbrev IsAllOrNone : Text → List LedgerLeg → Book → Ending × Book → Type 0
IsAllOrNone w ls b (thrown e, b') = b' ≡ b
IsAllOrNone w ls b (finished, b') = IsOpposed w ls b b'

-- A reversal may also throw once the legs are added, after the update of the status.
abbrev pub IsCancelled : LedgerEnv → Text → List LedgerLeg → Book → Ending × Book → Type 0
IsCancelled env w ls b (thrown e, b') =
    (b' ≡ b) ⊎ ((env.status_error reversed ≡ some e) × IsOpposed w ls b b')
IsCancelled env w ls b (finished, b') = IsOpposed w ls b b'

commit_legs-IsAllOrNone :
    (w : Text) (t : Tx) (ls ps : List LedgerLeg) (o : Option Text) (b : Book)
    → net w ps +ℤ net w ls ≡ pos 0
    → IsAllOrNone w ls b (commit_legs t ps o b)
unfolding commit_legs log_transaction_event
commit_legs-IsAllOrNone w t ls ps none b h = rw (net-append w b.ledger ps) (grind (int_laws, h))
commit_legs-IsAllOrNone w t ls ps (some e) b h = refl

commit_prepared-IsAllOrNone :
    (w : Text) (env : LedgerEnv) (t : Tx) (ls : List LedgerLeg) (b : Book)
    (o : Option (List LedgerLeg))
    → IsOpposite w ls o
    → IsAllOrNone w ls b (commit_prepared env t o b)
unfolding commit_prepared
commit_prepared-IsAllOrNone w env t ls b none h = refl
commit_prepared-IsAllOrNone w env t ls b (some ps) h =
    commit_legs-IsAllOrNone w t ls ps (env.rpc_error ps) b h

set_status-ledger :
    (refused : Bool) (id : Text) (status : Status) (b : Book)
    → (set_status refused id status b).ledger ≡ b.ledger
unfolding set_status
set_status-ledger true id status b = refl
set_status-ledger false id status b = refl

ended-IsCancelled :
    (env : LedgerEnv) (w : Text) (ls : List LedgerLeg) (b b' : Book) (o : Option Text)
    → env.status_error reversed ≡ o
    → IsOpposed w ls b b'
    → IsCancelled env w ls b (ending_of o, b')
ended-IsCancelled env w ls b b' none e h = h
ended-IsCancelled env w ls b b' (some m) e h = inr (e, h)

found-IsCancelled :
    (env : LedgerEnv) (w id : Text) (ls : List LedgerLeg) (b b' : Book) (o : Option Tx)
    → IsOpposed w ls b b'
    → IsCancelled env w ls b (update_found_status env id reversed o b')
unfolding update_found_status log_transaction_event
found-IsCancelled env w id ls b b' none h = h
found-IsCancelled env w id ls b b' (some t) h =
    elim (Bool-cases (is_valid_transition t.status reversed)) [
      | inl v ↦
          rw (update_found_status, v)
            (ended-IsCancelled env w ls b
              (log_transaction_event id (some t.status) reversed
                (set_status env.update_refused id reversed b'))
              (env.status_error reversed) refl
              (rw (set_status-ledger env.update_refused id reversed b') h))
      | inr v ↦ rw (update_found_status, v) h
    ]

mark_reversed-IsCancelled :
    (env : LedgerEnv) (w id : Text) (ls : List LedgerLeg) (b : Book) (r : Ending × Book)
    → IsAllOrNone w ls b r
    → IsCancelled env w ls b (mark_reversed env id r)
unfolding mark_reversed update_transaction_status
mark_reversed-IsCancelled env w id ls b (thrown e, b') h = inl h
mark_reversed-IsCancelled env w id ls b (finished, b') h =
    found-IsCancelled env w id ls b b' (find_tx id b'.transactions) h

post-IsAllOrNone :
    (w id : Text) (env : LedgerEnv) (t : Tx) (ls : List LedgerLeg) (b : Book)
    → IsAllOrNone w ls b (post_transaction_with_ledger env t (map (reversal_leg id) ls) b)
unfolding post_transaction_with_ledger
post-IsAllOrNone w id env t ls b =
    let k =
      commit_prepared-IsAllOrNone w env t ls b (prepare_legs (map (reversal_leg id) ls))
        (prepare_legs-IsOpposite w id ls) in
    elim (Bool-cases (any (wallet_is (λ v. true)) (map (reversal_leg id) ls))) [
      | inl x ↦ elim (Bool-cases (any (wallet_is env.is_internal) (map (reversal_leg id) ls))) [
        | inl y ↦ rw (post_transaction_with_ledger, x, y) k
        | inr y ↦ rw (post_transaction_with_ledger, x, y) refl
      ]
      | inr x ↦ rw (post_transaction_with_ledger, x) k
    ]

-- A reversal that ends has added legs to the ledger that cancel, on every wallet, the legs of the
-- transaction; one that throws has changed nothing, or has added these legs and then thrown the
-- error that follows the update of the status.
pub reverse_transaction-IsCancelled :
    (w : Text) (env : LedgerEnv) (id : Text) (b : Book)
    → IsCancelled env w (legs_of id b.ledger) b (reverse_transaction env id b)
unfolding reverse_transaction reverse_found
reverse_transaction-IsCancelled w env id b = elim (Option-cases (find_tx id b.transactions)) [
  | inl e ↦ rw e (inl refl)
  | inr k ↦ rw k.1 (
      mark_reversed-IsCancelled env w id (legs_of id b.ledger) b
        (post_transaction_with_ledger env (reversal_tx env.new_id k.0)
          (map (reversal_leg env.new_id) (legs_of id b.ledger)) b)
        (post-IsAllOrNone w env.new_id env (reversal_tx env.new_id k.0) (legs_of id b.ledger) b))
]
