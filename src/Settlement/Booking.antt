-- ===== src/Settlement/Booking.antt =====
-- What `commitToInternalLedger` leaves behind when no other worker interferes.
use mathlib.Core.Path.{subst}
use orbi_insitutional_core_v.Prelude.{
  Bool, List, ◌≡◌, ◌⊎◌, inl, inr, refl, sym, true, false, if◌then◌else◌, Option, none, some, [],
  ◌∷◌, ◌++◌, get_elem?, not, Option-cases, Bool-cases,
}
use orbi_insitutional_core_v.Prelude.Int.{ℤ, pos, ◌≤ℤ◌}
use orbi_insitutional_core_v.Prelude.Text.{Text}
use orbi_insitutional_core_v.Settlement.State.{
  wallet_not_found, source_wallet_required, currency_required, throw_if, pure, continue, ◌>>=◌,
  ◌>>◌, Action, credit, Settlement, Posting, FailureReason, internally_settled, settlement_failed,
  Db, Result, ok, thrown, SettlementError, is_empty, change,
}
use orbi_insitutional_core_v.Settlement.Commit.{
  reply, settlement_currency, book_from, finish_booking, posting_for, source_wallet, CommitEnv,
  ledger_legs, has_fee, settled, book, post, resolve_fee_wallet,
}
use orbi_insitutional_core_v.Settlement.Balance.{IsBalanced, fee_wallet_for, legs_balance}
use orbi_insitutional_core_v.Settlement.Rules.{throw_if_rule}

-- One posting, which pays the amount of the settlement to its wallet.
abbrev pub Posted : Settlement → List Posting → List Posting → Type 0
Posted s before after =
    (p : Posting) × (after ≡ before ++ p ∷ [])
    × (p.amount ≡ s.amount)
    × (get_elem? p.legs 1
        ≡ some (record { wallet_id = s.wallet_id; entry_type = credit; amount = s.amount }))
    × IsBalanced p.legs

abbrev pub IsSettledBy : Text → Option Settlement → Type 0
IsSettledBy t none = ⊥
IsSettledBy t (some s) = (s.current_phase ≡ internally_settled) × (s.financial_tx_id ≡ some t)

abbrev pub IsFailedFor : FailureReason → Option Settlement → Type 0
IsFailedFor r none = ⊥
IsFailedFor r (some s) = (s.current_phase ≡ settlement_failed) × (s.last_error ≡ some r)

-- The row is failed, unless the update that fails it is refused.
abbrev pub IsFailedUnless : Bool → FailureReason → Option Settlement → Type 0
IsFailedUnless refused reason row = IsFailedFor reason row ⊎ (refused ≡ true)

-- What fails once the money has moved: the last update, its log, or the read of the balance.
abbrev pub FailsLate : CommitEnv → Type 0
FailsLate env = (env.faults 1 ≡ true) ⊎ (env.faults 3 ≡ true) ⊎ (env.faults 4 ≡ true)

-- The fee is not negative, and the wallet for fees has an id.
abbrev pub FeesAreSane : CommitEnv → Type 0
FeesAreSane env =
    ((amount : ℤ) (c : Text) (fee : ℤ) → env.resolve_fee amount c ≡ ok fee → pos 0 ≤ℤ fee)
    × ((c w : Text) → env.fee_account c ≡ ok w → is_empty w ≡ false)

abbrev pub alone : CommitEnv → CommitEnv
alone env = record env { others = λ k d. d }

module _ {κ} {B : Type 0} (env : CommitEnv) (P : Result B × Db → Type κ) where
  post_rule :
      (p : Posting) (k : Action B) (d : Db)
      → P (k (record d { ledger = d.ledger ++ p ∷ [] }))
      → ((e : SettlementError) → P (thrown e, d))
      → P ((post env p >> k) d)
  unfolding post
  post_rule p k d good bad = elim (Option-cases (env.refuse_posting p d.ledger)) [
    | inl e ↦ rw (e, post) good
    | inr (err, e) ↦ rw (e, post) (bad err)
  ]

  fee_wallet_rule :
      FeesAreSane env
      → (fee : ℤ) (currency : Text) (f : Option Text → Action B) (d : Db)
      → ((w : Text) → is_empty w ≡ false → P (f (fee_wallet_for fee w) d))
      → ((e : SettlementError) → P (thrown e, d))
      → P ((resolve_fee_wallet env fee currency >>= f) d)
  fee_wallet_rule sane fee currency f d good bad = elim (Bool-cases (has_fee fee)) [
    | inl e ↦
        let paid : (w : Text) → is_empty w ≡ false → P (f (some w) d) =
          λ w hw. subst (λ b. P (f (if b then some w else none) d)) e (good w hw) in
        subst (λ b. P (continue f ((if b then paying else waiving) d))) (sym e)
          (answer (env.fee_account currency) refl paid)
    | inr e ↦
        subst (λ b. P (continue f ((if b then paying else waiving) d))) (sym e)
          (subst (λ b. P (f (if b then some (0 ∷ []) else none) d)) e (good (0 ∷ []) refl))
  ]
    where
      paying : Action (Option Text)
      paying d' = continue (λ w. pure (some w)) (env.fee_account currency, d')

      waiving : Action (Option Text)
      waiving d' = (ok none, d')

      answer :
          (r : Result Text)
          → env.fee_account currency ≡ r
          → ((w : Text) → is_empty w ≡ false → P (f (some w) d))
          → P (continue f (continue (λ w. pure (some w)) (r, d)))
      answer (ok w) h paid = paid w (sane.1 currency w h)
      answer (thrown e) h paid = bad e

  fee_rule :
      FeesAreSane env
      → (amount : ℤ) (currency : Text) (f : ℤ → Action B) (d : Db)
      → ((fee : ℤ) → pos 0 ≤ℤ fee → P (f fee d))
      → ((e : SettlementError) → P (thrown e, d))
      → P (((λ d. (env.resolve_fee amount currency, d)) >>= f) d)
  fee_rule sane amount currency f d good bad = go (env.resolve_fee amount currency) refl
    where
      go : (r : Result ℤ) → env.resolve_fee amount currency ≡ r → P (continue f (r, d))
      go (ok fee) h = good fee (sane.0 amount currency fee h)
      go (thrown e) h = bad e

module _ (env : CommitEnv) (s : Settlement) where
  -- How `book` ends, from the database `d`.
  abbrev pub Books : Db → Result Text × Db → Type 0
  Books d (ok t, d') =
      (t ≡ env.financial_tx_id)
      × Posted s d.ledger d'.ledger
      × (d'.row ≡ change (settled env s) d.row)
  Books d (thrown e, d') =
      ((d'.row ≡ d.row) ⊎ (d'.row ≡ change (settled env s) d.row))
      × ((d'.ledger ≡ d.ledger) ⊎ (Posted s d.ledger d'.ledger × FailsLate env))

  finish-Books :
      (d : Db) (ledger : List Posting)
      → Posted s d.ledger ledger
      → Books d (finish_booking (alone env) s (record d { ledger = ledger }))
  unfolding finish_booking reply
  finish-Books d ledger h = elim (Bool-cases (env.faults 1)) [
    | inl e ↦ rw e (inl refl, inr (h, inl e))
    | inr e ↦ elim (Bool-cases (env.faults 3)) [
      | inl e3 ↦ rw (e, e3) (inr refl, inr (h, inr (inl e3)))
      | inr e3 ↦ elim (Bool-cases (env.faults 4)) [
        | inl e4 ↦ rw (e, e3, reply, e4) (inr refl, inr (h, inr (inr e4)))
        | inr e4 ↦ rw (e, e3, reply, e4) (refl, h, refl)
      ]
    ]
  ]

  abbrev then_post : Text → ℤ → Option Text → Action Text
  then_post source fee w =
      post (alone env) (posting_for (alone env) s source fee w) >> finish_booking (alone env) s

  abbrev then_pay : Text → Text → ℤ → Action Text
  then_pay source currency fee =
      resolve_fee_wallet (alone env) fee currency >>= then_post source fee

  book_from-Books :
      FeesAreSane env
      → (source currency : Text) (d : Db) → Books d (book_from (alone env) s source currency d)
  unfolding book_from ledger_legs
  book_from-Books sane source currency d =
      let failed : (e : SettlementError) → Books d (thrown e, d) = λ e. (inl refl, inl refl) in
      fee_rule (alone env) (Books d) sane s.amount currency (then_pay source currency) d
        (λ fee hfee.
          fee_wallet_rule (alone env) (Books d) sane fee currency (then_post source fee) d
            (λ w hw.
              let p = posting_for (alone env) s source fee (fee_wallet_for fee w) in
              post_rule (alone env) (Books d) p (finish_booking (alone env) s) d
                (finish-Books d _
                  (p, refl, refl, refl, legs_balance source s.wallet_id s.amount fee w hfee hw))
                failed)
            failed)
        failed

  pub book-Books : FeesAreSane env → (d : Db) → Books d (book (alone env) s d)
  unfolding book
  book-Books sane d =
      let from : Action Text =
        book_from (alone env) s (source_wallet env) (settlement_currency s) in
      let no_source = is_empty (source_wallet env) in
      let no_currency = is_empty (settlement_currency s) in
      let with_currency : Action Text = throw_if no_currency currency_required >> from in
      let with_source : Action Text = throw_if no_source source_wallet_required >> with_currency in
      throw_if_rule (Books d) (not env.wallet_exists) wallet_not_found with_source d
        (λ _.
          throw_if_rule (Books d) no_source source_wallet_required with_currency d
            (λ _.
              throw_if_rule (Books d) no_currency currency_required from d
                (λ _. book_from-Books sane (source_wallet env) (settlement_currency s) d)
                (λ _. (inl refl, inl refl)))
            (λ _. (inl refl, inl refl)))
        (λ _. (inl refl, inl refl))
