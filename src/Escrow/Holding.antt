-- ===== src/Escrow/Holding.antt =====
-- What `createEscrow` does to the ledger.
use orbi_insitutional_core_v.Prelude.{◌≡◌, ◌⊎◌, some, if◌then◌else◌}
use orbi_insitutional_core_v.Prelude.Int.{ℤ, pos, ◌+ℤ◌, ◌-ℤ◌}
use orbi_insitutional_core_v.Prelude.Text.{Text, text_eq}
use orbi_insitutional_core_v.Fees.Compute.{Outcome, returned, thrown}
use orbi_insitutional_core_v.Review.{Book, Ending, finished, debit, credit}
use orbi_insitutional_core_v.Review as Review
use orbi_insitutional_core_v.Review.Net.{net}
use orbi_insitutional_core_v.Escrow.Terms.{EscrowEnv, EscrowRequest, EscrowTerms}
use orbi_insitutional_core_v.Escrow.Create.{known}
use orbi_insitutional_core_v.Escrow.Sound.{AreSound}

-- What a wallet gains when the amount goes from the source to the safe.
abbrev pub gain : Text → ℤ → Text → Text → ℤ
gain w amount source safe =
    (if text_eq safe w then amount else pos 0) -ℤ (if text_eq source w then amount else pos 0)

-- The amount has moved, under terms that are sound.
abbrev pub IsMoved : Text → EscrowEnv → EscrowRequest → Book → Book → Type 0
IsMoved w env r b b' =
    (recipient : Text) × (t : EscrowTerms) × (env.recipient ≡ some recipient)
    × AreSound env r recipient t
    × (net w b'.ledger ≡ net w b.ledger +ℤ gain w r.amount t.source_vault.id t.pay_safe_vault.id)

-- A call that throws changes nothing, or has moved the amount and then thrown by the audit log. One that
-- answers gives the agreement of the intent and changes nothing, or a new reference, and moves the amount.
abbrev pub IsHeld : Text → EscrowEnv → Text → EscrowRequest → Book → Outcome Text × Book → Type 0
IsHeld w env reference r b (thrown e, b') =
    (b' ≡ b) ⊎ ((env.audit_error ≡ some e) × IsMoved w env r b b')
IsHeld w env reference r b (returned ref, b') =
    ((known env r ≡ some ref) × (b' ≡ b)) ⊎ ((ref ≡ reference) × IsMoved w env r b b')

-- A posting throws and changes nothing, or adds the legs.
abbrev IsPosted : Text → ℤ → Book → Ending × Book → Type 0
IsPosted w change b (finished, b') = net w b'.ledger ≡ net w b.ledger +ℤ change
IsPosted w change b (Review.thrown e, b') = b' ≡ b
