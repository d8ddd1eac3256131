-- ===== src/Escrow.antt =====
-- `EscrowService` of ledger/escrowService.ts, payments that are held until the receiver accepts: its rows,
-- and what it asks of the SQL function that moves an agreement on. The messages to people are left out.
pub mod Terms
pub mod Create
pub mod Sound
pub mod Holding
pub mod Offered
mod Tests
use orbi_insitutional_core_v.Prelude.{
  ℕ, Bool, true, false, not, ◌&&◌, ◌||◌, Option, none, some, List, [], ◌∷◌, any, if◌then◌else◌, ltb,
  map, zero, suc,
}
use orbi_insitutional_core_v.Prelude.Int.{ℤ, pos}
use orbi_insitutional_core_v.Prelude.Text.{Text, codes, text_eq, trim}
use orbi_insitutional_core_v.Fees.Compute.{Outcome, returned, thrown}

pub data EscrowStatus : Type 0 where
  held release_pending return_pending released disputed refunded : EscrowStatus

-- A row of `escrow_agreements`. Whether the receiver has accepted is either of two columns.
pub record EscrowAgreement : Type 0 where
  pub reference_id : Text
  pub sender_id : Text
  pub receiver_id : Text
  pub source_vault_id : Text
  pub merchant_id : Option Text
  pub status : EscrowStatus
  pub expires_at : Option ℕ
  pub receiver_accepted : Bool

pub data EscrowAction : Type 0 where
  release accept dispute refund : EscrowAction

-- A call of `transition_paysafe_escrow_v1`, or of `settle_merchant_paysafe_v1`.
pub data EscrowCall : Type 0 where
  transition : Text → EscrowAction → Option Text → Option Text → EscrowCall
  settle_merchant : Text → EscrowCall

-- `none` is an id that is missing or empty.
abbrev pub is_merchant : Option Text → Bool
is_merchant none = false
is_merchant (some []) = false
is_merchant (some (c ∷ s)) = true

unfoldable pub is_expired : ℕ → EscrowAgreement → Bool
is_expired now a = elim a.expires_at [ none ↦ false | some t ↦ ltb t now ]

unfoldable pub release_escrow : EscrowAgreement → Text → Outcome EscrowCall
unfolding text_eq
release_escrow a actor =
    if not (text_eq a.sender_id actor)
    then thrown (codes "UNAUTHORIZED_RELEASE")
    else (if is_merchant a.merchant_id
        then returned (settle_merchant actor)
        else returned (transition actor release none none))

abbrev pub awaits_receiver : EscrowStatus → Bool
awaits_receiver held = true
awaits_receiver release_pending = true
awaits_receiver _ = false

abbrev pub expiry_reason : Text
expiry_reason = codes "PaySafe acceptance window expired before receiver confirmation."

-- The refund to the source vault, in the sender's name.
abbrev pub refund_call : EscrowAgreement → EscrowCall
refund_call a = transition a.sender_id refund (some a.source_vault_id) (some expiry_reason)

unfoldable pub accept_escrow : ℕ → EscrowAgreement → Text → Outcome EscrowCall
unfolding text_eq is_expired
accept_escrow now a actor =
    if not (text_eq a.receiver_id actor)
    then thrown (codes "UNAUTHORIZED_ACCEPT")
    else (if is_merchant a.merchant_id
        then thrown (codes "PAYSAFE_ACCEPT_NOT_SUPPORTED_FOR_MERCHANT")
        else (if awaits_receiver a.status && not a.receiver_accepted && is_expired now a
            then returned (refund_call a)
            else returned (transition actor accept none none)))

abbrev pub is_filled : Text → Bool
is_filled [] = false
is_filled (c ∷ s) = true

unfoldable pub dispute_escrow : EscrowAgreement → Text → Text → Outcome EscrowCall
unfolding text_eq trim
dispute_escrow a user reason =
    if not (text_eq a.sender_id user || text_eq a.receiver_id user)
    then thrown (codes "UNAUTHORIZED_DISPUTE")
    else (if not (is_filled (trim reason))
        then thrown (codes "DISPUTE_REASON_REQUIRED")
        else returned (transition user dispute none (some reason)))

unfoldable pub refund_escrow : EscrowAgreement → Text → Text → Outcome EscrowCall
unfolding text_eq
refund_escrow a actor reason =
    if not (text_eq a.sender_id actor)
    then thrown (codes "UNAUTHORIZED_REFUND")
    else returned (transition actor refund (some a.source_vault_id) (some reason))

-- The query of `autoRefundExpiredUnacceptedEscrows` on the rows in the order of their expiry, and its
-- call for each row.
unfoldable pub is_swept : ℕ → EscrowAgreement → Bool
unfolding is_expired
is_swept now a = awaits_receiver a.status && is_expired now a && not a.receiver_accepted

unfoldable pub swept_rows : ℕ → ℕ → List EscrowAgreement → List EscrowAgreement
unfolding is_swept
swept_rows now limit [] = []
swept_rows now zero (a ∷ more) = []
swept_rows now (suc limit) (a ∷ more) =
    let rest = swept_rows now (suc limit) more in
    let others = swept_rows now limit more in if is_swept now a then a ∷ others else rest

unfoldable pub sweep_calls : ℕ → List EscrowAgreement → List EscrowCall
unfolding swept_rows
sweep_calls now rows = map (λ a. refund_call a) (swept_rows now 50 rows)

-- `availableActions` of `decorateAgreement`
pub record AvailableActions : Type 0 where
  pub can_release : Bool
  pub can_accept : Bool
  pub can_refund : Bool
  pub can_dispute : Bool

abbrev pub can_be_accepted : EscrowStatus → Bool → Bool → Bool
can_be_accepted held accepted expired = not accepted && not expired
can_be_accepted release_pending accepted expired = not expired
can_be_accepted return_pending accepted expired = not expired
can_be_accepted _ accepted expired = false

abbrev pub can_be_refunded : EscrowStatus → Bool
can_be_refunded held = true
can_be_refunded disputed = true
can_be_refunded _ = false

abbrev pub can_be_disputed : EscrowStatus → Bool
can_be_disputed held = true
can_be_disputed release_pending = true
can_be_disputed return_pending = true
can_be_disputed _ = false

abbrev pub is_held : EscrowStatus → Bool
is_held held = true
is_held _ = false

unfoldable pub available_actions : ℕ → EscrowAgreement → Text → AvailableActions
unfolding is_expired text_eq
available_actions now a actor =
    let is_sender = text_eq a.sender_id actor in
    let expired = is_expired now a in
    record {
      can_release = is_sender && (is_held a.status && a.receiver_accepted && not expired);
      can_accept = not is_sender && can_be_accepted a.status a.receiver_accepted expired;
      can_refund = is_sender && (can_be_refunded a.status && not expired);
      can_dispute = can_be_disputed a.status;
    }
