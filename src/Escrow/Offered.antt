-- ===== src/Escrow/Offered.antt =====
-- What `availableActions` offers to a party, and what the methods answer when the party takes it.
use orbi_insitutional_core_v.Prelude.{
  ◌≡◌, refl, ℕ, Bool, true, false, not, ◌&&◌, ◌||◌, none, some, if◌then◌else◌,
}
use orbi_insitutional_core_v.Prelude.Text.{Text, codes, text_eq, trim}
use orbi_insitutional_core_v.Fees.Compute.{Outcome, returned, thrown}
use orbi_insitutional_core_v.Escrow.{
  settle_merchant, EscrowStatus, held, release_pending, return_pending, released, disputed,
  refunded, EscrowAgreement, EscrowCall, transition, release, accept, dispute, refund, is_merchant,
  is_expired, release_escrow, accept_escrow, dispute_escrow, refund_escrow, awaits_receiver,
  can_be_accepted, is_filled, available_actions, refund_call, can_be_disputed, can_be_refunded,
  is_held,
}

-- An action that is offered is answered by the call.
abbrev pub Gives : Bool → Outcome EscrowCall → EscrowCall → Type 0
Gives true o c = o ≡ returned c
Gives false o c = Unit

if-Gives :
    (s offered : Bool) (e : Text) (c : EscrowCall)
    → Gives (s && offered) (if not s then thrown e else returned c) c
if-Gives true true e c = refl
if-Gives true false e c = tt
if-Gives false offered e c = tt

not_merchant-Gives :
    (s offered m : Bool) (e : Text) (c d : EscrowCall)
    → m ≡ false
    → Gives (s && offered) (if not s then thrown e else (if m then returned d else returned c)) c
not_merchant-Gives s offered m e c d h = rw (h) (if-Gives s offered e c)

unexpired : (st : EscrowStatus) (accepted : Bool) → can_be_accepted st accepted true ≡ false
unexpired held true = refl
unexpired held false = refl
unexpired release_pending accepted = refl
unexpired return_pending accepted = refl
unexpired released accepted = refl
unexpired disputed accepted = refl
unexpired refunded accepted = refl

-- Before its expiry, no acceptance is turned into a refund.
in_time-Gives :
    (st : EscrowStatus) (accepted : Bool) (c d : EscrowCall)
    → Gives
        (can_be_accepted st accepted false)
        (if awaits_receiver st && not accepted && false then returned d else returned c)
        c
in_time-Gives held true c d = tt
in_time-Gives held false c d = refl
in_time-Gives release_pending true c d = refl
in_time-Gives release_pending false c d = refl
in_time-Gives return_pending accepted c d = refl
in_time-Gives released accepted c d = tt
in_time-Gives disputed accepted c d = tt
in_time-Gives refunded accepted c d = tt

accept-Gives :
    (s r m expired accepted : Bool) (st : EscrowStatus) (e f : Text) (c d : EscrowCall)
    → m ≡ false
    → (s || r) ≡ true
    → Gives
        (not s && can_be_accepted st accepted expired)
        (if not r
          then thrown e
          else (if m
              then thrown f
              else (if awaits_receiver st && not accepted && expired
                  then returned d
                  else returned c)))
        c
accept-Gives true r m expired accepted st e f c d h p = tt
accept-Gives false r m true accepted st e f c d h p = rw (unexpired st accepted) tt
accept-Gives false r m false accepted st e f c d h p = rw (h, p) (in_time-Gives st accepted c d)

dispute-Gives :
    (party offered filled : Bool) (e f : Text) (c : EscrowCall)
    → party ≡ true
    → filled ≡ true
    → Gives offered
        (if not party then thrown e else (if not filled then thrown f else returned c))
        c
dispute-Gives party true filled e f c h k = rw (h, k) refl
dispute-Gives party false filled e f c h k = tt

-- For an agreement without a merchant, a party to it, and a reason that is not blank, each action
-- that `available_actions` offers and that the party takes at that time is not refused: the method
-- asks the SQL function for the transition of that name in the party's name, and for an acceptance
-- not for a refund. What the SQL function makes of it is not covered: in the state
-- `return_pending`, it turns an acceptance into a refund.
pub offered-AreAnswered :
    (now : ℕ) (a : EscrowAgreement) (actor reason : Text)
    → is_merchant a.merchant_id ≡ false
    → (text_eq a.sender_id actor || text_eq a.receiver_id actor) ≡ true
    → is_filled (trim reason) ≡ true
    → let offered = available_actions now a actor in
      Gives offered.can_release (release_escrow a actor) (transition actor release none none)
      × Gives offered.can_accept (accept_escrow now a actor) (transition actor accept none none)
      × Gives offered.can_refund
          (refund_escrow a actor reason)
          (transition actor refund (some a.source_vault_id) (some reason))
      × Gives offered.can_dispute
          (dispute_escrow a actor reason)
          (transition actor dispute none (some reason))
unfolding available_actions release_escrow accept_escrow refund_escrow dispute_escrow
offered-AreAnswered now a actor reason m p filled =
    let sender = text_eq a.sender_id actor in
    let receiver = text_eq a.receiver_id actor in
    (
      not_merchant-Gives sender (is_held a.status && a.receiver_accepted && not (is_expired now a))
          (is_merchant a.merchant_id) (codes "UNAUTHORIZED_RELEASE")
          (transition actor release none none) (settle_merchant actor) m,
      accept-Gives sender receiver (is_merchant a.merchant_id) (is_expired now a)
          a.receiver_accepted a.status (codes "UNAUTHORIZED_ACCEPT")
          (codes "PAYSAFE_ACCEPT_NOT_SUPPORTED_FOR_MERCHANT") (transition actor accept none none)
          (refund_call a) m p,
      if-Gives sender (can_be_refunded a.status && not (is_expired now a))
          (codes "UNAUTHORIZED_REFUND")
          (transition actor refund (some a.source_vault_id) (some reason)),
      dispute-Gives (sender || receiver) (can_be_disputed a.status) (is_filled (trim reason))
          (codes "UNAUTHORIZED_DISPUTE") (codes "DISPUTE_REASON_REQUIRED")
          (transition actor dispute none (some reason)) p filled,
    )
