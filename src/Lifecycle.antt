-- ===== src/Lifecycle.antt =====
-- The life of a payment across the services of apps/api/src/modules: the invariant of a payment.
pub mod Appends
pub mod Parties
pub mod Decisions
pub mod Release
pub mod Escrows
pub mod Locks
pub mod Settling
pub mod Funds
pub mod Access
pub mod Steps
pub mod Promises
use securtxn.Prelude.{
  Bool, true, false, not, ◌&&◌, ◌||◌, ◌≡◌, Option, none, some, Text, text_eq, lower, is_some, All,
}
use securtxn.Types.{
  PaymentStatus, draft, awaiting_payee_consent, decision_pending, awaiting_approval, approved, sent,
  confirmed_on_chain, exception, is_status, HtlcStatus, pending_lock, locked, claimed, refunded,
  is_accepted,
}
use securtxn.Platform.{Platform}
use securtxn.Htlc.{hashlock_for}
use securtxn.Decision.{proceeds}
use securtxn.Store.Rows.{PaymentRequest, PayeeConsent, HtlcSettlement, RecipientAcknowledgment, Db}
use securtxn.Types.{PaymentDecision}
use securtxn.Consent.Checks.{is_settled}
use securtxn.Evidence.Service.Laws.{HasChain}

-- A status that only a decision in favour of the payment leads to.
abbrev pub is_released : PaymentStatus → Bool
is_released awaiting_approval = true
is_released approved = true
is_released sent = true
is_released confirmed_on_chain = true
is_released _ = false

abbrev pub has_agreed : Option PayeeConsent → Bool
has_agreed none = false
has_agreed (some c) = is_accepted c.decision

abbrev pub has_verdict : Option PaymentDecision → Bool
has_verdict none = false
has_verdict (some d) = proceeds d

-- A payment that is past the decision has the payee's agreement and a verdict to proceed.
unfoldable pub authorised : PaymentStatus → Option PayeeConsent → Option PaymentDecision → Bool
authorised s c d = not (is_released s) || (has_agreed c && has_verdict d)

abbrev pub opens : Platform → HtlcSettlement → Option Text → Bool
opens pf s none = false
opens pf s (some m) = text_eq (lower (hashlock_for pf m)) (lower s.hashlock)

-- The status of the payment and what else is known of it, by the status of its escrow.
abbrev pub fits_by :
    Platform → PaymentStatus → Option RecipientAcknowledgment → HtlcSettlement → HtlcStatus → Bool
fits_by pf st a s pending_lock = is_status st approved
fits_by pf st a s locked = is_settled st
fits_by pf st a s claimed = is_settled st && (is_some a && opens pf s s.preimage)
fits_by pf st a s refunded = is_status st exception

unfoldable pub escrow_fits :
    Platform → PaymentStatus → Option RecipientAcknowledgment → Option HtlcSettlement → Bool
escrow_fits pf st a none = true
escrow_fits pf st a (some s) = fits_by pf st a s s.status

-- What holds of a payment at all times.
pub record Good (pf : Platform) (p : PaymentRequest) : Type 0 where
  pub chain : HasChain pf p
  pub allowed : authorised p.status p.payee_consent p.decision ≡ true
  pub escrow : escrow_fits pf p.status p.recipient_ack p.htlc_settlement ≡ true

abbrev pub AllGood : Platform → Db → Type 0
AllGood pf db = All (Good pf) db.payment_requests
