-- ===== src/Consent.antt =====
-- apps/api/src/modules/consent/service.ts: asking the payee, and recording the answer.
pub mod Checks
pub mod Laws
use securtxn.Prelude.{
  ℕ, Bool, true, false, not, ◌&&◌, Option, none, some, List, [], ◌∷◌, ◌++◌, Text, text_eq, lower,
  any, if◌then◌else◌, is_some, Result, ok, err, require, present, ◌>>=◌, ◌>>◌, conflict,
  unprocessable, forbidden, invalid_value, unique_violation,
}
use securtxn.Types.{
  PaymentStatus, draft, awaiting_payee_consent, decision_pending, exception, is_status,
  PayeeConsentDecision, is_accepted, is_confirmed, NotificationKind,
}
use securtxn.Deps.{Deps}
use securtxn.Challenge.{ChallengeTrigger, ChallengeAssessment}
use securtxn.Eip712.{build_payee_consent_message, verify_payee_consent}
use securtxn.Store.Rows.{PaymentRequest, VendorWallet, PayeeConsent, Notification, Db}
use securtxn.Store.Rows
use securtxn.Store.Queries.{find_payment, find_wallet, save_payment}
use securtxn.Evidence.Payload.{EvidenceEvent, payee_consent}
use securtxn.Evidence.Service.{append}
use securtxn.Consent.Checks.{require_sender_check, require_world_id_check, assess}

-- The payee has blocked this payer.
unfoldable pub is_blocked : Text → Text → Db → Bool
is_blocked payee payer db =
    any (λ b. text_eq b.blocked_by_vendor_id payee && text_eq b.blocked_vendor_id payer)
      db.identity_blocks

-- `if (check) await evidence.append(tx, …)`
unfoldable pub append_check :
    Deps → ℕ → Option EvidenceEvent → PaymentRequest → Result PaymentRequest
append_check deps now none p = ok p
append_check deps now (some event) p = append deps.platform now event p

abbrev consent_notification : ℕ → PaymentRequest → Text → Bool → Notification
consent_notification now p payer required = record {
  vendor_id = p.vendor_id;
  kind = NotificationKind.consent_requested;
  payment_request_id = p.id;
  payload = Rows.consent_requested payer p.amount p.token p.invoice_ref required;
  created_at = now;
}

abbrev pub add_notification : Notification → Db → Db
add_notification n db = record db { notifications = db.notifications ++ n ∷ [] }

-- `request` (P3)
unfoldable pub request : Deps → ℕ → Text → Db → Result (ChallengeAssessment × Db)
request deps now payment_id db = do
  p ← find_payment payment_id db
  require (is_status p.status draft) conflict
  payer ← present p.payer_vendor_id unprocessable
  require (not (is_blocked p.vendor_id payer db)) forbidden
  sender_check ← require_sender_check deps payer p.id db
  challenge ← assess deps now p db
  q ← append_check deps now sender_check (record p { status = awaiting_payee_consent })
  ok (
    challenge,
    save_payment q (add_notification (consent_notification now p payer challenge.required) db),
  )

pub record PayeeConsentRequest : Type 0 where
  pub decision : PayeeConsentDecision
  pub signature : Option Text
  pub signer_address : Option Text
  pub world_id_verification_id : Option Text

-- `PayeeConsentRequest.superRefine` (packages/shared-types/src/consent.ts)
unfoldable pub consent_request_ok : PayeeConsentRequest → Bool
consent_request_ok input =
    if is_accepted input.decision
    then is_some input.signature && is_some input.signer_address
    else not (is_some input.signature) && not (is_some input.signer_address)

-- What an acceptance has established: the triggers, and the payee's check if one was demanded.
pub record Admitted : Type 0 where
  pub triggers : List ChallengeTrigger
  pub payee_check : Option EvidenceEvent

-- The branch for ACCEPTED. The schema demands a signer and a signature, so that an absent one is a
-- `TypeError`.
unfoldable pub admit_acceptance :
    Deps → ℕ → PaymentRequest → PayeeConsentRequest → Db → Result Admitted
admit_acceptance deps now p input db = do
  wallet ← find_wallet p.vendor_wallet_id db
  signer ← present input.signer_address invalid_value
  require (text_eq (lower signer) (lower wallet.address)) forbidden
  require (is_confirmed wallet.status) unprocessable
  signature ← present input.signature invalid_value
  require
      (verify_payee_consent deps.platform deps.hedera_chain_id signer signature (
        build_payee_consent_message p.id wallet.address (deps.platform.decimal_text p.amount)
          p.token p.invoice_ref))
      forbidden
  challenge ← assess deps now p db
  check ←
      (if challenge.required && deps.world_feature_flag_enabled
        then (require_world_id_check p.vendor_id p.id input.world_id_verification_id db >>= λ e.
            ok (some e))
        else ok none)
  ok (record { triggers = challenge.triggers; payee_check = check })

abbrev consent_row : PayeeConsentRequest → PayeeConsent
consent_row input = record {
  decision = input.decision;
  signature = input.signature;
  signer_address = input.signer_address;
  world_id_verification_id = input.world_id_verification_id;
}

abbrev pub answered : PayeeConsentRequest → PaymentRequest → PaymentRequest
answered input p = record p {
  status = if is_accepted input.decision then decision_pending else exception;
  payee_consent = some (consent_row input);
}

-- `decide` (P4). The unique constraint on the consent is behind the guard above it.
unfoldable pub decide_consent : Deps → ℕ → Text → PayeeConsentRequest → Db → Result Db
decide_consent deps now payment_id input db = do
  p ← find_payment payment_id db
  require (is_status p.status awaiting_payee_consent) conflict
  require (not (is_some p.payee_consent)) conflict
  admitted ←
      (if is_accepted input.decision
        then admit_acceptance deps now p input db
        else ok (record { triggers = []; payee_check = none }))
  q ← append_check deps now admitted.payee_check (answered input p)
  r ←
      append deps.platform now
        (payee_consent input.decision input.signer_address (is_some input.signature)
          input.world_id_verification_id admitted.triggers)
        q
  ok (save_payment r db)
