-- ===== src/Evidence/Payload/Value.antt =====
-- packages/shared-types/src/evidence.ts: a payload as the JSON value that is hashed, member by member
-- in the order of its schema.
use securtxn.Prelude.{Option, none, some, List, [], ◌∷◌, Text, codes}
use securtxn.Types.{
  PaymentDecision, safe_to_send, do_not_send, reverify, send_test_amount, DecisionReasonCode,
  sanctions_hit, duplicate_payment, wallet_not_confirmed, tier_unverified, vendor_match_failed,
  onchain_kyc_not_granted, amount_exceeds_tier_limit, new_or_changed_address, all_checks_passed,
  PayeeConsentDecision, accepted, denied, ExceptionType, overpay, misdirect, duplicate, wrong_asset,
  dispute, AcknowledgmentMethod, eip712_signature, htlc_claim,
}
use securtxn.Challenge.{
  ChallengeTrigger, first_payment_from_sender, above_tier_ceiling, wallet_recently_rotated,
  selfie_check_stale, recent_identity_mismatch, not_enrolled,
}
use securtxn.Json.{
  JsValue, null, undefined, boolean, number, string, array, object, Items, nil, item, Fields, end,
  field,
}
use securtxn.Evidence.Payload.{
  Party, sender, payee, MatcherKind, fallback, cre, Funder, payer, treasury, EvidencePayload,
  EvidenceEvent, payee_consent, world_id_check, vendor_match, decision, approval, send, ack,
  htlc_locked, htlc_claimed, htlc_refunded, exception_opened, evidence_accessed,
}

-- The wire spellings.
abbrev decision_text : PaymentDecision → Text
decision_text safe_to_send = codes "SAFE_TO_SEND"
decision_text do_not_send = codes "DO_NOT_SEND"
decision_text reverify = codes "REVERIFY"
decision_text send_test_amount = codes "SEND_TEST_AMOUNT"

abbrev reason_text : DecisionReasonCode → Text
reason_text sanctions_hit = codes "SANCTIONS_HIT"
reason_text duplicate_payment = codes "DUPLICATE_PAYMENT"
reason_text wallet_not_confirmed = codes "WALLET_NOT_CONFIRMED"
reason_text tier_unverified = codes "TIER_UNVERIFIED"
reason_text vendor_match_failed = codes "VENDOR_MATCH_FAILED"
reason_text onchain_kyc_not_granted = codes "ONCHAIN_KYC_NOT_GRANTED"
reason_text amount_exceeds_tier_limit = codes "AMOUNT_EXCEEDS_TIER_LIMIT"
reason_text new_or_changed_address = codes "NEW_OR_CHANGED_ADDRESS"
reason_text all_checks_passed = codes "ALL_CHECKS_PASSED"

abbrev consent_text : PayeeConsentDecision → Text
consent_text accepted = codes "ACCEPTED"
consent_text denied = codes "DENIED"

abbrev exception_text : ExceptionType → Text
exception_text overpay = codes "OVERPAY"
exception_text misdirect = codes "MISDIRECT"
exception_text duplicate = codes "DUPLICATE"
exception_text wrong_asset = codes "WRONG_ASSET"
exception_text dispute = codes "DISPUTE"

abbrev method_text : AcknowledgmentMethod → Text
method_text eip712_signature = codes "EIP712_SIGNATURE"
method_text htlc_claim = codes "HTLC_CLAIM"

abbrev party_text : Party → Text
party_text sender = codes "sender"
party_text payee = codes "payee"

abbrev matcher_text : MatcherKind → Text
matcher_text fallback = codes "fallback"
matcher_text cre = codes "cre"

abbrev funder_text : Funder → Text
funder_text payer = codes "payer"
funder_text treasury = codes "treasury"

abbrev trigger_text : ChallengeTrigger → Text
trigger_text first_payment_from_sender = codes "FIRST_PAYMENT_FROM_SENDER"
trigger_text above_tier_ceiling = codes "ABOVE_TIER_CEILING"
trigger_text wallet_recently_rotated = codes "WALLET_RECENTLY_ROTATED"
trigger_text selfie_check_stale = codes "SELFIE_CHECK_STALE"
trigger_text recent_identity_mismatch = codes "RECENT_IDENTITY_MISMATCH"
trigger_text not_enrolled = codes "NOT_ENROLLED"

abbrev text_or_null : Option Text → JsValue
text_or_null none = null
text_or_null (some t) = string t

abbrev number_or_null : Option Text → JsValue
number_or_null none = null
number_or_null (some t) = number (some t)

abbrev trigger_items : List ChallengeTrigger → Items
trigger_items [] = nil
trigger_items (t ∷ ts) = item (string (trigger_text t)) (trigger_items ts)

abbrev fields_of : List (Text × JsValue) → Fields
fields_of [] = end
fields_of ((k, v) ∷ r) = field k v (fields_of r)

abbrev funder_or_undefined : Option Funder → JsValue
funder_or_undefined none = undefined
funder_or_undefined (some f) = string (funder_text f)

abbrev text_or_undefined : Option Text → JsValue
text_or_undefined none = undefined
text_or_undefined (some t) = string t

abbrev Named : Type 0
Named = Text × List (Text × JsValue)

-- `eventType` and the members of `data`.
unfoldable pub event_members : EvidenceEvent → Named
event_members (payee_consent d signer present check triggers) = (
  codes "payee_consent",
  (codes "decision", string (consent_text d))
      ∷ (codes "signerAddress", text_or_null signer)
      ∷ (codes "signaturePresent", boolean present)
      ∷ (codes "worldIdVerificationId", text_or_null check)
      ∷ (codes "challengeTriggers", array (trigger_items triggers))
      ∷ [],
)
event_members (world_id_check id purpose credential party matched) = (
  codes "world_id_check",
  (codes "verificationId", string id)
      ∷ (codes "purpose", string purpose)
      ∷ (codes "credential", string credential)
      ∷ (codes "party", string (party_text party))
      ∷ (codes "nullifierMatchedEnrolment", boolean matched)
      ∷ [],
)
event_members (vendor_match matched score reason matcher) = (
  codes "vendor_match",
  (codes "matched", boolean matched)
      ∷ (codes "score", number_or_null score)
      ∷ (codes "reasonCode", string reason)
      ∷ (codes "matcher", string (matcher_text matcher))
      ∷ [],
)
event_members (decision d reason score limit) = (
  codes "decision",
  (codes "decision", string (decision_text d))
      ∷ (codes "reasonCode", string (reason_text reason))
      ∷ (codes "matchScore", number_or_null score)
      ∷ (codes "tierLimitApplied", text_or_null limit)
      ∷ [],
)
event_members (approval who selfie ledger) = (
  codes "approval",
  (codes "approverId", string who)
      ∷ (codes "selfieCheckVerified", boolean selfie)
      ∷ (codes "ledgerConfirmed", boolean ledger)
      ∷ [],
)
event_members (send tx network to amount token) = (
  codes "send",
  (codes "txHash", string tx)
      ∷ (codes "network", string network)
      ∷ (codes "toAddress", string to)
      ∷ (codes "amount", string amount)
      ∷ (codes "token", string token)
      ∷ [],
)
event_members (ack recipient commitment method) = (
  codes "ack",
  (codes "recipientAddress", string recipient)
      ∷ (codes "recipientCommitment", string commitment)
      ∷ (codes "method", string (method_text method))
      ∷ [],
)
event_members (htlc_locked escrow lock hashlock timelock amount tx by from) = (
  codes "htlc_locked",
  (codes "escrowAddress", string escrow)
      ∷ (codes "lockId", string lock)
      ∷ (codes "hashlock", string hashlock)
      ∷ (codes "timelock", string timelock)
      ∷ (codes "amount", string amount)
      ∷ (codes "txHash", string tx)
      ∷ (codes "fundedBy", funder_or_undefined by)
      ∷ (codes "payerAddress", text_or_undefined from)
      ∷ [],
)
event_members (htlc_claimed lock preimage by tx) = (
  codes "htlc_claimed",
  (codes "lockId", string lock)
      ∷ (codes "preimage", string preimage)
      ∷ (codes "claimedBy", string by)
      ∷ (codes "txHash", string tx)
      ∷ [],
)
event_members (htlc_refunded lock to amount tx) = (
  codes "htlc_refunded",
  (codes "lockId", string lock)
      ∷ (codes "refundedTo", string to)
      ∷ (codes "amount", string amount)
      ∷ (codes "txHash", string tx)
      ∷ [],
)
event_members (exception_opened type by) = (
  codes "exception_opened",
  (codes "exceptionType", string (exception_text type)) ∷ (codes "openedBy", string by) ∷ [],
)
event_members (evidence_accessed actor role) = (
  codes "evidence_accessed",
  (codes "actorId", string actor) ∷ (codes "actorRole", string role) ∷ [],
)

unfoldable pub payload_value : EvidencePayload → JsValue
unfolding event_members
payload_value p = object (
    fields_of (
      (codes "paymentRequestId", string p.payment_request_id)
      ∷ (codes "timestamp", string p.timestamp)
      ∷ (codes "eventType", string (event_members p.event).0)
      ∷ (codes "data", object (fields_of (event_members p.event).1))
      ∷ []))
