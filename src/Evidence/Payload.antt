-- ===== src/Evidence/Payload.antt =====
-- packages/shared-types/src/evidence.ts and primitives.ts: one payload for each event type, the
-- schema that `EvidencePayload.parse` checks.
pub mod Value
use securtxn.Prelude.{
  ℕ, Bool, true, false, ◌&&◌, ◌||◌, Option, none, some, List, [], ◌∷◌, ◌++◌, Text, codes, length,
  drop, any, leb, ltb, ◌==◌, if◌then◌else◌,
}
use securtxn.Types.{
  PaymentDecision, safe_to_send, do_not_send, reverify, send_test_amount, DecisionReasonCode,
  sanctions_hit, duplicate_payment, wallet_not_confirmed, tier_unverified, vendor_match_failed,
  onchain_kyc_not_granted, amount_exceeds_tier_limit, new_or_changed_address, all_checks_passed,
  PayeeConsentDecision, accepted, denied, ExceptionType, overpay, misdirect, duplicate, wrong_asset,
  dispute, AcknowledgmentMethod, eip712_signature, htlc_claim,
}
use securtxn.Challenge.{
  ChallengeTrigger, first_payment_from_sender, above_tier_ceiling, wallet_recently_rotated,
  selfie_check_stale, recent_identity_mismatch, not_enrolled,
}
use securtxn.Json.{
  JsValue, null, undefined, boolean, number, string, array, object, Items, nil, item, Fields, end,
  field,
}
use securtxn.Platform.{Platform}

pub data Party : Type 0 where
  sender payee : Party

pub data MatcherKind : Type 0 where
  fallback cre : MatcherKind

pub data Funder : Type 0 where
  payer treasury : Funder

-- `data` by `eventType`, the fields in the order of the schema.
pub data EvidenceEvent : Type 0 where
  payee_consent :
      (decision : PayeeConsentDecision) (signer_address : Option Text) (signature_present : Bool)
      (world_id_verification_id : Option Text) (challenge_triggers : List ChallengeTrigger)
      → EvidenceEvent
  world_id_check :
      (verification_id purpose credential : Text) (party : Party)
      (nullifier_matched_enrolment : Bool)
      → EvidenceEvent
  vendor_match :
      (matched : Bool) (score : Option Text) (reason_code : Text) (matcher : MatcherKind)
      → EvidenceEvent
  decision :
      (decision : PaymentDecision) (reason_code : DecisionReasonCode) (match_score : Option Text)
      (tier_limit_applied : Option Text)
      → EvidenceEvent
  approval : (approver_id : Text) (selfie_check_verified ledger_confirmed : Bool) → EvidenceEvent
  send : (tx_hash network to_address amount token : Text) → EvidenceEvent
  ack :
      (recipient_address recipient_commitment : Text) (method : AcknowledgmentMethod)
      → EvidenceEvent
  htlc_locked :
      (escrow_address lock_id hashlock timelock amount tx_hash : Text) (funded_by : Option Funder)
      (payer_address : Option Text)
      → EvidenceEvent
  htlc_claimed : (lock_id preimage claimed_by tx_hash : Text) → EvidenceEvent
  htlc_refunded : (lock_id refunded_to amount tx_hash : Text) → EvidenceEvent
  exception_opened : (exception_type : ExceptionType) (opened_by : Text) → EvidenceEvent
  evidence_accessed : (actor_id actor_role : Text) → EvidenceEvent

pub record EvidencePayload : Type 0 where
  pub payment_request_id : Text
  pub timestamp : Text
  pub event : EvidenceEvent

-- The regular expressions of primitives.ts.
abbrev is_digit : ℕ → Bool
is_digit c = leb b'0' c && leb c b'9'

abbrev is_hex : ℕ → Bool
is_hex c = is_digit c || ((leb b'a' c && leb c b'f') || (leb b'A' c && leb c b'F'))

abbrev every : (ℕ → Bool) → Text → Bool
every p [] = true
every p (c ∷ t) = p c && every p t

abbrev prefixed_hex : ℕ → Text → Bool
prefixed_hex n (z ∷ x ∷ t) = z == b'0' && (x == b'x' && (length t == n && every is_hex t))
prefixed_hex n _ = false

unfoldable pub is_evm_address : Text → Bool
is_evm_address = prefixed_hex 40

unfoldable pub is_bytes32 : Text → Bool
is_bytes32 = prefixed_hex 64

abbrev leading_digits : Text → Text
leading_digits [] = []
leading_digits (c ∷ t) = if is_digit c then c ∷ leading_digits t else []

abbrev between : ℕ → ℕ → ℕ → Bool
between lo n hi = leb lo n && leb n hi

abbrev fraction_ok : Text → Bool
fraction_ok [] = true
fraction_ok (c ∷ t) = c == b'.' && (every is_digit t && between 1 (length t) 18)

-- `^\d{1,20}(\.\d{1,18})?$`, and a positive value: some digit is not zero.
unfoldable pub is_amount_string : Text → Bool
is_amount_string t =
    between 1 (length (leading_digits t)) 20
    && (fraction_ok (drop (length (leading_digits t)) t) && any (λ c. leb b'1' c && leb c b'9') t)

abbrev nullable : (Text → Bool) → Option Text → Bool
nullable p none = true
nullable p (some t) = p t

-- `EvidencePayload.parse` on a value that the types already shape: the formats of its texts. A
-- score, where there is one, is a number in its shortest form, and its range is not modelled.
unfoldable pub event_ok : Platform → EvidenceEvent → Bool
event_ok pf (payee_consent d signer present check triggers) =
    nullable is_evm_address signer && nullable pf.is_uuid check
event_ok pf (world_id_check id purpose credential party matched) = pf.is_uuid id
event_ok pf (vendor_match matched score reason matcher) = true
event_ok pf (decision d reason score limit) = nullable is_amount_string limit
event_ok pf (approval who selfie ledger) = true
event_ok pf (send tx network to amount token) = is_evm_address to && is_amount_string amount
event_ok pf (ack recipient commitment method) = is_evm_address recipient && is_bytes32 commitment
event_ok pf (htlc_locked escrow lock hashlock timelock amount tx by from) =
    is_evm_address escrow
    && (is_bytes32 lock
        && (is_bytes32 hashlock
            && (pf.is_datetime timelock
                && (is_amount_string amount && nullable is_evm_address from))))
event_ok pf (htlc_claimed lock preimage by tx) =
    is_bytes32 lock && (is_bytes32 preimage && is_evm_address by)
event_ok pf (htlc_refunded lock to amount tx) =
    is_bytes32 lock && (is_evm_address to && is_amount_string amount)
event_ok pf (exception_opened type by) = true
event_ok pf (evidence_accessed actor role) = true

unfoldable pub payload_ok : Platform → EvidencePayload → Bool
payload_ok pf p =
    pf.is_uuid p.payment_request_id && (pf.is_datetime p.timestamp && event_ok pf p.event)
