-- ===== src/Payments/Decide.antt =====
-- apps/api/src/modules/payments/service.ts, `runDecision`: what it gathers, and what it writes. The
-- matcher, the screener and the compliance list are services of their own behind interfaces.
use securtxn.Prelude.{
  ℕ, Bool, true, false, not, ◌&&◌, ◌||◌, Option, none, some, List, [], ◌∷◌, ◌++◌, Text, codes,
  text_eq, any, if◌then◌else◌, or_else, Result, ok, err, require, present, ◌>>=◌, ◌>>◌, conflict,
  unprocessable,
}
use mathlib.Core.Option
use securtxn.Types.{
  draft, decision_pending, awaiting_approval, is_status, is_accepted, DecisionReasonCode,
  duplicate_payment, ExceptionType, NotificationKind, SettlementMode,
}
use securtxn.Deps.{Deps}
use securtxn.Decision.{DecisionInput, Decision, decide, proceeds, recommend_settlement_mode}
use securtxn.Matching.{VendorMatchInput}
use securtxn.Store.Rows.{PaymentRequest, Vendor, VendorWallet, Notification, Db}
use securtxn.Store.Rows
use securtxn.Store.Queries.{find_payment, find_vendor, find_wallet, save_payment}
use securtxn.Evidence.Payload.{vendor_match, decision}
use securtxn.Evidence.Service.{append}
use securtxn.Exceptions.{create_within}
use securtxn.Consent.{add_notification}
use securtxn.Consent.Checks.{is_settled}

-- The verdict of a matcher, with the code as the wire carries it.
pub record MatchAnswer : Type 0 where
  pub match : Bool
  pub reason_code : Text

pub record SanctionsQuery : Type 0 where
  pub vendor_id : Text
  pub legal_name : Text
  pub wallet_address : Text
  pub network : Text
  pub country : Text

-- The compliance gateway: none at all, the mock, or one that a chain stands behind, which says of a
-- security and an account whether KYC is granted.
pub data Compliance : Type 0 where
  no_gateway mock_gateway : Compliance
  chain_gateway : (Text → Text → Result Bool) → Compliance

pub record Gatherers : Type 0 where
  pub match : VendorMatchInput → Result MatchAnswer
  pub screen : SanctionsQuery → Result Bool
  pub compliance : Compliance
  pub ats_security_id : Option Text

-- `isKycGrantedOnChain`: true where there is no chain to ask.
unfoldable pub is_kyc_granted_on_chain : Gatherers → Text → Result Bool
is_kyc_granted_on_chain g address = elim g.compliance [
  | no_gateway ↦ ok true
  | mock_gateway ↦ ok true
  | chain_gateway granted ↦ elim g.ats_security_id [
    | none ↦ ok true
    | some security ↦ granted security address
  ]
]

-- `isDuplicateInvoice`: another payment to the vendor for this invoice has settled.
unfoldable pub is_duplicate_invoice : PaymentRequest → Db → Bool
is_duplicate_invoice p db =
    any
      (λ q.
        not (text_eq q.id p.id)
        && (text_eq q.vendor_id p.vendor_id
            && (text_eq q.invoice_ref p.invoice_ref && is_settled q.status)))
      db.payment_requests

abbrev pays_to : VendorWallet → Db → PaymentRequest → Bool
pays_to wallet db q = elim (find_wallet q.vendor_wallet_id db) [
  | ok w ↦ text_eq w.address wallet.address && text_eq w.network wallet.network
  | err e ↦ false
]

-- `isFirstPaymentToAddress`: no other payment to the address on the network has settled.
unfoldable pub is_first_payment_to_address : PaymentRequest → VendorWallet → Db → Bool
is_first_payment_to_address p wallet db = not (
    any (λ q. not (text_eq q.id p.id) && (pays_to wallet db q && is_settled q.status))
      db.payment_requests)

abbrev truthy : Option Text → List Text
truthy none = []
truthy (some []) = []
truthy (some (c ∷ t)) = (c ∷ t) ∷ []

abbrev spaced : List Text → Text
spaced [] = []
spaced (t ∷ []) = t
spaced (t ∷ u ∷ us) = t ++ 0x20 ∷ spaced (u ∷ us)

-- `displayName`
unfoldable pub display_name : Vendor → Text
display_name v =
    or_else v.legal_entity_name (spaced (truthy v.legal_first_name ++ truthy v.legal_last_name))

-- What the checks before the transaction have found.
pub record Gathered : Type 0 where
  pub answer : MatchAnswer
  pub verdict : Decision

abbrev pub has_accepted_consent : PaymentRequest → Bool
has_accepted_consent p = elim p.payee_consent [ none ↦ false | some c ↦ is_accepted c.decision ]

-- A claim that is null or empty is no claim.
abbrev claim : Option Text → Option Text
claim none = none
claim (some []) = none
claim (some (c ∷ t)) = some (c ∷ t)

abbrev match_input : PaymentRequest → Vendor → VendorWallet → Text → Text → VendorMatchInput
match_input p vendor wallet name pan = record {
  vendor_id = vendor.id;
  claimed_name_hmac = name;
  claimed_pan_hmac = pan;
  wallet_address = wallet.address;
  network = wallet.network;
  token_contract = claim wallet.token_contract;
}

abbrev decision_input :
    PaymentRequest → Vendor → VendorWallet → Db → Bool → Bool → Bool → DecisionInput
decision_input p vendor wallet db matched hit granted = record {
  vendor_wallet = record {
    status = wallet.status;
    address = wallet.address;
    network = wallet.network;
  };
  verification_tier = vendor.verification_tier;
  matched = matched;
  sanctions_hit = hit;
  is_duplicate = is_duplicate_invoice p db;
  is_new_or_changed_address = is_first_payment_to_address p wallet db;
  on_chain_kyc_granted = granted;
  amount = p.amount;
}

abbrev query : Vendor → VendorWallet → SanctionsQuery
query vendor wallet = record {
  vendor_id = vendor.id;
  legal_name = display_name vendor;
  wallet_address = wallet.address;
  network = wallet.network;
  country = vendor.country;
}

-- The lookups and the verdict, for a payment that may be decided.
unfoldable pub gather : Deps → Gatherers → PaymentRequest → Db → Result Gathered
gather deps g p db = do
  vendor ← find_vendor p.vendor_id db
  wallet ← find_wallet p.vendor_wallet_id db
  name ← present (claim p.claimed_payee_name_hmac) unprocessable
  pan ← present (claim p.claimed_payee_pan_hmac) unprocessable
  answer ← g.match (match_input p vendor wallet name pan)
  hit ← g.screen (query vendor wallet)
  granted ← is_kyc_granted_on_chain g wallet.address
  ok (record {
    answer = answer;
    verdict =
        decide (decision_input p vendor wallet db answer.match hit granted) deps.tier_thresholds;
  })

-- The update of the payment row.
unfoldable pub decided : Decision → PaymentRequest → PaymentRequest
decided v p = record p {
  decision = some v.decision;
  decision_reason_code = some v.reason_code;
  status = if proceeds v.decision then awaiting_approval else decision_pending;
}

abbrev mismatch_alert : ℕ → PaymentRequest → Text → Text → Notification
mismatch_alert now p payer reason = record {
  vendor_id = p.vendor_id;
  kind = NotificationKind.identity_mismatch;
  payment_request_id = p.id;
  payload = Rows.identity_mismatch payer reason p.invoice_ref;
  created_at = now;
}

-- The alert to a payee whose identity somebody got wrong, where the payer is known.
unfoldable pub alert : ℕ → MatchAnswer → PaymentRequest → Db → Db
alert now answer p db = elim p.payer_vendor_id [
  | none ↦ db
  | some payer ↦
      if answer.match
      then db
      else add_notification (mismatch_alert now p payer answer.reason_code) db
]

abbrev pub is_duplicate_reason : DecisionReasonCode → Bool
is_duplicate_reason duplicate_payment = true
is_duplicate_reason _ = false

-- A blocked duplicate opens a case.
unfoldable pub open_duplicate :
    Deps → ℕ → Text → DecisionReasonCode → PaymentRequest → Result PaymentRequest
open_duplicate deps now case_id reason p =
    if is_duplicate_reason reason
    then create_within deps now case_id ExceptionType.duplicate (codes "decision-engine") p
    else ok p

-- The writes of the transaction on the payment: the verdict, two evidence records, the case.
unfoldable pub write_decision : Deps → ℕ → Text → Gathered → PaymentRequest → Result PaymentRequest
write_decision deps now case_id f p = do
  q ←
      append deps.platform now
        (vendor_match f.answer.match none f.answer.reason_code deps.matcher_kind)
        (decided f.verdict p)
  r ←
      append deps.platform now
        (decision f.verdict.decision f.verdict.reason_code none
          (Option.map deps.platform.decimal_text f.verdict.tier_limit_applied))
        q
  open_duplicate deps now case_id f.verdict.reason_code r

-- `runDecision`: the verdict, the recommended settlement mode, and the database after it.
unfoldable pub run_decision :
    Deps → Gatherers → ℕ → Text → Text → Db → Result (Decision × SettlementMode × Db)
run_decision deps g now case_id payment_id db = do
  p ← find_payment payment_id db
  require (is_status p.status draft || is_status p.status decision_pending) conflict
  require (has_accepted_consent p) unprocessable
  f ← gather deps g p db
  q ← write_decision deps now case_id f p
  ok (
    f.verdict,
    recommend_settlement_mode f.verdict.reason_code,
    save_payment q (alert now f.answer p db),
  )
