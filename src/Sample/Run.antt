-- ===== src/Sample/Run.antt =====
-- The life of one payment in the small world, from its creation to the claim of its escrow.
use securtxn.Prelude.{
  text_eq, text_lt, to_lower, ◌≡◌, refl, true, codes, Text, none, Result, ok, err,
}
use securtxn.Types.{is_status}
use securtxn.Challenge.{assess_payee_challenge}
use securtxn.Decision.{decide, recommend_settlement_mode}
use securtxn.Json.{serialise, quote}
use securtxn.Evidence.Payload.{is_evm_address, is_bytes32, is_amount_string, event_ok, payload_ok}
use securtxn.Evidence.Payload.Value.{event_members, payload_value}
use securtxn.Evidence.Chain.{
  genesis_previous_hash, canonicalize, record_digest, compute_record_hash, check_record,
  verify_from, verify_chain,
}
use securtxn.Evidence.Service.{
  comes_first, latest, by_time, previous_hash, links_to, append, get_chain, append_standalone,
  access_once, record_access,
}
use securtxn.Store.Queries.{
  find, put, first, newest, oldest, find_payment, find_vendor, find_wallet, save_payment,
}
use securtxn.Eip712.{
  build_payee_consent_message, build_acknowledgment_message, build_secret_release_message,
  verify_payee_consent, verify_acknowledgment, verify_secret_release,
}
use securtxn.Htlc.{hashlock_for, payment_ref_for, compute_lock_id}
use securtxn.Exceptions.{
  create_within, open_exception, updated_case, find_by_case, update_exception,
}
use securtxn.Exceptions.Playbooks.{playbook_for}
use securtxn.Consent.{
  is_blocked, append_check, request, consent_request_ok, admit_acceptance, decide_consent,
}
use securtxn.Consent.Checks.{
  sender_signal, payee_signal, matches_enrolment, sender_check_of, require_sender_check,
  require_world_id_check, assess,
}
use securtxn.EntityName.{
  normalise_entity_name, dedupe, insert_text, sort_texts, canonical_tokens, canonical_entity_name,
}
use securtxn.Payments.{commitment_for, new_payment, create}
use securtxn.Payments.Decide.{
  is_kyc_granted_on_chain, is_duplicate_invoice, is_first_payment_to_address, display_name, gather,
  decided, alert, open_duplicate, write_decision, run_decision,
}
use securtxn.Payments.Acknowledge.{commitment_over, acknowledge}
use securtxn.Approvals.{propose, find_by_proposal, list_pending, report_sent}
use securtxn.Settlement.{load_settlement, claimed_with, record_claim, refunded_with, record_refund}
use securtxn.Settlement.Record.{
  lock_taken, write_lock_record, expected_lock_id, fund_prepared, lock_by_state, record_lock,
}
use securtxn.Settle.{resolve_token, treasury_covers, plan_settlement, write_sent, settle_directly}
use securtxn.Settle.Units.{
  digits, print, parse_from, parse, before_point, after_point, pad_end, pad_start, to_base_units,
  take_front, strip_zeros, from_base_units,
}
use securtxn.Settle.Escrow.{
  escrow_address_of, timelock_of, record_escrow, settle_through_escrow, payer_address_for,
  prepared_row, prepare_escrow_for_payer, carry_out, settle,
}
use securtxn.Settle.Recover.{
  release_secret, open_unless_open, settle_refund, return_funds, refundable, execute_refund,
  insert_due, all_due, swept, sweep_from, sweep_refunds,
}
use securtxn.Types.{SettlementMode}
use securtxn.Decision.{Decision}
use securtxn.Lifecycle.Steps.{
  Reached, at_first, then_by, created, requested, answered, decided as decided_step, settled,
  claim_recorded,
}
use securtxn.Store.Rows.{Db, PaymentRequest}
use securtxn.Settlement.{RecordClaimRequest}
use securtxn.Sample.{
  deps, platform, at_start, new_request, acceptance, gatherers, gateway, secret, toy_hash, db_of,
  value_of, is_ok,
}

-- What the runs below compute with.
unfoldable pub run : Unit {0}
unfolding serialise text_eq text_lt to_lower is_status assess_payee_challenge decide
    recommend_settlement_mode quote is_evm_address is_bytes32 is_amount_string event_ok payload_ok
    event_members payload_value genesis_previous_hash canonicalize record_digest compute_record_hash
    check_record verify_from verify_chain comes_first latest by_time previous_hash links_to append
    get_chain append_standalone access_once record_access find put first newest oldest find_payment
    find_vendor find_wallet save_payment build_payee_consent_message build_acknowledgment_message
    build_secret_release_message verify_payee_consent verify_acknowledgment verify_secret_release
    hashlock_for payment_ref_for compute_lock_id create_within open_exception updated_case
    find_by_case update_exception playbook_for is_blocked append_check request consent_request_ok
    admit_acceptance decide_consent sender_signal payee_signal matches_enrolment sender_check_of
    require_sender_check require_world_id_check assess normalise_entity_name dedupe insert_text
    sort_texts canonical_tokens canonical_entity_name commitment_for new_payment create
    is_kyc_granted_on_chain is_duplicate_invoice is_first_payment_to_address display_name gather
    decided alert open_duplicate write_decision run_decision commitment_over acknowledge propose
    find_by_proposal list_pending report_sent load_settlement claimed_with record_claim
    refunded_with record_refund lock_taken write_lock_record expected_lock_id fund_prepared
    lock_by_state record_lock resolve_token treasury_covers plan_settlement write_sent
    settle_directly digits print parse_from parse before_point after_point pad_end pad_start
    to_base_units take_front strip_zeros from_base_units escrow_address_of timelock_of record_escrow
    settle_through_escrow payer_address_for prepared_row prepare_escrow_for_payer carry_out settle
    release_secret open_unless_open settle_refund return_funds refundable execute_refund insert_due
    all_due swept sweep_from sweep_refunds
run = tt

abbrev pub id : Text
id = codes "p1"

-- The mode that is recommended beside the verdict is left out.
abbrev drop_mode : Result (Decision × SettlementMode × Db) → Result (Decision × Db)
drop_mode (ok (v, t, db)) = ok (v, db)
drop_mode (err e) = err e

unfoldable pub after_create : Db
after_create = db_of (create platform id new_request at_start)

unfoldable pub after_request : Db
after_request = db_of (request deps 1000 id after_create)

unfoldable pub after_consent : Db
after_consent = value_of (decide_consent deps 2000 id acceptance after_request)

unfoldable pub after_decision : Db
after_decision = db_of (drop_mode (run_decision deps gatherers 3000 (codes "c") id after_consent))

unfoldable pub after_settle : Db
after_settle =
    value_of (settle deps gateway 4000 secret none (codes "boss") id after_decision).result

abbrev pub claim : RecordClaimRequest
claim = record { preimage = secret; claim_tx_hash = toy_hash (codes "claim") }

unfoldable pub after_claim : Db
after_claim = value_of (record_claim deps 5000 id claim after_settle)

-- An hour after the settlement the escrow has expired.
unfoldable pub after_refund : Db
after_refund =
    value_of (record_refund deps 9000000 (codes "c") id (toy_hash (codes "refund")) after_settle)

returned : {A : Type 0} (m : Result (A × Db)) → is_ok m ≡ true → (a : A) × (m ≡ ok (a, db_of m))
returned (ok (a, db)) h = (a, refl)
returned (err e) h = cc

value_returned : (m : Result Db) → is_ok m ≡ true → m ≡ ok (value_of m)
value_returned (ok db) h = refl
value_returned (err e) h = cc

mode_returned :
    (m : Result (Decision × SettlementMode × Db))
    → is_ok m ≡ true
    → (v : Decision) × (t : SettlementMode) × (m ≡ ok (v, t, db_of (drop_mode m)))
mode_returned (ok (v, t, db)) h = (v, t, refl)
mode_returned (err e) h = cc

create_ok : is_ok (create platform id new_request at_start) ≡ true
unfolding run
create_ok = refl

request_ok : is_ok (request deps 1000 id after_create) ≡ true
unfolding run after_create
request_ok = refl

consent_ok : is_ok (decide_consent deps 2000 id acceptance after_request) ≡ true
unfolding run after_create after_request
consent_ok = refl

decision_ok : is_ok (run_decision deps gatherers 3000 (codes "c") id after_consent) ≡ true
unfolding run after_create after_request after_consent
decision_ok = refl

settle_ok :
    is_ok (settle deps gateway 4000 secret none (codes "boss") id after_decision).result ≡ true
unfolding run after_create after_request after_consent after_decision
settle_ok = refl

claim_ok : is_ok (record_claim deps 5000 id claim after_settle) ≡ true
unfolding run after_create after_request after_consent after_decision after_settle
claim_ok = refl

refund_ok :
    is_ok (record_refund deps 9000000 (codes "c") id (toy_hash (codes "refund")) after_settle)
    ≡ true
unfolding run after_create after_request after_consent after_decision after_settle
refund_ok = refl

pub Reached-after_decision : Reached deps after_decision
unfolding after_decision after_consent after_request after_create
Reached-after_decision =
    let r₁ = returned (create platform id new_request at_start) create_ok in
    let r₂ = returned (request deps 1000 id after_create) request_ok in
    let r₃ = value_returned (decide_consent deps 2000 id acceptance after_request) consent_ok in
    let (v, t, r₄) =
      mode_returned (run_decision deps gatherers 3000 (codes "c") id after_consent) decision_ok in
    then_by
      (then_by
        (then_by (then_by (at_first refl) (created id new_request r₁.1)) (requested 1000 id r₂.1))
        (answered 2000 id acceptance r₃))
      (decided_step gatherers 3000 (codes "c") id r₄)

pub consent_returned : decide_consent deps 2000 id acceptance after_request ≡ ok after_consent
unfolding after_consent
consent_returned = value_returned _ consent_ok

pub settle_returned :
    (settle deps gateway 4000 secret none (codes "boss") id after_decision).result ≡ ok after_settle
unfolding after_settle
settle_returned = value_returned _ settle_ok

pub claim_returned : record_claim deps 5000 id claim after_settle ≡ ok after_claim
unfolding after_claim
claim_returned = value_returned _ claim_ok

pub refund_returned :
    record_refund deps 9000000 (codes "c") id (toy_hash (codes "refund")) after_settle
    ≡ ok after_refund
unfolding after_refund
refund_returned = value_returned _ refund_ok

pub Reached-after_settle : Reached deps after_settle
Reached-after_settle =
    then_by Reached-after_decision
      (settled gateway 4000 secret none (codes "boss") id settle_returned)

pub Reached-after_claim : Reached deps after_claim
Reached-after_claim = then_by Reached-after_settle (claim_recorded 5000 id claim claim_returned)

-- The payment that was found.
abbrev pub payment_in : Result PaymentRequest → PaymentRequest
payment_in (ok p) = p
payment_in (err e) = new_payment platform id new_request

pub payment_returned : (m : Result PaymentRequest) → is_ok m ≡ true → m ≡ ok (payment_in m)
payment_returned (ok p) h = refl
payment_returned (err e) h = cc
