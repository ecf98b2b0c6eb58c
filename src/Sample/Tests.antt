-- ===== src/Sample/Tests.antt =====
-- The theorems on the services, at the payment of the small world.
use securtxn.Prelude.{
  ◌≡◌, ◌↔◌, refl, is_some, drop, true, Option, none, some, List, [], ◌∷◌, codes, Text, length, ok,
  leb, ℕ, Bool, ◌&&◌,
}
use securtxn.Types.{HtlcStatus, claimed}
use securtxn.Evidence.Chain.{
  ChainRecord, verify_chain, valid, broken, not_from_genesis, genesis_previous_hash,
}
use securtxn.Evidence.Chain.Laws.{
  Holds, verify_chain-eq-valid_iff, FirstBreak, verify_chain-FirstBreak,
}
use securtxn.Store.Rows.{PaymentRequest, HtlcSettlement, Db}
use securtxn.Store.Queries.{find_payment}
use securtxn.Consent.Checks.{is_settled}
use securtxn.Consent.Laws.{Agreed, decide_consent-Agreed}
use securtxn.Settle.{Broadcast, funds_returned}
use securtxn.Settle.Escrow.{settle}
use securtxn.Settle.Once.{settle-once}
use securtxn.Settle.Payee.{Authority, settle-Authority}
use securtxn.Settle.Recover.{release_secret, sweep_refunds}
use securtxn.Settle.Recover.Laws.{HandedOver, release_secret-HandedOver}
use securtxn.Settlement.Laws.{Refuses, record_claim-Refuses, record_refund-Refuses}
use securtxn.Lifecycle.{has_agreed, has_verdict, is_released, opens}
use securtxn.Lifecycle.Promises.{Reached-authorised, Reached-claimed}
use securtxn.Sample.{deps, platform, acceptance, gateway, secret, toy_hash, db_of}
use securtxn.Sample.Run.{
  run, id, claim, after_create, after_request, after_consent, after_decision, after_settle,
  after_claim, after_refund, Reached-after_decision, Reached-after_claim, settle_returned,
  claim_returned, refund_returned, consent_returned, payment_in, payment_returned,
}

abbrev claimed_payment : PaymentRequest
claimed_payment = payment_in (find_payment id after_claim)

claimed_payment_found : find_payment id after_claim ≡ ok claimed_payment
unfolding run after_create after_request after_consent after_decision after_settle after_claim
claimed_payment_found = payment_returned (find_payment id after_claim) refl

abbrev none_earlier : ℕ → List ChainRecord → Bool
none_earlier t [] = true
none_earlier t (r ∷ rs) = leb t r.created_at && none_earlier t rs

abbrev is_ascending : List ChainRecord → Bool
is_ascending [] = true
is_ascending (r ∷ rs) = none_earlier r.created_at rs && is_ascending rs

claimed_payment_released : is_released claimed_payment.status ≡ true
unfolding run after_create after_request after_consent after_decision after_settle after_claim
claimed_payment_released = refl

Reached-authorised_example :
    (has_agreed claimed_payment.payee_consent ≡ true)
    × (has_verdict claimed_payment.decision ≡ true)
Reached-authorised_example =
    Reached-authorised deps after_claim id claimed_payment Reached-after_claim claimed_payment_found
      claimed_payment_released

-- The escrow of the payment, where it has one.
abbrev escrow_or : HtlcSettlement → Option HtlcSettlement → HtlcSettlement
escrow_or other none = other
escrow_or other (some s) = s

-- Read only where the payment has an escrow.
abbrev no_row : HtlcSettlement
no_row = record {
  escrow_address = [];
  lock_id = [];
  hashlock = [];
  timelock = 0;
  payer_address = [];
  payee_address = [];
  token_address = [];
  amount = 0;
  on_chain_amount = 0;
  status = HtlcStatus.refunded;
  lock_tx_hash = none;
  claim_tx_hash = none;
  refund_tx_hash = none;
  preimage = none;
  preimage_blob = none;
  preimage_released_at = none;
  settled_at = none;
}

abbrev claimed_escrow : HtlcSettlement
claimed_escrow = escrow_or no_row claimed_payment.htlc_settlement

claimed_escrow_there : claimed_payment.htlc_settlement ≡ some claimed_escrow
unfolding run after_create after_request after_consent after_decision after_settle after_claim
claimed_escrow_there = refl

claimed_escrow_status : claimed_escrow.status ≡ claimed
unfolding run after_create after_request after_consent after_decision after_settle after_claim
claimed_escrow_status = refl

Reached-claimed_example :
    (is_settled claimed_payment.status ≡ true)
    × (is_some claimed_payment.recipient_ack ≡ true)
    × (opens platform claimed_escrow claimed_escrow.preimage ≡ true)
Reached-claimed_example =
    Reached-claimed deps after_claim id claimed_payment claimed_escrow Reached-after_claim
      claimed_payment_found claimed_escrow_there claimed_escrow_status

abbrev after_release : Db
after_release = db_of (release_secret deps 4500 id (codes "signed") after_settle)

secret_returned :
    release_secret deps 4500 id (codes "signed") after_settle ≡ ok (secret, after_release)
unfolding run after_create after_request after_consent after_decision after_settle
secret_returned = refl

release_secret-HandedOver_example : HandedOver deps 4500 id (codes "signed") secret after_settle
release_secret-HandedOver_example =
    release_secret-HandedOver deps 4500 id (codes "signed") secret after_settle after_release
      secret_returned

decide_consent-Agreed_example : Agreed deps id acceptance after_request
decide_consent-Agreed_example =
    decide_consent-Agreed deps 2000 id acceptance after_request after_consent refl consent_returned

settle-once_example :
    (settle deps gateway 6000 secret (some 600) (codes "boss") id after_settle).broadcast ≡ []
settle-once_example =
    settle-once deps gateway gateway 4000 6000 secret secret none (some 600) (codes "boss")
      (codes "boss") id after_decision after_settle settle_returned

abbrev first_broadcast : List Broadcast → Broadcast
first_broadcast [] = funds_returned []
first_broadcast (b ∷ bs) = b

abbrev sent_out : Broadcast
sent_out =
    first_broadcast
      (settle deps gateway 4000 secret none (codes "boss") id after_decision).broadcast

sent_out_alone :
    (settle deps gateway 4000 secret none (codes "boss") id after_decision).broadcast
    ≡ sent_out ∷ []
unfolding run after_create after_request after_consent after_decision
sent_out_alone = refl

settle-Authority_example : Authority deps gateway id after_decision (sent_out ∷ [])
settle-Authority_example =
    settle-Authority deps gateway 4000 secret none (codes "boss") id after_decision sent_out []
      Reached-after_decision sent_out_alone

record_claim-Refuses_example : Refuses deps id after_claim
record_claim-Refuses_example =
    record_claim-Refuses deps 5000 id claim after_settle after_claim claim_returned

record_refund-Refuses_example : Refuses deps id after_refund
record_refund-Refuses_example =
    record_refund-Refuses deps 9000000 (codes "c") id (toy_hash (codes "refund")) after_settle
      after_refund refund_returned

abbrev same_case : Text → Text
same_case payment = codes "case"

swept_one :
    length (sweep_refunds deps gateway 9000000 (codes "ops") same_case after_settle).refunded ≡ 1
unfolding run after_create after_request after_consent after_decision after_settle
swept_one = refl

abbrev records : List ChainRecord
records = claimed_payment.evidence_records

verify_chain-eq-valid_iff_example :
    (verify_chain platform records ≡ valid) ↔ Holds platform genesis_previous_hash records
verify_chain-eq-valid_iff_example = verify_chain-eq-valid_iff platform records

without_first : verify_chain platform (drop 1 records) ≡ broken 0 not_from_genesis
unfolding run after_create after_request after_consent after_decision after_settle after_claim
without_first = refl

verify_chain-FirstBreak_example :
    FirstBreak platform 0 genesis_previous_hash (drop 1 records) 0 not_from_genesis
verify_chain-FirstBreak_example =
    verify_chain-FirstBreak platform (drop 1 records) 0 not_from_genesis without_first
