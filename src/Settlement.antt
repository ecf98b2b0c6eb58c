-- ===== src/Settlement.antt =====
-- apps/api/src/modules/payments/settlement.ts: recording what an escrow did. Nothing here broadcasts.
pub mod Record
pub mod Laws
use securtxn.Prelude.{
  ℕ, Bool, true, false, not, ◌&&◌, ◌||◌, Option, none, some, Text, codes, text_eq, lower,
  if◌then◌else◌, is_some, leb, Result, ok, err, require, present, ◌>>=◌, ◌>>◌, conflict,
  unprocessable, not_found,
}
use securtxn.Types.{
  PaymentStatus, exception, claimed, refunded, is_locked, htlc_claim, ExceptionType,
}
use securtxn.Deps.{Deps}
use securtxn.Htlc.{hashlock_for}
use securtxn.Store.Rows.{PaymentRequest, HtlcSettlement, RecipientAcknowledgment, Db}
use securtxn.Store.Queries.{find_payment, save_payment}
use securtxn.Evidence.Payload.{ack, htlc_claimed, htlc_refunded}
use securtxn.Evidence.Service.{append}
use securtxn.Exceptions.{create_within}

pub record RecordClaimRequest : Type 0 where
  pub preimage : Text
  pub claim_tx_hash : Text

-- `load`: the payment that has an escrow, and the escrow.
unfoldable pub load_settlement : Text → Db → Result (PaymentRequest × HtlcSettlement)
load_settlement payment_id db = do
  p ← find_payment payment_id db
  s ← present p.htlc_settlement not_found
  ok (p, s)

abbrev claim_ack : HtlcSettlement → Text → RecipientAcknowledgment
claim_ack s tx = record {
  recipient_address = s.payee_address;
  method = htlc_claim;
  recipient_signature = none;
  claim_tx_hash = some tx;
  recipient_commitment = s.hashlock;
}

abbrev keep_or : Option RecipientAcknowledgment → RecipientAcknowledgment → RecipientAcknowledgment
keep_or none a = a
keep_or (some existing) a = existing

-- The escrow is claimed; an acknowledgment that is there already stays.
unfoldable pub claimed_with :
    ℕ → RecordClaimRequest → HtlcSettlement → PaymentRequest → PaymentRequest
claimed_with now input s p = record p {
  htlc_settlement = some (record s {
    status = claimed;
    preimage = some input.preimage;
    claim_tx_hash = some input.claim_tx_hash;
    settled_at = some now;
  });
  recipient_ack = some (keep_or p.recipient_ack (claim_ack s input.claim_tx_hash));
}

-- `recordClaim`
unfoldable pub record_claim : Deps → ℕ → Text → RecordClaimRequest → Db → Result Db
record_claim deps now payment_id input db = do
  found ← load_settlement payment_id db
  require (is_locked (found.1).status) conflict
  require (text_eq (lower (hashlock_for deps.platform input.preimage)) (lower (found.1).hashlock))
      unprocessable
  q ←
      append deps.platform now
        (htlc_claimed (found.1).lock_id input.preimage (found.1).payee_address input.claim_tx_hash)
        (claimed_with now input found.1 found.0)
  r ← append deps.platform now (ack (found.1).payee_address (found.1).hashlock htlc_claim) q
  ok (save_payment r db)

-- The escrow is refunded, and the payment is an exception.
unfoldable pub refunded_with : ℕ → Text → HtlcSettlement → PaymentRequest → PaymentRequest
refunded_with now tx s p = record p {
  htlc_settlement =
      some (record s { status = refunded; refund_tx_hash = some tx; settled_at = some now });
  status = exception;
}

-- `settlement.timelock.getTime() > Date.now()`
abbrev pub is_expired : ℕ → HtlcSettlement → Bool
is_expired now s = leb s.timelock now

-- `recordRefund`. It opens a case whether or not there is one.
unfoldable pub record_refund : Deps → ℕ → Text → Text → Text → Db → Result Db
record_refund deps now case_id payment_id refund_tx_hash db = do
  found ← load_settlement payment_id db
  require (is_locked (found.1).status) conflict
  require (is_expired now found.1) unprocessable
  q ←
      append deps.platform now
        (htlc_refunded (found.1).lock_id (found.1).payer_address
          (deps.platform.decimal_text (found.1).amount) refund_tx_hash)
        (refunded_with now refund_tx_hash found.1 found.0)
  r ← create_within deps now case_id ExceptionType.misdirect (codes "htlc-settlement") q
  ok (save_payment r db)
