-- ===== src/Payments/Acknowledge.antt =====
-- apps/api/src/modules/payments/service.ts, `acknowledge`: the payee's signed receipt. The encrypted
-- copy of the context that is stored beside it is not modelled.
use securtxn.Prelude.{
  ℕ, not, Option, none, some, Text, codes, text_eq, lower, is_some, Result, ok, require, ◌>>=◌,
  ◌>>◌, conflict, unprocessable,
}
use securtxn.Types.{eip712_signature}
use securtxn.Platform.{Platform}
use securtxn.Deps.{Deps}
use securtxn.Json.{JsValue, undefined, string, object, end, field, serialise}
use securtxn.Eip712.{build_acknowledgment_message, verify_acknowledgment}
use securtxn.Store.Rows.{PaymentRequest, Db}
use securtxn.Store.Queries.{find_payment, find_wallet, save_payment}
use securtxn.Evidence.Payload.{ack}
use securtxn.Evidence.Service.{append}
use securtxn.Consent.Checks.{is_settled}

pub record AcknowledgedContext : Type 0 where
  pub invoice_ref : Text
  pub amount : Text
  pub token : Text
  pub tx_hash : Text
  pub note : Option Text

pub record AcknowledgmentRequest : Type 0 where
  pub recipient_address : Text
  pub recipient_signature : Text
  pub acknowledged_context : AcknowledgedContext

abbrev note_value : Option Text → JsValue
note_value none = undefined
note_value (some t) = string t

abbrev context_value : AcknowledgedContext → JsValue
context_value c = object (
    field (codes "invoiceRef") (string c.invoice_ref) (
      field (codes "amount") (string c.amount) (
        field (codes "token") (string c.token) (
          field (codes "txHash") (string c.tx_hash)
            (field (codes "note") (note_value c.note) end)))))

-- `commitmentOver`: keccak256 over the context's JSON with sorted keys. The members are texts, for
-- which the canonical form is what `JSON.stringify` gives.
unfoldable pub commitment_over : Platform → AcknowledgedContext → Result Text
commitment_over pf c = serialise (context_value c) >>= λ text. ok (pf.keccak256 (pf.to_hex text))

abbrev pub acknowledged : AcknowledgmentRequest → Text → PaymentRequest → PaymentRequest
acknowledged input commitment p = record p {
  recipient_ack = some (record {
    recipient_address = input.recipient_address;
    method = eip712_signature;
    recipient_signature = some input.recipient_signature;
    claim_tx_hash = none;
    recipient_commitment = commitment;
  });
}

-- `acknowledge`
unfoldable pub acknowledge : Deps → ℕ → Text → AcknowledgmentRequest → Db → Result Db
acknowledge deps now payment_id input db = do
  p ← find_payment payment_id db
  require (is_settled p.status) unprocessable
  require (not (is_some p.recipient_ack)) conflict
  wallet ← find_wallet p.vendor_wallet_id db
  require (text_eq (lower input.recipient_address) (lower wallet.address)) unprocessable
  commitment ← commitment_over deps.platform input.acknowledged_context
  require
      (verify_acknowledgment deps.platform deps.hedera_chain_id input.recipient_address
        input.recipient_signature
        (build_acknowledgment_message p.id input.recipient_address commitment))
      unprocessable
  q ←
      append deps.platform now (ack input.recipient_address commitment eip712_signature)
        (acknowledged input commitment p)
  ok (save_payment q db)
