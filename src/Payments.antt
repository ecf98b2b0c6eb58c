-- ===== src/Payments.antt =====
-- apps/api/src/modules/payments/service.ts: creating a payment, the decision run, and the payee's
-- acknowledgment. The id of a new payment is an argument, as the database chooses it.
pub mod Decide
pub mod Acknowledge
use Prim.Native.Nat.{ℕ}
use securtxn.Prelude.{
  Bool, not, Option, none, some, List, [], ◌∷◌, ◌++◌, Text, codes, text_eq, Result, ok, err,
  require, present, ◌>>=◌, ◌>>◌, not_found, unprocessable, ◌&&◌,
}
use mathlib.Core.Option
use securtxn.Types.{SettlementMode, draft}
use securtxn.Platform.{Platform}
use securtxn.EntityName.{canonical_entity_name}
use securtxn.Store.Rows.{PaymentRequest, Db}
use securtxn.Store.Queries.{find, find_payment}

pub record CreatePaymentRequest : Type 0 where
  pub vendor_id : Text
  pub vendor_wallet_id : Text
  pub payer_vendor_id : Text
  pub intended_payee_name : Text
  pub intended_payee_pan : Text
  pub invoice_ref : Text
  -- the text that was sent, and the decimal that it denotes
  pub amount_text : Text
  pub amount : ℕ
  pub token : Text
  pub network : Text
  pub settlement_mode : SettlementMode

abbrev bar : Text → Text → Text
bar a b = a ++ b'|' ∷ b

-- `commitmentFor`: sha256 over the context, joined by bars.
unfoldable pub commitment_for : Platform → CreatePaymentRequest → Text
commitment_for pf i =
    codes "0x"
    ++ pf.sha256 (
        bar i.vendor_id
          (bar i.vendor_wallet_id (bar i.invoice_ref (bar i.amount_text (bar i.token i.network)))))

-- The row that `create` inserts: a draft, with the claim about the payee reduced to digests.
unfoldable pub new_payment : Platform → Text → CreatePaymentRequest → PaymentRequest
new_payment pf id i = record {
  id = id;
  vendor_id = i.vendor_id;
  vendor_wallet_id = i.vendor_wallet_id;
  payer_vendor_id = some i.payer_vendor_id;
  claimed_payee_name_hmac = Option.map pf.hmac (canonical_entity_name pf i.intended_payee_name);
  claimed_payee_pan_hmac = some (pf.hmac i.intended_payee_pan);
  invoice_ref = i.invoice_ref;
  amount = i.amount;
  token = i.token;
  network = i.network;
  sender_context_commitment = commitment_for pf i;
  settlement_mode = i.settlement_mode;
  decision = none;
  decision_reason_code = none;
  status = draft;
  tx_hash = none;
  payee_consent = none;
  proposal = none;
  approval_event = none;
  recipient_ack = none;
  htlc_settlement = none;
  exception_case = none;
  evidence_records = [];
}

abbrev add_payment : PaymentRequest → Db → Db
add_payment p db = record db { payment_requests = db.payment_requests ++ p ∷ [] }

-- `create`: the wallet has to belong to the named vendor and be on the named network.
unfoldable pub create : Platform → Text → CreatePaymentRequest → Db → Result (PaymentRequest × Db)
create pf new_id i db = do
  wallet ← present (find (λ w. w.id) i.vendor_wallet_id db.vendor_wallets) not_found
  require (text_eq wallet.vendor_id i.vendor_id) not_found
  require (text_eq wallet.network i.network) unprocessable
  ok (new_payment pf new_id i, add_payment (new_payment pf new_id i) db)
