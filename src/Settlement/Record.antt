-- ===== src/Settlement/Record.antt =====
-- apps/api/src/modules/payments/settlement.ts: recording an escrow that was opened, by the treasury
-- or by the payer.
use securtxn.Prelude.{
  ℕ, Bool, false, any, not, ◌/◌, Option, none, some, Text, text_eq, lower, if◌then◌else◌, is_some,
  Result, ok, err, require, ◌>>=◌, ◌>>◌, conflict, unprocessable, unique_violation,
}
use securtxn.Types.{approved, sent, is_status, locked, is_htlc, is_pending_lock}
use securtxn.Platform.{Platform}
use securtxn.Deps.{Deps}
use securtxn.Htlc.{payment_ref_for, compute_lock_id}
use securtxn.Store.Rows.{PaymentRequest, HtlcSettlement, VendorWallet, Db}
use securtxn.Store.Queries.{find_payment, find_wallet, save_payment}
use securtxn.Evidence.Payload.{htlc_locked, payer}
use securtxn.Evidence.Service.{append}
use securtxn.Consent.Checks.{is_settled}

-- `amount` is the decimal that `amountText` denotes, `timelock` the time in milliseconds, and
-- `on_chain_amount` the integer that was sent as digits.
pub record RecordLockRequest : Type 0 where
  pub escrow_address : Text
  pub lock_id : Text
  pub hashlock : Text
  pub timelock : ℕ
  pub payer_address : Text
  pub token_address : Text
  pub amount_text : Text
  pub amount : ℕ
  pub on_chain_amount : ℕ
  pub lock_tx_hash : Text

-- The row that `writeLockRecord` inserts; the database sets `status` to LOCKED.
abbrev pub lock_row : Text → Option Text → RecordLockRequest → HtlcSettlement
lock_row payee preimage_blob i = record {
  escrow_address = i.escrow_address;
  lock_id = i.lock_id;
  hashlock = i.hashlock;
  timelock = i.timelock;
  payer_address = i.payer_address;
  payee_address = payee;
  token_address = i.token_address;
  amount = i.amount;
  on_chain_amount = i.on_chain_amount;
  status = locked;
  lock_tx_hash = some i.lock_tx_hash;
  claim_tx_hash = none;
  refund_tx_hash = none;
  preimage = none;
  preimage_blob = preimage_blob;
  preimage_released_at = none;
  settled_at = none;
}

abbrev has_lock : Text → Option HtlcSettlement → Bool
has_lock lock_id none = false
has_lock lock_id (some s) = text_eq s.lock_id lock_id

-- The unique index on `lockId`, over all payments.
unfoldable pub lock_taken : Text → Db → Bool
lock_taken lock_id db = any (λ p. has_lock lock_id p.htlc_settlement) db.payment_requests

-- `writeLockRecord`, in a transaction. A second escrow of the payment breaks a unique constraint, as
-- does a lock id that is on file.
unfoldable pub write_lock_record :
    Deps → ℕ → Db → Text → Option Text → RecordLockRequest → PaymentRequest → Result PaymentRequest
write_lock_record deps now db payee preimage_blob i p = do
  require (not (is_some p.htlc_settlement)) unique_violation
  require (not (lock_taken i.lock_id db)) unique_violation
  append deps.platform now
      (htlc_locked i.escrow_address i.lock_id i.hashlock (deps.platform.to_iso_string i.timelock)
        i.amount_text i.lock_tx_hash none none)
      (record p { htlc_settlement = some (lock_row payee preimage_blob i) })

-- The lock id that the contract derives from the reported parameters and the payment's own payee.
unfoldable pub expected_lock_id :
    Platform → PaymentRequest → VendorWallet → RecordLockRequest → Text
expected_lock_id pf p wallet i = compute_lock_id pf (record {
  payment_ref = payment_ref_for pf p.id;
  payer = i.payer_address;
  payee = wallet.address;
  token = i.token_address;
  amount = i.on_chain_amount;
  hashlock = i.hashlock;
  timelock = i.timelock / 1000;
})

abbrev pub same_id : Text → Text → Bool
same_id a b = text_eq (lower a) (lower b)

-- A prepared escrow that the payer has funded: the row is updated, and the payment is sent.
unfoldable pub fund_prepared :
    Deps → ℕ → HtlcSettlement → RecordLockRequest → PaymentRequest → Result PaymentRequest
fund_prepared deps now s i p = do
  require (same_id s.lock_id i.lock_id) unprocessable
  append deps.platform now
      (htlc_locked s.escrow_address s.lock_id s.hashlock (deps.platform.to_iso_string s.timelock)
        (deps.platform.decimal_text s.amount) i.lock_tx_hash (some payer) (some s.payer_address))
      (record p {
        htlc_settlement = some (record s { status = locked; lock_tx_hash = some i.lock_tx_hash });
        status = sent;
        tx_hash = some i.lock_tx_hash;
      })

-- The two ways on, by the escrow that is there: none, or one that waits to be funded.
unfoldable pub lock_by_state :
    Deps
    → ℕ
    → Db
    → VendorWallet
    → RecordLockRequest
    → PaymentRequest
    → Option HtlcSettlement
    → Result PaymentRequest
lock_by_state deps now db wallet i p none = do
  require (is_settled p.status) unprocessable
  require (same_id (expected_lock_id deps.platform p wallet i) i.lock_id) unprocessable
  write_lock_record deps now db wallet.address none i p
lock_by_state deps now db wallet i p (some s) =
    if is_pending_lock s.status
    then (do
      require (is_status p.status approved) unprocessable
      require (same_id (expected_lock_id deps.platform p wallet i) i.lock_id) unprocessable
      fund_prepared deps now s i p)
    else (require (is_settled p.status) unprocessable >>= λ _. err conflict)

-- `recordLock`
unfoldable pub record_lock : Deps → ℕ → Text → RecordLockRequest → Db → Result Db
record_lock deps now payment_id i db = do
  p ← find_payment payment_id db
  wallet ← find_wallet p.vendor_wallet_id db
  require (is_htlc p.settlement_mode) unprocessable
  q ← lock_by_state deps now db wallet i p p.htlc_settlement
  ok (save_payment q db)
