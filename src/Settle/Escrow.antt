-- ===== src/Settle/Escrow.antt =====
-- apps/api/src/modules/payments/settle.ts: the two ways of opening an escrow, from the treasury or
-- by an instruction to the payer, and `settle`, which chooses.
use securtxn.Prelude.{
  ℕ, not, ◌&&◌, ◌+◌, ◌*◌, ◌/◌, ◌^◌, Option, none, some, [], ◌∷◌, Text, codes, text_eq, filter,
  if◌then◌else◌, is_some, or_else, Result, ok, require, present, ◌>>=◌, ◌>>◌, unprocessable,
  unique_violation,
}
use securtxn.Types.{approved, is_htlc, is_confirmed, pending_lock}
use securtxn.Deps.{Deps}
use securtxn.Htlc.{hashlock_for, payment_ref_for, compute_lock_id}
use securtxn.Store.Rows.{PaymentRequest, HtlcSettlement, Db}
use securtxn.Store.Queries.{newest, save_payment}
use securtxn.Settlement.Record.{RecordLockRequest, lock_taken, write_lock_record}
use securtxn.Settle.Units.{from_base_units}
use securtxn.Settle.{
  attempt, submit, ChainGateway, LockInput, LockOutput, funds_locked, Outcome, Plan,
  plan_settlement, settle_directly, write_sent,
}

-- `escrowAddressOf`: the zero address where none is configured.
unfoldable pub escrow_address_of : Deps → Text
escrow_address_of deps =
    or_else deps.htlc_contract_address (codes "0x0000000000000000000000000000000000000000")

-- `input.timelockSeconds ?? config.HTLC_TIMELOCK_SECONDS` from now, in milliseconds.
unfoldable pub timelock_of : Deps → ℕ → Option ℕ → ℕ
timelock_of deps now seconds = now + or_else seconds deps.htlc_timelock_seconds * 1000

-- The decimal that the text of `fromBaseUnits` denotes, in units of 10⁻¹⁸ like the column.
abbrev pub amount_of : Plan → ℕ
amount_of plan = plan.base_units * 10 ^ 18 / 10 ^ plan.decimals

abbrev pub lock_input : Plan → Text → ℕ → LockInput
lock_input plan hashlock timelock = record {
  payment_request_id = plan.payment.id;
  payee = plan.payee;
  token = plan.token;
  amount = plan.base_units;
  hashlock = hashlock;
  timelock = timelock;
}

abbrev pub lock_request : Deps → Plan → Text → ℕ → LockOutput → RecordLockRequest
lock_request deps plan hashlock timelock locked = record {
  escrow_address = escrow_address_of deps;
  lock_id = locked.lock_id;
  hashlock = hashlock;
  timelock = timelock;
  payer_address = locked.payer;
  token_address = plan.token;
  amount_text = from_base_units plan.base_units plan.decimals;
  amount = amount_of plan;
  on_chain_amount = plan.base_units;
  lock_tx_hash = locked.lock_tx_hash;
}

-- The transaction that follows the lock.
unfoldable pub record_escrow :
    Deps → ℕ → Db → Text → Text → ℕ → LockOutput → Text → Plan → Result PaymentRequest
record_escrow deps now db preimage hashlock timelock locked approver plan = do
  q ←
      write_lock_record deps now db plan.payee (some preimage)
        (lock_request deps plan hashlock timelock locked) plan.payment
  write_sent deps now locked.lock_tx_hash approver plan.payee q

-- `settleThroughEscrow`
unfoldable pub settle_through_escrow :
    Deps → ChainGateway → ℕ → Text → Option ℕ → Text → Plan → Db → Outcome
settle_through_escrow deps chain now preimage seconds approver plan db =
    let hashlock = hashlock_for deps.platform preimage in
    let timelock = timelock_of deps now seconds in
    let input = lock_input plan hashlock timelock in
    submit chain (funds_locked input) (chain.lock input) λ locked. record {
      broadcast = funds_locked input ∷ [];
      result = record_escrow deps now db preimage hashlock timelock locked approver plan >>= λ q.
          ok (save_payment q db);
    }

-- `payerAddressFor`: the newest confirmed wallet of the payer's.
unfoldable pub payer_address_for : Option Text → Db → Result Text
payer_address_for payer db = do
  id ← present payer unprocessable
  wallet ←
      present
        (newest (λ w. w.version)
          (filter (λ w. text_eq w.vendor_id id && is_confirmed w.status) db.vendor_wallets))
        unprocessable
  ok wallet.address

-- The lock id that the contract will derive, with the timelock in seconds.
abbrev pub prepared_lock_id : Deps → Plan → Text → Text → ℕ → Text
prepared_lock_id deps plan payer hashlock timelock = compute_lock_id deps.platform (record {
  payment_ref = payment_ref_for deps.platform plan.payment.id;
  payer = payer;
  payee = plan.payee;
  token = plan.token;
  amount = plan.base_units;
  hashlock = hashlock;
  timelock = timelock / 1000;
})

-- The row that `prepareEscrowForPayer` inserts: no transaction exists yet.
unfoldable pub prepared_row : Deps → Plan → Text → Text → ℕ → HtlcSettlement
prepared_row deps plan payer preimage timelock =
    let hashlock = hashlock_for deps.platform preimage in
    record {
      escrow_address = escrow_address_of deps;
      lock_id = prepared_lock_id deps plan payer hashlock timelock;
      hashlock = hashlock;
      timelock = timelock;
      payer_address = payer;
      payee_address = plan.payee;
      token_address = plan.token;
      amount = amount_of plan;
      on_chain_amount = plan.base_units;
      status = pending_lock;
      lock_tx_hash = none;
      claim_tx_hash = none;
      refund_tx_hash = none;
      preimage = none;
      preimage_blob = some preimage;
      preimage_released_at = none;
      settled_at = none;
    }

-- `prepareEscrowForPayer`: the payment is approved, and nothing is broadcast.
unfoldable pub prepare_escrow_for_payer : Deps → ℕ → Text → Option ℕ → Plan → Db → Result Db
prepare_escrow_for_payer deps now preimage seconds plan db = do
  payer ← payer_address_for plan.payment.payer_vendor_id db
  require (not (is_some plan.payment.htlc_settlement)) unique_violation
  require
      (not (
        lock_taken (prepared_row deps plan payer preimage (timelock_of deps now seconds)).lock_id
          db))
      unique_violation
  ok (
      save_payment
        (record plan.payment {
          htlc_settlement =
              some (prepared_row deps plan payer preimage (timelock_of deps now seconds));
          status = approved;
        })
        db)

-- The fork of `settle`, by the mode, by who funds, and by whether the gateway broadcasts.
unfoldable pub carry_out : Deps → ChainGateway → ℕ → Text → Option ℕ → Text → Plan → Db → Outcome
carry_out deps chain now preimage seconds approver plan db =
    if not (is_htlc plan.payment.settlement_mode)
    then settle_directly deps chain now approver plan db
    else if deps.settlement_funding_payer && chain.broadcasts
    then record {
      broadcast = [];
      result = prepare_escrow_for_payer deps now preimage seconds plan db;
    }
    else settle_through_escrow deps chain now preimage seconds approver plan db

-- `settle`
unfoldable pub settle : Deps → ChainGateway → ℕ → Text → Option ℕ → Text → Text → Db → Outcome
settle deps chain now preimage seconds approver payment_id db =
    attempt (plan_settlement deps chain payment_id db)
      λ plan. carry_out deps chain now preimage seconds approver plan db
