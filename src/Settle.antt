-- ===== src/Settle.antt =====
-- apps/api/src/modules/payments/settle.ts: releasing an approved payment. The chain gateway
-- (apps/api/src/lib/chain.ts) is an argument, as is the secret that `newPreimage` draws. A result
-- comes with what was broadcast before it: an error beside a broadcast is money that moved and no
-- record of it.
pub mod Units
pub mod Escrow
pub mod Recover
pub mod Once
pub mod Payee
use securtxn.Prelude.{
  ℕ, zero, Bool, true, false, not, ◌&&◌, ◌||◌, ◌+◌, ◌*◌, ◌/◌, ◌^◌, leb, Option, none, some, List,
  [], ◌∷◌, Text, codes, text_eq, filter, if◌then◌else◌, is_some, or_else, Result, ok, err, require,
  present, ◌>>=◌, ◌>>◌, conflict, unprocessable, unique_violation,
}
use mathlib.Core.Option
use securtxn.Types.{
  PaymentStatus, awaiting_approval, approved, sent, is_status, is_htlc, is_confirmed, pending_lock,
}
use securtxn.Deps.{Deps}
use securtxn.Htlc.{hashlock_for, payment_ref_for, compute_lock_id}
use securtxn.Store.Rows.{PaymentRequest, VendorWallet, HtlcSettlement, Proposal, Db}
use securtxn.Store.Queries.{find, newest, find_payment, find_wallet, save_payment}
use securtxn.Evidence.Payload.{approval, send}
use securtxn.Evidence.Service.{append}
use securtxn.Settlement.Record.{RecordLockRequest, write_lock_record}
use securtxn.Settle.Units.{to_base_units, from_base_units}

-- The arguments of `ChainGateway.lock`, and its answer.
pub record LockInput : Type 0 where
  pub payment_request_id : Text
  pub payee : Text
  pub token : Text
  pub amount : ℕ
  pub hashlock : Text
  pub timelock : ℕ

pub record LockOutput : Type 0 where
  pub lock_id : Text
  pub lock_tx_hash : Text
  pub payer : Text

-- What the gateway has been made to send. The approval that precedes a lock moves nothing and is
-- left out.
pub data Broadcast : Type 0 where
  transferred : (token payee : Text) (amount : ℕ) → Broadcast
  funds_locked : LockInput → Broadcast
  funds_returned : (lock_id : Text) → Broadcast

pub record ChainGateway : Type 0 where
  pub broadcasts : Bool
  pub treasury_address : Text
  pub decimals : Text → Result ℕ
  pub balance_of : Text → Text → Result ℕ
  pub transfer : Text → Text → ℕ → Result Text
  pub lock : LockInput → Result LockOutput
  pub refund : Text → Result Text
  -- whether a call that failed had sent its transaction before it threw
  pub sent_on_failure : Broadcast → Bool

pub record Outcome : Type 0 where
  pub broadcast : List Broadcast
  pub result : Result Db

-- A step that sends nothing: its failure ends the run with nothing broadcast.
abbrev pub attempt {ℓ} : {A : Type ℓ} → Result A → (A → Outcome) → Outcome
attempt (ok a) next = next a
attempt (err e) next = record { broadcast = []; result = err e }

abbrev pub sent_by_failure : Broadcast → Bool → List Broadcast
sent_by_failure b true = b ∷ []
sent_by_failure b false = []

-- A call of the gateway that sends `b`. It waits for the receipt, so it may send and then throw.
abbrev pub submit {ℓ} : {A : Type ℓ} → ChainGateway → Broadcast → Result A → (A → Outcome) → Outcome
submit chain b (ok a) next = next a
submit chain b (err e) next = record {
  broadcast = sent_by_failure b (chain.sent_on_failure b);
  result = err e;
}

-- `resolveToken`: the wallet's own token, then a security of the symbol, then the configuration.
unfoldable pub resolve_token : Deps → Text → Option Text → Db → Result Text
resolve_token deps symbol (some (c ∷ t)) db = ok (c ∷ t)
resolve_token deps symbol _ db =
    elim (newest (λ s. s.created_at) (filter (λ s. text_eq s.symbol symbol) db.securities)) [
      | some s ↦ ok s.evm_address
      | none ↦
          present
            (Option.map (λ e. e.1)
              (find (λ e. e.0) (deps.platform.to_upper symbol) deps.token_addresses))
            unprocessable
    ]

-- What `settle` has established before it chooses a way.
pub record Plan : Type 0 where
  pub payment : PaymentRequest
  pub payee : Text
  pub token : Text
  pub decimals : ℕ
  pub base_units : ℕ

-- The balance is read only where the gateway broadcasts.
unfoldable pub treasury_covers : ChainGateway → Text → ℕ → Result Bool
treasury_covers chain token amount =
    if chain.broadcasts
    then (chain.balance_of token chain.treasury_address >>= λ held. ok (leb amount held))
    else ok true

unfoldable pub plan_settlement : Deps → ChainGateway → Text → Db → Result Plan
plan_settlement deps chain payment_id db = do
  p ← find_payment payment_id db
  wallet ← find_wallet p.vendor_wallet_id db
  require (is_status p.status awaiting_approval) conflict
  require (not (is_some p.htlc_settlement)) conflict
  token ← resolve_token deps p.token wallet.token_contract db
  decimals ← chain.decimals token
  base_units ← to_base_units (deps.platform.decimal_text p.amount) decimals
  covered ← treasury_covers chain token base_units
  require covered unprocessable
  ok (record {
    payment = p;
    payee = wallet.address;
    token = token;
    decimals = decimals;
    base_units = base_units;
  })

abbrev consumed : ℕ → Option Proposal → Option Proposal
consumed now none = none
consumed now (some q) = some (record q { consumed_at = some now })

abbrev pub sent_with : ℕ → Text → Text → PaymentRequest → PaymentRequest
sent_with now tx approver p = record p {
  status = sent;
  tx_hash = some tx;
  approval_event = some (record {
    approver_id = approver;
    selfie_check_verified = false;
    selfie_check_proof_ref = none;
    ledger_confirmed = false;
    ledger_confirmed_at = some now;
  });
  proposal = consumed now p.proposal;
}

-- `writeSent`, in a transaction. The approval event is unique for a payment.
unfoldable pub write_sent : Deps → ℕ → Text → Text → Text → PaymentRequest → Result PaymentRequest
write_sent deps now tx approver payee p = do
  require (not (is_some p.approval_event)) unique_violation
  q ← append deps.platform now (approval approver false false) (sent_with now tx approver p)
  append deps.platform now (send tx p.network payee (deps.platform.decimal_text p.amount) p.token) q

-- `settleDirectly`: the transfer, and then `markSent`.
unfoldable pub settle_directly : Deps → ChainGateway → ℕ → Text → Plan → Db → Outcome
settle_directly deps chain now approver plan db =
    let moved = transferred plan.token plan.payee plan.base_units in
    submit chain moved (chain.transfer plan.token plan.payee plan.base_units) λ tx. record {
      broadcast = moved ∷ [];
      result =
          write_sent deps now tx approver plan.payee plan.payment >>= λ q. ok (save_payment q db);
    }
