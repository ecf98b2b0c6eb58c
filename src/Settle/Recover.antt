-- ===== src/Settle/Recover.antt =====
-- apps/api/src/modules/payments/settle.ts: handing the secret to the payee, and returning the funds
-- of an escrow that has expired.
pub mod Laws
use securtxn.Prelude.{
  ℕ, Bool, true, false, not, ◌&&◌, leb, Option, none, some, List, [], ◌∷◌, ◌++◌, Text, text_eq,
  filter, if◌then◌else◌, is_some, Result, ok, err, Error, require, present, ◌>>=◌, ◌>>◌, conflict,
  unprocessable,
}
use securtxn.Types.{PaymentStatus, exception, refunded, is_locked, ExceptionType}
use securtxn.Deps.{Deps}
use securtxn.Eip712.{build_secret_release_message, verify_secret_release}
use securtxn.Store.Rows.{PaymentRequest, HtlcSettlement, Db}
use securtxn.Store.Queries.{find_payment, save_payment}
use securtxn.Evidence.Payload.{htlc_refunded}
use securtxn.Evidence.Service.{append}
use securtxn.Exceptions.{create_within}
use securtxn.Settlement.{load_settlement, refunded_with, is_expired}
use securtxn.Settle.{attempt, submit, ChainGateway, Broadcast, funds_returned, Outcome}

-- `releaseSecret`: the secret, and the database after it. The column holds the decrypted secret.
unfoldable pub release_secret : Deps → ℕ → Text → Text → Db → Result (Text × Db)
release_secret deps now payment_id signature db = do
  found ← load_settlement payment_id db
  require (is_locked (found.1).status) conflict
  require (not (is_expired now found.1)) unprocessable
  preimage ← present (found.1).preimage_blob unprocessable
  require
      (verify_secret_release deps.platform deps.hedera_chain_id (found.1).payee_address signature
        (build_secret_release_message payment_id (found.1).payee_address (found.1).lock_id))
      unprocessable
  ok (
    preimage,
    save_payment
        (record found.0 {
          htlc_settlement = some (record found.1 { preimage_released_at = some now });
        })
        db,
  )

-- A case is opened only where there is none.
unfoldable pub open_unless_open : Deps → ℕ → Text → Text → PaymentRequest → Result PaymentRequest
open_unless_open deps now case_id actor p =
    if is_some p.exception_case
    then ok p
    else create_within deps now case_id ExceptionType.misdirect actor p

-- `recordRefund` of the settler, in a transaction of its own: the refund has been broadcast. It
-- updates the escrow's row whatever its status is by now.
unfoldable pub settle_refund : Deps → ℕ → Text → Text → Text → Text → Db → Result Db
settle_refund deps now case_id payment_id tx actor db = do
  found ← load_settlement payment_id db
  q ←
      append deps.platform now
        (htlc_refunded (found.1).lock_id (found.1).payer_address
          (deps.platform.decimal_text (found.1).amount) tx)
        (refunded_with now tx found.1 found.0)
  r ← open_unless_open deps now case_id actor q
  ok (save_payment r db)

-- Broadcasting the refund of an escrow, and recording it.
unfoldable pub return_funds :
    Deps → ChainGateway → ℕ → Text → Text → HtlcSettlement → Text → Db → Outcome
return_funds deps chain now case_id payment_id s actor db =
    submit chain (funds_returned s.lock_id) (chain.refund s.lock_id) λ tx. record {
      broadcast = funds_returned s.lock_id ∷ [];
      result = settle_refund deps now case_id payment_id tx actor db;
    }

-- The guards of `executeRefund`.
unfoldable pub refundable : ℕ → Text → Db → Result (PaymentRequest × HtlcSettlement)
refundable now payment_id db = do
  found ← load_settlement payment_id db
  require (is_locked (found.1).status) conflict
  require (is_expired now found.1) unprocessable
  ok found

-- `executeRefund`
unfoldable pub execute_refund : Deps → ChainGateway → ℕ → Text → Text → Text → Db → Outcome
execute_refund deps chain now case_id payment_id actor db =
    attempt (refundable now payment_id db)
      λ found. return_funds deps chain now case_id payment_id found.1 actor db

abbrev pub Due : Type 0
Due = Text × HtlcSettlement

-- `orderBy: { timelock: "asc" }`
unfoldable pub insert_due : Due → List Due → List Due
insert_due d [] = d ∷ []
insert_due d (e ∷ es) =
    if leb (d.1).timelock (e.1).timelock then d ∷ e ∷ es else e ∷ insert_due d es

abbrev due_of : ℕ → PaymentRequest → List Due → List Due
due_of now p rest = elim p.htlc_settlement [
  | none ↦ rest
  | some s ↦ if is_locked s.status && is_expired now s then insert_due (p.id, s) rest else rest
]

-- The query of `sweepRefunds`.
unfoldable pub all_due : ℕ → List PaymentRequest → List Due
all_due now [] = []
all_due now (p ∷ ps) = due_of now p (all_due now ps)

pub record Sweep : Type 0 where
  pub db : Db
  pub broadcast : List Broadcast
  pub refunded : List Text
  pub failed : List (Text × Error)

-- One round of the loop: a failure is noted, and the database stays.
unfoldable pub swept : Text → List Broadcast → Result Db → Sweep → Sweep
swept id b (ok db') w = record w {
  db = db';
  broadcast = w.broadcast ++ b;
  refunded = w.refunded ++ id ∷ [];
}
swept id b (err e) w = record w { broadcast = w.broadcast ++ b; failed = w.failed ++ (id, e) ∷ [] }

unfoldable pub sweep_from :
    Deps → ChainGateway → ℕ → Text → (Text → Text) → List Due → Sweep → Sweep
sweep_from deps chain now actor case_id [] w = w
sweep_from deps chain now actor case_id (d ∷ ds) w =
    let o = return_funds deps chain now (case_id d.0) d.0 d.1 actor w.db in
    sweep_from deps chain now actor case_id ds (swept d.0 o.broadcast o.result w)

-- `sweepRefunds`. `case_id` gives the id of the case that the database would choose for a payment.
unfoldable pub sweep_refunds : Deps → ChainGateway → ℕ → Text → (Text → Text) → Db → Sweep
sweep_refunds deps chain now actor case_id db =
    sweep_from deps chain now actor case_id (all_due now db.payment_requests)
      (record { db = db; broadcast = []; refunded = []; failed = [] })
