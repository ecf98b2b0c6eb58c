-- ===== src/Lifecycle/Settling.antt =====
-- apps/api/src/modules/payments/settle.ts: the invariant through the guards and the records of settle.
use securtxn.Prelude.{
  ℕ, true, not, ◌≡◌, refl, ap, ◌∙◌, Text, Option, none, some, Returns, Returns-bind,
  Returns-require, Returns-eq, Returns-ok, conflict, unprocessable, unique_violation, is_some,
}
use securtxn.Types.{is_status, awaiting_approval, sent, PaymentStatus}
use securtxn.Types.Laws.{is_status-eq}
use securtxn.Platform.{Platform}
use securtxn.Deps.{Deps}
use securtxn.Evidence.Service.{append}
use securtxn.Evidence.Service.Laws.{append-Appended, append-HasChain, HasChain}
use securtxn.Store.Rows.{PaymentRequest, Db}
use securtxn.Store.Queries.{find_payment, find_wallet}
use securtxn.Settlement.Record.{RecordLockRequest, lock_taken, write_lock_record}
use securtxn.Settle.{
  ChainGateway, Plan, LockOutput, plan_settlement, resolve_token, treasury_covers, sent_with,
  write_sent,
}
use securtxn.Settle.Units.{to_base_units}
use securtxn.Settle.Escrow.{record_escrow, lock_request}
use securtxn.Lifecycle.{Good, AllGood, authorised, escrow_fits, is_released}
use securtxn.Lifecycle.Appends.{
  append-Good, find_payment-Good, no_escrow-is_early, is_early-is_status,
}
use securtxn.Lifecycle.Release.{released-authorised}

-- A payment that may be settled: it is good and waits for approval, and has no escrow.
pub record Ready (pf : Platform) (p : PaymentRequest) : Type 0 where
  pub good : Good pf p
  pub waiting : is_status p.status awaiting_approval ≡ true

pub plan_settlement-Ready :
    (deps : Deps) (chain : ChainGateway) (id : Text) (db : Db)
    → AllGood deps.platform db
    → Returns (λ plan. Ready deps.platform plan.payment) (plan_settlement deps chain id db)
unfolding plan_settlement
plan_settlement-Ready deps chain id db g = Returns-bind _ (find_payment id db) _ λ p found.
    Returns-bind _ (find_wallet p.vendor_wallet_id db) _ λ w _.
      Returns-require _ (is_status p.status awaiting_approval) conflict _ λ waiting.
        Returns-require _ (not (is_some p.htlc_settlement)) conflict _ λ _.
          Returns-bind _ (resolve_token deps p.token w.token_contract db) _ λ token _.
            Returns-bind _ (chain.decimals token) _ λ decimals _.
              Returns-bind _ (to_base_units (deps.platform.decimal_text p.amount) decimals) _
                λ units _. Returns-bind _ (treasury_covers chain token units) _ λ covered _.
                  Returns-require _ covered unprocessable _ λ _. record {
                    good = find_payment-Good deps.platform id db p found g;
                    waiting = waiting;
                  }

-- What `writeSent` needs of the payment: a chain that holds, the agreement and the verdict, and an
-- escrow that fits a payment that is sent.
pub record Sendable (pf : Platform) (p : PaymentRequest) : Type 0 where
  pub chain : HasChain pf p
  pub allowed : authorised sent p.payee_consent p.decision ≡ true
  pub escrow : escrow_fits pf sent p.recipient_ack p.htlc_settlement ≡ true

pub write_sent-Good :
    (deps : Deps) (now : ℕ) (tx approver payee : Text) (p : PaymentRequest)
    → Sendable deps.platform p
    → Returns (Good deps.platform) (write_sent deps now tx approver payee p)
unfolding write_sent
write_sent-Good deps now tx approver payee p s =
    Returns-require _ (not (is_some p.approval_event)) unique_violation _ λ _.
      Returns-bind _ (append deps.platform now _ (sent_with now tx approver p)) _ λ q approved_it.
        Returns-eq _ _ λ r sent_it. append-Good deps.platform now _ q r sent_it (
          append-Good deps.platform now _ _ q approved_it
            (record { chain = s.chain; allowed = s.allowed; escrow = s.escrow }))

pub Ready-allowed :
    (pf : Platform) (p : PaymentRequest) (t : PaymentStatus)
    → Ready pf p
    → authorised t p.payee_consent p.decision ≡ true
Ready-allowed pf p t r =
    released-authorised p.status t p (r.good).allowed
      (ap is_released (is_status-eq p.status awaiting_approval r.waiting))

Ready-no_escrow : (pf : Platform) (p : PaymentRequest) → Ready pf p → p.htlc_settlement ≡ none
Ready-no_escrow pf p r =
    no_escrow-is_early pf p.status p.recipient_ack p.htlc_settlement
      (is_early-is_status p.status awaiting_approval r.waiting refl) (r.good).escrow

pub Ready-Sendable : (pf : Platform) (p : PaymentRequest) → Ready pf p → Sendable pf p
unfolding escrow_fits
Ready-Sendable pf p r = record {
  chain = (r.good).chain;
  allowed = Ready-allowed pf p sent r;
  escrow = rw (Ready-no_escrow pf p r) refl;
}

-- After the escrow's row is written, the payment may be marked as sent.
write_lock_record-Sendable :
    (deps : Deps) (now : ℕ) (db : Db) (payee : Text) (blob : Option Text) (i : RecordLockRequest)
    (p : PaymentRequest)
    → Ready deps.platform p
    → Returns (Sendable deps.platform) (write_lock_record deps now db payee blob i p)
unfolding write_lock_record escrow_fits is_status
write_lock_record-Sendable deps now db payee blob i p r =
    Returns-require _ (not (is_some p.htlc_settlement)) unique_violation _ λ _.
      Returns-require _ (not (lock_taken i.lock_id db)) unique_violation _ λ _.
        Returns-eq (Sendable deps.platform) _ λ q h.
          let e = (append-Appended deps.platform now _ _ q h).result in
          record {
            chain = append-HasChain deps.platform now _ _ q h (r.good).chain;
            allowed =
                ap (λ s. authorised sent s.payee_consent s.decision) e
                ∙ Ready-allowed deps.platform p sent r;
            escrow = ap (λ s. escrow_fits deps.platform sent s.recipient_ack s.htlc_settlement) e;
          }

pub record_escrow-Good :
    (deps : Deps) (now : ℕ) (db : Db) (preimage hashlock : Text) (timelock : ℕ) (out : LockOutput)
    (approver : Text) (plan : Plan)
    → Ready deps.platform plan.payment
    → Returns
        (Good deps.platform)
        (record_escrow deps now db preimage hashlock timelock out approver plan)
unfolding record_escrow
record_escrow-Good deps now db preimage hashlock timelock out approver plan r =
    Returns-bind _
      (write_lock_record deps now db plan.payee (some preimage)
        (lock_request deps plan hashlock timelock out) plan.payment)
      _
      λ q locked_it. write_sent-Good deps now out.lock_tx_hash approver plan.payee q (
        Returns-ok _ _ q
          (write_lock_record-Sendable deps now db plan.payee (some preimage)
            (lock_request deps plan hashlock timelock out) plan.payment r)
          locked_it)
