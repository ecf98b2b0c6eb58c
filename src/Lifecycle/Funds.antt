-- ===== src/Lifecycle/Funds.antt =====
-- apps/api/src/modules/payments/settle.ts: the invariant through settle, releaseSecret and the
-- refunds.
use securtxn.Prelude.{
  ℕ, Bool, true, false, not, ◌&&◌, ◌≡◌, refl, sym, ap, ◌∙◌, Text, Option, List, [], ◌∷◌, Result, ok,
  err, Returns, Returns-bind, Returns-require, Returns-ok, ite-Returns, conflict, unprocessable,
  unique_violation, is_some, present, if◌then◌else◌,
}
use securtxn.Types.{is_status, approved, is_locked, is_htlc, ExceptionType}
use securtxn.Deps.{Deps}
use securtxn.Eip712.{build_secret_release_message, verify_secret_release}
use securtxn.Evidence.Service.{append}
use securtxn.Htlc.{hashlock_for}
use securtxn.Store.Rows.{HtlcSettlement, Db}
use securtxn.Settlement.{load_settlement, refunded_with, is_expired}
use securtxn.Settlement.Record.{lock_taken}
use securtxn.Settle.{
  attempt, submit, Broadcast, ChainGateway, Outcome, Plan, plan_settlement, write_sent,
  settle_directly,
}
use securtxn.Settle.Escrow.{
  record_escrow, lock_input, timelock_of, settle_through_escrow, payer_address_for, prepared_row,
  prepare_escrow_for_payer, carry_out, settle,
}
use securtxn.Settle.Recover.{
  release_secret, open_unless_open, settle_refund, return_funds, refundable, execute_refund, Due,
  Sweep, swept, sweep_from, all_due, sweep_refunds,
}
use securtxn.Lifecycle.{Good, AllGood, escrow_fits}
use securtxn.Lifecycle.Appends.{append-Good, save_payment-AllGood, same-Good}
use securtxn.Lifecycle.Decisions.{create_within-Good}
use securtxn.Lifecycle.Escrows.{load_settlement-Good, refunded_with-Good}
use securtxn.Lifecycle.Settling.{
  Ready, plan_settlement-Ready, write_sent-Good, Ready-Sendable, Ready-allowed, record_escrow-Good,
}

pub Returns-attempt :
    {A : Type 0} (P : Db → Type 0) (m : Result A) (k : A → Outcome)
    → ((a : A) → m ≡ ok a → Returns P (k a).result)
    → Returns P (attempt m k).result
Returns-attempt P (ok a) k h = h a refl
Returns-attempt P (err e) k h = tt

pub Returns-submit :
    {A : Type 0} (P : Db → Type 0) (chain : ChainGateway) (b : Broadcast) (m : Result A)
    (k : A → Outcome)
    → ((a : A) → m ≡ ok a → Returns P (k a).result)
    → Returns P (submit chain b m k).result
Returns-submit P chain b (ok a) k h = h a refl
Returns-submit P chain b (err e) k h = tt

pub ite-Outcome :
    (P : Db → Type 0) (c : Bool) (o u : Outcome)
    → Returns P o.result
    → Returns P u.result
    → Returns P (if c then o else u).result
ite-Outcome P true o u h k = h
ite-Outcome P false o u h k = k

module _ (deps : Deps) (chain : ChainGateway) (now : ℕ) where
  settle_directly-AllGood :
      (approver : Text) (plan : Plan) (db : Db)
      → AllGood deps.platform db
      → Ready deps.platform plan.payment
      → Returns (AllGood deps.platform) (settle_directly deps chain now approver plan db).result
  unfolding settle_directly
  settle_directly-AllGood approver plan db g r =
      Returns-submit _ chain _ (chain.transfer plan.token plan.payee plan.base_units) _ λ tx _.
        Returns-bind _ (write_sent deps now tx approver plan.payee plan.payment) _ λ q sent_it.
          save_payment-AllGood deps.platform q db g (
            Returns-ok _ _ q
              (write_sent-Good deps now tx approver plan.payee plan.payment
                (Ready-Sendable deps.platform plan.payment r))
              sent_it)

  settle_through_escrow-AllGood :
      (preimage : Text) (seconds : Option ℕ) (approver : Text) (plan : Plan) (db : Db)
      → AllGood deps.platform db
      → Ready deps.platform plan.payment
      → Returns
          (AllGood deps.platform)
          (settle_through_escrow deps chain now preimage seconds approver plan db).result
  unfolding settle_through_escrow
  settle_through_escrow-AllGood preimage seconds approver plan db g r =
      let hashlock = hashlock_for deps.platform preimage in
      let timelock = timelock_of deps now seconds in
      Returns-submit _ chain _ (chain.lock (lock_input plan hashlock timelock)) _ λ out _.
        Returns-bind _ (record_escrow deps now db preimage hashlock timelock out approver plan) _
          λ q recorded. save_payment-AllGood deps.platform q db g (
            Returns-ok _ _ q
              (record_escrow-Good deps now db preimage hashlock timelock out approver plan r)
              recorded)

  prepare_escrow_for_payer-AllGood :
      (preimage : Text) (seconds : Option ℕ) (plan : Plan) (db : Db)
      → AllGood deps.platform db
      → Ready deps.platform plan.payment
      → Returns (AllGood deps.platform) (prepare_escrow_for_payer deps now preimage seconds plan db)
  unfolding prepare_escrow_for_payer escrow_fits is_status prepared_row
  prepare_escrow_for_payer-AllGood preimage seconds plan db g r =
      Returns-bind _ (payer_address_for plan.payment.payer_vendor_id db) _ λ payer _.
        Returns-require _ (not (is_some plan.payment.htlc_settlement)) unique_violation _ λ _.
          Returns-require _ (not (lock_taken _ db)) unique_violation _ λ _.
            save_payment-AllGood deps.platform _ db g (record {
              chain = (r.good).chain;
              allowed = Ready-allowed deps.platform plan.payment approved r;
              escrow = refl;
            })

  carry_out-AllGood :
      (preimage : Text) (seconds : Option ℕ) (approver : Text) (plan : Plan) (db : Db)
      → AllGood deps.platform db
      → Ready deps.platform plan.payment
      → Returns
          (AllGood deps.platform)
          (carry_out deps chain now preimage seconds approver plan db).result
  unfolding carry_out
  carry_out-AllGood preimage seconds approver plan db g r =
      ite-Outcome _ (not (is_htlc plan.payment.settlement_mode)) _ _
        (settle_directly-AllGood approver plan db g r)
        (ite-Outcome _ (deps.settlement_funding_payer && chain.broadcasts) _ _
          (prepare_escrow_for_payer-AllGood preimage seconds plan db g r)
          (settle_through_escrow-AllGood preimage seconds approver plan db g r))

  pub settle-AllGood :
      (preimage : Text) (seconds : Option ℕ) (approver id : Text) (db : Db)
      → AllGood deps.platform db
      → Returns
          (AllGood deps.platform)
          (settle deps chain now preimage seconds approver id db).result
  unfolding settle
  settle-AllGood preimage seconds approver id db g =
      Returns-attempt _ (plan_settlement deps chain id db) _ λ plan planned.
        carry_out-AllGood preimage seconds approver plan db g
          (Returns-ok _ _ plan (plan_settlement-Ready deps chain id db g) planned)

  settle_refund-AllGood :
      (case_id id tx actor : Text) (db : Db)
      → AllGood deps.platform db
      → Returns (AllGood deps.platform) (settle_refund deps now case_id id tx actor db)
  unfolding settle_refund open_unless_open
  settle_refund-AllGood case_id id tx actor db g =
      Returns-bind _ (load_settlement id db) _ λ found loaded.
        Returns-bind _ (append deps.platform now _ (refunded_with now tx found.1 found.0)) _
          λ q refunded_it. Returns-bind _ (open_unless_open deps now case_id actor q) _ λ r opened.
            let (good, _) = load_settlement-Good deps.platform id db found g loaded in
            let fine =
              append-Good deps.platform now _ _ q refunded_it
                (refunded_with-Good deps.platform now tx found.1 found.0 good) in
            save_payment-AllGood deps.platform r db g (
              Returns-ok (Good deps.platform) _ r
                (ite-Returns _ (is_some q.exception_case) _ _ fine
                  (create_within-Good deps now case_id ExceptionType.misdirect actor q fine))
                opened)

  return_funds-AllGood :
      (case_id id : Text) (s : HtlcSettlement) (actor : Text) (db : Db)
      → AllGood deps.platform db
      → Returns (AllGood deps.platform) (return_funds deps chain now case_id id s actor db).result
  unfolding return_funds
  return_funds-AllGood case_id id s actor db g =
      Returns-submit _ chain _ (chain.refund s.lock_id) _
        λ tx _. settle_refund-AllGood case_id id tx actor db g

  pub execute_refund-AllGood :
      (case_id id actor : Text) (db : Db)
      → AllGood deps.platform db
      → Returns (AllGood deps.platform) (execute_refund deps chain now case_id id actor db).result
  unfolding execute_refund
  execute_refund-AllGood case_id id actor db g =
      Returns-attempt _ (refundable now id db) _
        λ found _. return_funds-AllGood case_id id found.1 actor db g

  swept-AllGood :
      (id : Text) (b : List Broadcast) (r : Result Db) (w : Sweep)
      → Returns (AllGood deps.platform) r
      → AllGood deps.platform w.db
      → AllGood deps.platform (swept id b r w).db
  unfolding swept
  swept-AllGood id b (ok db') w h g = h
  swept-AllGood id b (err e) w h g = g

  sweep_from-AllGood :
      (actor : Text) (case_id : Text → Text) (ds : List Due) (w : Sweep)
      → AllGood deps.platform w.db
      → AllGood deps.platform (sweep_from deps chain now actor case_id ds w).db
  unfolding sweep_from
  sweep_from-AllGood actor case_id [] w g = g
  sweep_from-AllGood actor case_id (d ∷ ds) w g =
      sweep_from-AllGood actor case_id ds _
        (swept-AllGood d.0 _ _ w (return_funds-AllGood (case_id d.0) d.0 d.1 actor w.db g) g)

  pub sweep_refunds-AllGood :
      (actor : Text) (case_id : Text → Text) (db : Db)
      → AllGood deps.platform db
      → AllGood deps.platform (sweep_refunds deps chain now actor case_id db).db
  unfolding sweep_refunds
  sweep_refunds-AllGood actor case_id db g =
      sweep_from-AllGood actor case_id (all_due now db.payment_requests) _ g

pub release_secret-AllGood :
    (deps : Deps) (now : ℕ) (id signature : Text) (db : Db)
    → AllGood deps.platform db
    → Returns (λ r. AllGood deps.platform r.1) (release_secret deps now id signature db)
unfolding release_secret escrow_fits
release_secret-AllGood deps now id signature db g =
    Returns-bind _ (load_settlement id db) _ λ found loaded.
      Returns-require _ (is_locked (found.1).status) conflict _ λ _.
        Returns-require _ (not (is_expired now found.1)) unprocessable _ λ _.
          Returns-bind _ (present (found.1).preimage_blob unprocessable) _ λ preimage _.
            Returns-require _
              (verify_secret_release deps.platform deps.hedera_chain_id (found.1).payee_address
                signature
                (build_secret_release_message id (found.1).payee_address (found.1).lock_id))
              unprocessable _
              λ _.
                let (good, here) = load_settlement-Good deps.platform id db found g loaded in
                save_payment-AllGood deps.platform _ db g (
                  same-Good deps.platform found.0 _ good refl refl refl refl (
                    sym
                      (ap (escrow_fits deps.platform (found.0).status (found.0).recipient_ack) here)
                    ∙ good.escrow))
