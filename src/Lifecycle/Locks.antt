-- ===== src/Lifecycle/Locks.antt =====
-- apps/api/src/modules/payments/settlement.ts: the invariant through recordLock.
use securtxn.Prelude.{
  ℕ, true, not, ◌≡◌, refl, ap, Text, Option, none, some, Returns, Returns-bind, Returns-require,
  Returns-eq, Returns-ok, ite-Returns, unprocessable, unique_violation, is_some,
}
use securtxn.Types.{is_status, approved, sent, is_htlc, is_pending_lock}
use securtxn.Types.Laws.{is_status-eq}
use securtxn.Deps.{Deps}
use securtxn.Store.Rows.{PaymentRequest, HtlcSettlement, VendorWallet, Db}
use securtxn.Store.Queries.{find_payment, find_wallet}
use securtxn.Consent.Checks.{is_settled}
use securtxn.Settlement.Record.{
  record_lock, RecordLockRequest, lock_by_state, lock_taken, write_lock_record, fund_prepared,
  expected_lock_id, same_id,
}
use securtxn.Lifecycle.{Good, AllGood, escrow_fits, is_released}
use securtxn.Lifecycle.Appends.{append-Good, find_payment-Good, save_payment-AllGood, same-Good}
use securtxn.Lifecycle.Release.{released-authorised}

-- An escrow that is recorded for a payment that has settled.
pub write_lock_record-Good :
    (deps : Deps) (now : ℕ) (db : Db) (payee : Text) (blob : Option Text) (i : RecordLockRequest)
    (p : PaymentRequest)
    → Good deps.platform p
    → is_settled p.status ≡ true
    → Returns (Good deps.platform) (write_lock_record deps now db payee blob i p)
unfolding write_lock_record escrow_fits
write_lock_record-Good deps now db payee blob i p g s =
    Returns-require _ (not (is_some p.htlc_settlement)) unique_violation _ λ _.
      Returns-require _ (not (lock_taken i.lock_id db)) unique_violation _ λ _.
        Returns-eq _ _ λ q h.
          append-Good deps.platform now _ _ q h
            (same-Good deps.platform p _ g refl refl refl refl s)

-- A prepared escrow that the payer has funded: the payment was approved, and is sent.
fund_prepared-Good :
    (deps : Deps) (now : ℕ) (s : HtlcSettlement) (i : RecordLockRequest) (p : PaymentRequest)
    → Good deps.platform p
    → is_status p.status approved ≡ true
    → Returns (Good deps.platform) (fund_prepared deps now s i p)
unfolding fund_prepared escrow_fits is_status
fund_prepared-Good deps now s i p g a =
    Returns-require _ (same_id s.lock_id i.lock_id) unprocessable _ λ _. Returns-eq _ _ λ q h.
      append-Good deps.platform now _ _ q h (record {
        chain = g.chain;
        allowed =
            released-authorised p.status sent p g.allowed
              (ap is_released (is_status-eq p.status approved a));
        escrow = refl;
      })

lock_by_state-Good :
    (deps : Deps) (now : ℕ) (db : Db) (w : VendorWallet) (i : RecordLockRequest)
    (p : PaymentRequest) (h : Option HtlcSettlement)
    → Good deps.platform p
    → Returns (Good deps.platform) (lock_by_state deps now db w i p h)
unfolding lock_by_state
lock_by_state-Good deps now db w i p none g =
    Returns-require _ (is_settled p.status) unprocessable _ λ s.
      Returns-require _ (same_id (expected_lock_id deps.platform p w i) i.lock_id) unprocessable _
        λ _. write_lock_record-Good deps now db w.address none i p g s
lock_by_state-Good deps now db w i p (some s) g =
    ite-Returns _ (is_pending_lock s.status) _ _
      (Returns-require _ (is_status p.status approved) unprocessable _ λ a.
        Returns-require _ (same_id (expected_lock_id deps.platform p w i) i.lock_id) unprocessable _
          λ _. fund_prepared-Good deps now s i p g a)
      (Returns-require _ (is_settled p.status) unprocessable _ λ _. tt)

pub record_lock-AllGood :
    (deps : Deps) (now : ℕ) (id : Text) (i : RecordLockRequest) (db : Db)
    → AllGood deps.platform db
    → Returns (AllGood deps.platform) (record_lock deps now id i db)
unfolding record_lock
record_lock-AllGood deps now id i db g = Returns-bind _ (find_payment id db) _ λ p found.
    Returns-bind _ (find_wallet p.vendor_wallet_id db) _ λ w _.
      Returns-require _ (is_htlc p.settlement_mode) unprocessable _ λ _.
        Returns-bind _ (lock_by_state deps now db w i p p.htlc_settlement) _ λ q recorded.
          save_payment-AllGood deps.platform q db g (
            Returns-ok _ _ q
              (lock_by_state-Good deps now db w i p p.htlc_settlement
                (find_payment-Good deps.platform id db p found g))
              recorded)
