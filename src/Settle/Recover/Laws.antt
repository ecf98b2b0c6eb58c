-- ===== src/Settle/Recover/Laws.antt =====
-- apps/api/src/modules/payments/settle.ts: releaseSecret and sweepRefunds.
use securtxn.Prelude.{
  ℕ, true, false, not, not-true, ◌≡◌, Text, some, ok, Returns-bind, Returns-require, Returns-ok,
  present, present-eq-ok, unprocessable, conflict, not_found,
}
use securtxn.Types.{is_locked}
use securtxn.Deps.{Deps}
use securtxn.Eip712.{build_secret_release_message, verify_secret_release}
use securtxn.Store.Rows.{PaymentRequest, HtlcSettlement, Db}
use securtxn.Store.Queries.{find_payment}
use securtxn.Settlement.{load_settlement, is_expired}
use securtxn.Settle.Recover.{release_secret}

-- What stands behind a secret that was handed out.
pub record HandedOver (deps : Deps) (now : ℕ) (id signature secret : Text) (db : Db) : Type 0 where
  pub payment : PaymentRequest
  pub escrow : HtlcSettlement
  pub found : find_payment id db ≡ ok payment
  pub held : payment.htlc_settlement ≡ some escrow
  pub locked : is_locked escrow.status ≡ true
  pub open_still : is_expired now escrow ≡ false
  pub its_secret : escrow.preimage_blob ≡ some secret
  pub signed :
      verify_secret_release deps.platform deps.hedera_chain_id escrow.payee_address signature
        (build_secret_release_message id escrow.payee_address escrow.lock_id)
      ≡ true

pub load_settlement-found :
    (id : Text) (db : Db) (f : PaymentRequest × HtlcSettlement)
    → load_settlement id db ≡ ok f
    → (find_payment id db ≡ ok f.0) × ((f.0).htlc_settlement ≡ some f.1)
unfolding load_settlement
load_settlement-found id db f h =
    Returns-ok (λ f. (find_payment id db ≡ ok f.0) × ((f.0).htlc_settlement ≡ some f.1)) _ f
      (Returns-bind _ (find_payment id db) _ λ p here.
        Returns-bind _ (present p.htlc_settlement not_found) _
          λ s there. (here, present-eq-ok p.htlc_settlement not_found there))
      h

-- The secret of an escrow is returned only for a signature of the escrow's payee over this payment
-- and this lock, while the escrow is locked and its time is not over.
pub release_secret-HandedOver :
    (deps : Deps) (now : ℕ) (id signature secret : Text) (db db' : Db)
    → release_secret deps now id signature db ≡ ok (secret, db')
    → HandedOver deps now id signature secret db
unfolding release_secret
release_secret-HandedOver deps now id signature secret db db' h =
    Returns-ok (λ r. HandedOver deps now id signature r.0 db) _ (secret, db')
      (Returns-bind _ (load_settlement id db) _ λ found loaded.
        Returns-require _ (is_locked (found.1).status) conflict _ λ l.
          Returns-require _ (not (is_expired now found.1)) unprocessable _ λ early.
            Returns-bind _ (present (found.1).preimage_blob unprocessable) _ λ preimage there.
              Returns-require _
                (verify_secret_release deps.platform deps.hedera_chain_id (found.1).payee_address
                  signature
                  (build_secret_release_message id (found.1).payee_address (found.1).lock_id))
                unprocessable _
                λ signed. record {
                  payment = found.0;
                  escrow = found.1;
                  found = (load_settlement-found id db found loaded).0;
                  held = (load_settlement-found id db found loaded).1;
                  locked = l;
                  open_still = not-true (is_expired now found.1) early;
                  its_secret = present-eq-ok (found.1).preimage_blob unprocessable there;
                  signed = signed;
                })
      h
