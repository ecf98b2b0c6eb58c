-- ===== src/Lifecycle/Escrows.antt =====
-- apps/api/src/modules/payments: the invariant through acknowledge, recordClaim and recordRefund.
use securtxn.Prelude.{
  ℕ, true, not, ◌≡◌, refl, sym, ap, ◌∙◌, Text, Option, none, some, ok, Returns, Returns-bind,
  Returns-require, Returns-ok, arith, conflict, unprocessable, not_found, is_some, present,
  present-eq-ok, text_eq, lower,
}
use securtxn.Types.{
  is_status, PaymentStatus, is_locked, HtlcStatus, pending_lock, locked, claimed, refunded,
  ExceptionType,
}
use securtxn.Platform.{Platform}
use securtxn.Deps.{Deps}
use securtxn.Eip712.{verify_acknowledgment, build_acknowledgment_message}
use securtxn.Htlc.{hashlock_for}
use securtxn.Evidence.Service.{append}
use securtxn.Store.Rows.{PaymentRequest, HtlcSettlement, RecipientAcknowledgment, Db}
use securtxn.Store.Queries.{find_payment, find_wallet}
use securtxn.Consent.Checks.{is_settled}
use securtxn.Payments.Acknowledge.{
  acknowledge, AcknowledgmentRequest, acknowledged, commitment_over,
}
use securtxn.Settlement.{
  load_settlement, record_claim, RecordClaimRequest, claimed_with, record_refund, refunded_with,
  is_expired,
}
use securtxn.Exceptions.{create_within}
use securtxn.Lifecycle.{Good, AllGood, authorised, escrow_fits, fits_by}
use securtxn.Lifecycle.Appends.{append-Good, find_payment-Good, save_payment-AllGood, same-Good}
use securtxn.Lifecycle.Decisions.{create_within-Good}

-- A receipt never breaks what an escrow asks.
receipt-fits :
    (pf : Platform) (st : PaymentStatus) (a b : Option RecipientAcknowledgment) (s : HtlcSettlement)
    (h : HtlcStatus)
    → is_some b ≡ true
    → fits_by pf st a s h ≡ true
    → fits_by pf st b s h ≡ true
receipt-fits pf st a b s pending_lock i f = f
receipt-fits pf st a b s locked i f = f
receipt-fits pf st a b s claimed i f = ground arith
receipt-fits pf st a b s refunded i f = f

receipt-escrow_fits :
    (pf : Platform) (st : PaymentStatus) (a b : Option RecipientAcknowledgment)
    (h : Option HtlcSettlement)
    → is_some b ≡ true
    → escrow_fits pf st a h ≡ true
    → escrow_fits pf st b h ≡ true
unfolding escrow_fits
receipt-escrow_fits pf st a b none i f = refl
receipt-escrow_fits pf st a b (some s) i f = receipt-fits pf st a b s s.status i f

pub acknowledge-AllGood :
    (deps : Deps) (now : ℕ) (id : Text) (input : AcknowledgmentRequest) (db : Db)
    → AllGood deps.platform db
    → Returns (AllGood deps.platform) (acknowledge deps now id input db)
unfolding acknowledge
acknowledge-AllGood deps now id input db g = Returns-bind _ (find_payment id db) _ λ p found.
    Returns-require _ (is_settled p.status) unprocessable _ λ _.
      Returns-require _ (not (is_some p.recipient_ack)) conflict _ λ _.
        Returns-bind _ (find_wallet p.vendor_wallet_id db) _ λ wallet _.
          Returns-require _ (text_eq (lower input.recipient_address) (lower wallet.address))
            unprocessable _
            λ _. Returns-bind _ (commitment_over deps.platform input.acknowledged_context) _ λ c _.
              Returns-require _
                (verify_acknowledgment deps.platform deps.hedera_chain_id input.recipient_address
                  input.recipient_signature
                  (build_acknowledgment_message p.id input.recipient_address c))
                unprocessable _
                λ _.
                  Returns-bind _ (append deps.platform now _ (acknowledged input c p)) _
                    λ q recorded.
                      let good = find_payment-Good deps.platform id db p found g in
                      save_payment-AllGood deps.platform q db g (
                        append-Good deps.platform now _ _ q recorded (
                          same-Good deps.platform p _ good refl refl refl refl (
                            receipt-escrow_fits deps.platform p.status p.recipient_ack _
                              p.htlc_settlement refl good.escrow)))

-- The payment of an escrow that is locked has settled.
locked-is_settled :
    (pf : Platform) (st : PaymentStatus) (a : Option RecipientAcknowledgment) (s : HtlcSettlement)
    (h : HtlcStatus)
    → is_locked h ≡ true
    → fits_by pf st a s h ≡ true
    → is_settled st ≡ true
locked-is_settled pf st a s pending_lock l f = cc
locked-is_settled pf st a s locked l f = f
locked-is_settled pf st a s claimed l f = cc
locked-is_settled pf st a s refunded l f = cc

pub found-is_settled :
    (pf : Platform) (p : PaymentRequest) (s : HtlcSettlement)
    → Good pf p
    → p.htlc_settlement ≡ some s
    → is_locked s.status ≡ true
    → is_settled p.status ≡ true
unfolding escrow_fits
found-is_settled pf p s g e l =
    locked-is_settled pf p.status p.recipient_ack s s.status l
      (sym (ap (escrow_fits pf p.status p.recipient_ack) e) ∙ g.escrow)

claimed_with-Good :
    (pf : Platform) (now : ℕ) (input : RecordClaimRequest) (s : HtlcSettlement) (p : PaymentRequest)
    → Good pf p
    → is_settled p.status ≡ true
    → text_eq (lower (hashlock_for pf input.preimage)) (lower s.hashlock) ≡ true
    → Good pf (claimed_with now input s p)
unfolding claimed_with escrow_fits
claimed_with-Good pf now input s p g l h = same-Good pf p _ g refl refl refl refl (ground arith)

pub load_settlement-Good :
    (pf : Platform) (id : Text) (db : Db) (found : PaymentRequest × HtlcSettlement)
    → AllGood pf db
    → load_settlement id db ≡ ok found
    → Good pf found.0 × ((found.0).htlc_settlement ≡ some found.1)
unfolding load_settlement
load_settlement-Good pf id db found g h =
    Returns-ok (λ f. Good pf f.0 × ((f.0).htlc_settlement ≡ some f.1)) _ found
      (Returns-bind _ (find_payment id db) _ λ p here.
        Returns-bind _ (present p.htlc_settlement not_found) _ λ s there.
          (find_payment-Good pf id db p here g, present-eq-ok p.htlc_settlement not_found there))
      h

pub record_claim-AllGood :
    (deps : Deps) (now : ℕ) (id : Text) (input : RecordClaimRequest) (db : Db)
    → AllGood deps.platform db
    → Returns (AllGood deps.platform) (record_claim deps now id input db)
unfolding record_claim load_settlement
record_claim-AllGood deps now id input db g =
    Returns-bind _ (load_settlement id db) _ λ found loaded.
      Returns-require _ (is_locked (found.1).status) conflict _ λ l.
        Returns-require _
          (text_eq (lower (hashlock_for deps.platform input.preimage)) (lower (found.1).hashlock))
          unprocessable _
          λ opened.
            Returns-bind _ (append deps.platform now _ (claimed_with now input found.1 found.0)) _
              λ q claimed_it. Returns-bind _ (append deps.platform now _ q) _ λ r received.
                let (good, here) = load_settlement-Good deps.platform id db found g loaded in
                save_payment-AllGood deps.platform r db g (
                  append-Good deps.platform now _ q r received (
                    append-Good deps.platform now _ _ q claimed_it (
                      claimed_with-Good deps.platform now input found.1 found.0 good
                        (found-is_settled deps.platform found.0 found.1 good here l) opened)))

pub refunded_with-Good :
    (pf : Platform) (now : ℕ) (tx : Text) (s : HtlcSettlement) (p : PaymentRequest)
    → Good pf p
    → Good pf (refunded_with now tx s p)
unfolding refunded_with escrow_fits authorised is_status
refunded_with-Good pf now tx s p g = record { chain = g.chain; allowed = refl; escrow = refl }

pub record_refund-AllGood :
    (deps : Deps) (now : ℕ) (case_id id tx : Text) (db : Db)
    → AllGood deps.platform db
    → Returns (AllGood deps.platform) (record_refund deps now case_id id tx db)
unfolding record_refund
record_refund-AllGood deps now case_id id tx db g =
    Returns-bind _ (load_settlement id db) _ λ found loaded.
      Returns-require _ (is_locked (found.1).status) conflict _ λ _.
        Returns-require _ (is_expired now found.1) unprocessable _ λ _.
          Returns-bind _ (append deps.platform now _ (refunded_with now tx found.1 found.0)) _
            λ q refunded_it.
              Returns-bind _ (create_within deps now case_id ExceptionType.misdirect _ q) _
                λ r opened.
                  let (good, _) = load_settlement-Good deps.platform id db found g loaded in
                  save_payment-AllGood deps.platform r db g (
                    Returns-ok _ _ r
                      (create_within-Good deps now case_id ExceptionType.misdirect _ q (
                        append-Good deps.platform now _ _ q refunded_it
                          (refunded_with-Good deps.platform now tx found.1 found.0 good)))
                      opened)
