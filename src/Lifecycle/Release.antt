-- ===== src/Lifecycle/Release.antt =====
-- apps/api/src/modules/approvals: the invariant through propose and reportSent.
use securtxn.Prelude.{
  ℕ, true, not, ◌≡◌, refl, ap, Text, Option, Returns, Returns-bind, Returns-require, arith,
  conflict, unprocessable, unique_violation, not_found, is_some, present, present-eq-ok,
}
use securtxn.Types.{is_status, awaiting_approval, sent, PaymentStatus}
use securtxn.Types.Laws.{is_status-eq}
use securtxn.Platform.{Platform}
use securtxn.Deps.{Deps}
use securtxn.Evidence.Service.{append}
use securtxn.Store.Rows.{PaymentRequest, Proposal, Db}
use securtxn.Store.Queries.{first-All, find_payment, find_wallet}
use securtxn.Approvals.{propose, report_sent, ReportSentRequest, find_by_proposal, reported}
use securtxn.Lifecycle.{Good, AllGood, authorised, is_released}
use securtxn.Lifecycle.Appends.{
  append-Good, find_payment-Good, save_payment-AllGood, early-Good, same-Good, is_early-is_status,
}

pub propose-AllGood :
    (pf : Platform) (now : ℕ) (new_id id by : Text) (selfie : Option Text) (db : Db)
    → AllGood pf db
    → Returns (AllGood pf) (propose now new_id id by selfie db)
unfolding propose
propose-AllGood pf now new_id id by selfie db g = Returns-bind _ (find_payment id db) _ λ p found.
    Returns-require _ (is_status p.status awaiting_approval) unprocessable _ λ _.
      Returns-require _ (not (is_some p.proposal)) conflict _ λ _.
        let good = find_payment-Good pf id db p found g in
        save_payment-AllGood pf _ db g (same-Good pf p _ good refl refl refl refl good.escrow)

-- A released payment stays allowed in every status.
pub released-authorised :
    (s t : PaymentStatus) (p : PaymentRequest)
    → authorised s p.payee_consent p.decision ≡ true
    → is_released s ≡ true
    → authorised t p.payee_consent p.decision ≡ true
unfolding authorised
released-authorised s t p a r = ground arith

reported-Good :
    (pf : Platform) (now : ℕ) (input : ReportSentRequest) (m : Proposal) (p : PaymentRequest)
    → Good pf p
    → is_status p.status awaiting_approval ≡ true
    → Good pf (reported now input m p)
reported-Good pf now input m p g e =
    early-Good pf p _ g (is_early-is_status p.status awaiting_approval e refl) refl refl (
      released-authorised p.status sent p g.allowed
        (ap is_released (is_status-eq p.status awaiting_approval e)))

pub report_sent-AllGood :
    (deps : Deps) (now : ℕ) (id : Text) (input : ReportSentRequest) (db : Db)
    → AllGood deps.platform db
    → Returns (AllGood deps.platform) (report_sent deps now id input db)
unfolding report_sent find_by_proposal
report_sent-AllGood deps now id input db g =
    Returns-bind _ (present (find_by_proposal id db.payment_requests) not_found) _ λ p found.
      Returns-bind _ (present p.proposal not_found) _ λ m _.
        Returns-bind _ (find_wallet p.vendor_wallet_id db) _ λ wallet _.
          Returns-require _ (not (is_some m.consumed_at)) conflict _ λ _.
            Returns-require _ (is_status p.status awaiting_approval) conflict _ λ waiting.
              Returns-require _ (not (is_some p.approval_event)) unique_violation _ λ _.
                Returns-bind _ (append deps.platform now _ (reported now input m p)) _
                  λ r approved_it. Returns-bind _ (append deps.platform now _ r) _ λ s sent_it.
                    let good =
                      first-All (Good deps.platform) _ db.payment_requests p g
                        (present-eq-ok _ not_found found) in
                    save_payment-AllGood deps.platform s db g (
                      append-Good deps.platform now _ r s sent_it (
                        append-Good deps.platform now _ _ r approved_it
                          (reported-Good deps.platform now input m p good waiting)))
