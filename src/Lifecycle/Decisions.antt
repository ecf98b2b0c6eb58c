-- ===== src/Lifecycle/Decisions.antt =====
-- apps/api/src/modules/payments/service.ts and modules/exceptions: the invariant through create,
-- runDecision and the operations on cases.
use securtxn.Prelude.{
  ℕ, true, not, ◌||◌, ◌≡◌, refl, sym, ap, ◌∙◌, Text, some, List, [], ◌∷◌, All, All-append, Returns,
  Returns-bind, Returns-require, Returns-eq, Returns-ok, ite-Returns, arith, conflict,
  unprocessable, unique_violation, not_found, is_some, present, present-eq-ok, text_eq, Bool-cases,
  inl, inr,
}
use securtxn.Types.{
  draft, decision_pending, is_status, PaymentStatus, ExceptionType, DecisionReasonCode,
}
use securtxn.Platform.{Platform}
use securtxn.Deps.{Deps}
use securtxn.Decision.{Decision}
use securtxn.Evidence.Service.{append}
use securtxn.Store.Rows.{PaymentRequest, Db}
use securtxn.Store.Queries.{find, first-All, find_payment}
use securtxn.Payments.{create, CreatePaymentRequest, new_payment}
use securtxn.Payments.Decide.{
  run_decision, gather, Gatherers, Gathered, MatchAnswer, write_decision, decided, open_duplicate,
  alert, has_accepted_consent, is_duplicate_reason,
}
use securtxn.Exceptions.{
  create_within, open_exception, update_exception, UpdateExceptionRequest, find_by_case,
  is_terminal,
}
use securtxn.Evidence.Service.Laws.{empty-HasChain}
use securtxn.Lifecycle.{Good, AllGood, authorised, escrow_fits}
use securtxn.Lifecycle.Appends.{
  append-Good, find_payment-Good, save_payment-AllGood, is_early, early-Good, same-Good,
  is_early-is_status,
}

-- A case is opened without a change to the rest of the payment.
pub create_within-Good :
    (deps : Deps) (now : ℕ) (id : Text) (type : ExceptionType) (by : Text) (p : PaymentRequest)
    → Good deps.platform p
    → Returns (Good deps.platform) (create_within deps now id type by p)
unfolding create_within
create_within-Good deps now id type by p g =
    Returns-require _ (not (is_some p.exception_case)) unique_violation _ λ _.
      Returns-eq _ _ (λ q h.
        append-Good deps.platform now _ _ q h
          (same-Good deps.platform p _ g refl refl refl refl g.escrow))

open_duplicate-Good :
    (deps : Deps) (now : ℕ) (id : Text) (reason : DecisionReasonCode) (p : PaymentRequest)
    → Good deps.platform p
    → Returns (Good deps.platform) (open_duplicate deps now id reason p)
unfolding open_duplicate
open_duplicate-Good deps now id reason p g =
    ite-Returns _ (is_duplicate_reason reason) _ _ (create_within-Good deps now id _ _ p g) g

decided-keeps :
    (v : Decision) (p : PaymentRequest)
    → ((decided v p).evidence_records ≡ p.evidence_records)
      × ((decided v p).htlc_settlement ≡ p.htlc_settlement)
unfolding decided
decided-keeps v p = (refl, refl)

undecided-is_early :
    (s : PaymentStatus)
    → (is_status s draft || is_status s decision_pending) ≡ true
    → is_early s ≡ true
undecided-is_early s h = elim (Bool-cases (is_status s draft)) [
  | inl d ↦ is_early-is_status s draft d refl
  | inr d ↦
      is_early-is_status s decision_pending
        (sym (ap (λ b. b || is_status s decision_pending) d) ∙ h) refl
]

alert-payments :
    (now : ℕ) (answer : MatchAnswer) (p : PaymentRequest) (db : Db)
    → (alert now answer p db).payment_requests ≡ db.payment_requests
unfolding alert
alert-payments now answer p db = ground arith

decided-authorised :
    (v : Decision) (p : PaymentRequest)
    → has_accepted_consent p ≡ true
    → authorised (decided v p).status (decided v p).payee_consent (decided v p).decision ≡ true
unfolding authorised decided
decided-authorised v p h = ground arith

write_decision-Good :
    (deps : Deps) (now : ℕ) (id : Text) (f : Gathered) (p : PaymentRequest)
    → Good deps.platform p
    → is_early p.status ≡ true
    → has_accepted_consent p ≡ true
    → Returns (Good deps.platform) (write_decision deps now id f p)
unfolding write_decision
write_decision-Good deps now id f p g e c =
    Returns-bind _ (append deps.platform now _ (decided f.verdict p)) _ λ q matched.
      Returns-bind _ (append deps.platform now _ q) _ λ r told.
        open_duplicate-Good deps now id f.verdict.reason_code r (
          append-Good deps.platform now _ q r told (
            append-Good deps.platform now _ _ q matched (
              early-Good deps.platform p _ g e (decided-keeps f.verdict p).0
                (decided-keeps f.verdict p).1 (decided-authorised f.verdict p c))))

pub run_decision-AllGood :
    (deps : Deps) (gs : Gatherers) (now : ℕ) (case_id id : Text) (db : Db)
    → AllGood deps.platform db
    → Returns (λ r. AllGood deps.platform r.2) (run_decision deps gs now case_id id db)
unfolding run_decision
run_decision-AllGood deps gs now case_id id db g = Returns-bind _ (find_payment id db) _ λ p found.
    Returns-require _ (is_status p.status draft || is_status p.status decision_pending) conflict _
      λ early. Returns-require _ (has_accepted_consent p) unprocessable _ λ agreed.
        Returns-bind _ (gather deps gs p db) _ λ f _.
          Returns-bind _ (write_decision deps now case_id f p) _ λ q written.
            save_payment-AllGood deps.platform q _ (rw (alert-payments now f.answer p db) g) (
              Returns-ok _ _ q
                (write_decision-Good deps now case_id f p
                  (find_payment-Good deps.platform id db p found g)
                  (undecided-is_early p.status early) agreed)
                written)

find_by_case-Good :
    (pf : Platform) (id : Text) (ps : List PaymentRequest) (p : PaymentRequest)
    → All (Good pf) ps
    → find_by_case id ps ≡ some p
    → Good pf p
unfolding find_by_case
find_by_case-Good pf id ps p g h = first-All (Good pf) _ ps p g h

new_payment-Good :
    (pf : Platform) (id : Text) (i : CreatePaymentRequest) → Good pf (new_payment pf id i)
unfolding new_payment authorised escrow_fits
new_payment-Good pf id i = record { chain = empty-HasChain pf; allowed = refl; escrow = refl }

pub create-AllGood :
    (pf : Platform) (id : Text) (i : CreatePaymentRequest) (db : Db)
    → AllGood pf db
    → Returns (λ r. AllGood pf r.1) (create pf id i db)
unfolding create
create-AllGood pf id i db g =
    Returns-bind _ (present (find (λ w. w.id) i.vendor_wallet_id db.vendor_wallets) not_found) _
      λ wallet _. Returns-require _ (text_eq wallet.vendor_id i.vendor_id) not_found _ λ _.
        Returns-require _ (text_eq wallet.network i.network) unprocessable _ λ _.
          All-append (Good pf) db.payment_requests (new_payment pf id i ∷ []) g
            (new_payment-Good pf id i, tt)

pub open_exception-AllGood :
    (deps : Deps) (now : ℕ) (new_id id : Text) (type : ExceptionType) (by : Text) (db : Db)
    → AllGood deps.platform db
    → Returns (AllGood deps.platform) (open_exception deps now new_id id type by db)
unfolding open_exception
open_exception-AllGood deps now new_id id type by db g =
    Returns-bind _ (find_payment id db) _ λ p found.
      Returns-require _ (not (is_some p.exception_case)) conflict _ λ _.
        Returns-bind _ (create_within deps now new_id type by p) _ λ q opened.
          save_payment-AllGood deps.platform q db g (
            Returns-ok _ _ q
              (create_within-Good deps now new_id type by p
                (find_payment-Good deps.platform id db p found g))
              opened)

pub update_exception-AllGood :
    (pf : Platform) (now : ℕ) (id : Text) (input : UpdateExceptionRequest) (db : Db)
    → AllGood pf db
    → Returns (λ r. AllGood pf r.1) (update_exception now id input db)
unfolding update_exception
update_exception-AllGood pf now id input db g =
    Returns-bind _ (present (find_by_case id db.payment_requests) not_found) _ λ p found.
      Returns-bind _ (present p.exception_case not_found) _ λ existing _.
        Returns-require _ (not (is_terminal existing.status)) conflict _ λ _.
          let good =
            find_by_case-Good pf id db.payment_requests p g (present-eq-ok _ not_found found) in
          save_payment-AllGood pf _ db g (same-Good pf p _ good refl refl refl refl good.escrow)
