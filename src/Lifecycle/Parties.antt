-- ===== src/Lifecycle/Parties.antt =====
-- apps/api/src/modules/consent: the invariant through request and decide.
use securtxn.Prelude.{
  ℕ, true, ◌≡◌, refl, sym, Text, Option, none, some, [], ok, ok-injective, Returns, Returns-bind,
  Returns-require, ok-injective, Returns, Returns-bind, Returns-require, arith, conflict,
  unprocessable, forbidden, not, is_some, present, if◌then◌else◌,
}
use securtxn.Types.{draft, awaiting_payee_consent, is_status, is_accepted}
use securtxn.Deps.{Deps}
use securtxn.Evidence.Payload.{EvidenceEvent}
use securtxn.Store.Rows.{PaymentRequest, Db}
use securtxn.Evidence.Service.{append}
use securtxn.Store.Queries.{find_payment}
use securtxn.Consent.{
  request, append_check, is_blocked, decide_consent, PayeeConsentRequest, admit_acceptance,
  answered,
}
use securtxn.Consent.Checks.{require_sender_check, assess}
use securtxn.Lifecycle.{Good, AllGood, authorised}
use securtxn.Lifecycle.Appends.{
  append-Good, find_payment-Good, save_payment-AllGood, early-Good, is_early-is_status,
}

append_check-Good :
    (deps : Deps) (now : ℕ) (event : Option EvidenceEvent) (p q : PaymentRequest)
    → append_check deps now event p ≡ ok q
    → Good deps.platform p
    → Good deps.platform q
unfolding append_check
append_check-Good deps now none p q h g = rw (sym (ok-injective h)) g
append_check-Good deps now (some event) p q h g = append-Good deps.platform now event p q h g

pub request-AllGood :
    (deps : Deps) (now : ℕ) (id : Text) (db : Db)
    → AllGood deps.platform db
    → Returns (λ r. AllGood deps.platform r.1) (request deps now id db)
unfolding request authorised
request-AllGood deps now id db g = Returns-bind _ (find_payment id db) _ λ p found.
    Returns-require _ (is_status p.status draft) conflict _ λ early.
      Returns-bind _ (present p.payer_vendor_id unprocessable) _ λ payer _.
        Returns-require _ (not (is_blocked p.vendor_id payer db)) forbidden _ λ _.
          Returns-bind _ (require_sender_check deps payer p.id db) _ λ event _.
            Returns-bind _ (assess deps now p db) _ λ c _.
              Returns-bind _
                (append_check deps now event (record p { status = awaiting_payee_consent })) _
                λ q asked.
                  let good = find_payment-Good deps.platform id db p found g in
                  let e = is_early-is_status p.status draft early refl in
                  save_payment-AllGood deps.platform q _ g (
                    append_check-Good deps now event _ q asked
                      (early-Good deps.platform p _ good e refl refl refl))

answered-authorised :
    (input : PayeeConsentRequest) (p : PaymentRequest)
    → authorised
        (answered input p).status
        (answered input p).payee_consent
        (answered input p).decision
      ≡ true
unfolding authorised
answered-authorised input p = ground arith

pub decide_consent-AllGood :
    (deps : Deps) (now : ℕ) (id : Text) (input : PayeeConsentRequest) (db : Db)
    → AllGood deps.platform db
    → Returns (AllGood deps.platform) (decide_consent deps now id input db)
unfolding decide_consent authorised
decide_consent-AllGood deps now id input db g = Returns-bind _ (find_payment id db) _ λ p found.
    Returns-require _ (is_status p.status awaiting_payee_consent) conflict _ λ early.
      Returns-require _ (not (is_some p.payee_consent)) conflict _ λ _.
        Returns-bind _
          (if is_accepted input.decision
            then admit_acceptance deps now p input db
            else ok (record { triggers = []; payee_check = none }))
          _
          λ admitted _.
            Returns-bind _ (append_check deps now admitted.payee_check (answered input p)) _
              λ q checked. Returns-bind _ (append deps.platform now _ q) _ λ r recorded.
                let good = find_payment-Good deps.platform id db p found g in
                let e = is_early-is_status p.status awaiting_payee_consent early refl in
                save_payment-AllGood deps.platform r db g (
                  append-Good deps.platform now _ q r recorded (
                    append_check-Good deps now admitted.payee_check _ q checked (
                      early-Good deps.platform p (answered input p) good e refl refl
                        (answered-authorised input p))))
