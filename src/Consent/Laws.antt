-- ===== src/Consent/Laws.antt =====
-- apps/api/src/modules/consent/service.ts: what an acceptance rests on.
use securtxn.Prelude.{
  ℕ, true, false, not, ◌&&◌, ◌≡◌, sym, ap, ◌∙◌, Text, text_eq, lower, some, none, [], ok, Returns,
  Returns-bind, Returns-require, Returns-ok, present, present-eq-ok, conflict, forbidden,
  unprocessable, invalid_value, is_some, not-true, if◌then◌else◌, ◌>>=◌,
}
use securtxn.Types.{is_status, awaiting_payee_consent, is_accepted, is_confirmed}
use securtxn.Deps.{Deps}
use securtxn.Eip712.{build_payee_consent_message, verify_payee_consent}
use securtxn.Evidence.Service.{append}
use securtxn.Store.Rows.{PaymentRequest, VendorWallet, Db}
use securtxn.Store.Queries.{find_payment, find_wallet}
use securtxn.Consent.{decide_consent, PayeeConsentRequest, admit_acceptance, append_check, answered}
use securtxn.Consent.Checks.{assess, require_world_id_check}

-- The signer is the payment's wallet, which is confirmed, and has signed the payment's own terms.
pub record Signed (deps : Deps) (p : PaymentRequest) (input : PayeeConsentRequest) (db : Db)
    : Type 0 where
  pub wallet : VendorWallet
  pub wallet_found : find_wallet p.vendor_wallet_id db ≡ ok wallet
  pub confirmed : is_confirmed wallet.status ≡ true
  pub signer : Text
  pub signature : Text
  pub signer_given : input.signer_address ≡ some signer
  pub signature_given : input.signature ≡ some signature
  pub signer_is_wallet : text_eq (lower signer) (lower wallet.address) ≡ true
  pub verified :
      verify_payee_consent deps.platform deps.hedera_chain_id signer signature (
        build_payee_consent_message p.id wallet.address
          (deps.platform.decimal_text p.amount)
          p.token
          p.invoice_ref)
      ≡ true

-- The payment waited for its payee, had no answer yet, and the payee has signed.
pub record Agreed (deps : Deps) (id : Text) (input : PayeeConsentRequest) (db : Db) : Type 0 where
  pub payment : PaymentRequest
  pub found : find_payment id db ≡ ok payment
  pub waiting : is_status payment.status awaiting_payee_consent ≡ true
  pub unanswered : is_some payment.payee_consent ≡ false
  pub signed : Signed deps payment input db

admit_acceptance-Signed :
    (deps : Deps) (now : ℕ) (p : PaymentRequest) (input : PayeeConsentRequest) (db : Db)
    → Returns (λ _. Signed deps p input db) (admit_acceptance deps now p input db)
unfolding admit_acceptance
admit_acceptance-Signed deps now p input db =
    Returns-bind _ (find_wallet p.vendor_wallet_id db) _ λ w here.
      Returns-bind _ (present input.signer_address invalid_value) _ λ signer s.
        Returns-require _ (text_eq (lower signer) (lower w.address)) forbidden _ λ same.
          Returns-require _ (is_confirmed w.status) unprocessable _ λ confirmed.
            Returns-bind _ (present input.signature invalid_value) _ λ signature t.
              Returns-require _
                (verify_payee_consent deps.platform deps.hedera_chain_id signer signature (
                  build_payee_consent_message p.id w.address (deps.platform.decimal_text p.amount)
                    p.token p.invoice_ref))
                forbidden _
                λ verified. Returns-bind _ (assess deps now p db) _ λ challenge _.
                  Returns-bind _
                    (if challenge.required && deps.world_feature_flag_enabled
                      then (require_world_id_check p.vendor_id p.id input.world_id_verification_id
                            db
                          >>= λ e. ok (some e))
                      else ok none)
                    _
                    λ check _. record {
                      wallet = w;
                      wallet_found = here;
                      confirmed = confirmed;
                      signer = signer;
                      signature = signature;
                      signer_given = present-eq-ok input.signer_address invalid_value s;
                      signature_given = present-eq-ok input.signature invalid_value t;
                      signer_is_wallet = same;
                      verified = verified;
                    }

-- An acceptance is recorded only for a payment that waits for its payee and has no answer, under a
-- signature of its wallet, which is confirmed, over the payment's own id, address, amount, token
-- and invoice.
pub decide_consent-Agreed :
    (deps : Deps) (now : ℕ) (id : Text) (input : PayeeConsentRequest) (db db' : Db)
    → is_accepted input.decision ≡ true
    → decide_consent deps now id input db ≡ ok db'
    → Agreed deps id input db
unfolding decide_consent
decide_consent-Agreed deps now id input db db' accepts h =
    Returns-ok (λ _. Agreed deps id input db) _ db'
      (Returns-bind _ (find_payment id db) _ λ p found.
        Returns-require _ (is_status p.status awaiting_payee_consent) conflict _ λ waiting.
          Returns-require _ (not (is_some p.payee_consent)) conflict _ λ free.
            Returns-bind _
              (if is_accepted input.decision
                then admit_acceptance deps now p input db
                else ok (record { triggers = []; payee_check = none }))
              _
              λ admitted admitting.
                Returns-bind _ (append_check deps now admitted.payee_check (answered input p)) _
                  λ q _. Returns-bind _ (append deps.platform now _ q) _ λ r _. record {
                    payment = p;
                    found = found;
                    waiting = waiting;
                    unanswered = not-true (is_some p.payee_consent) free;
                    signed =
                        Returns-ok (λ _. Signed deps p input db)
                          (admit_acceptance deps now p input db) admitted
                          (admit_acceptance-Signed deps now p input db)
                          (sym (
                              ap
                                (λ b.
                                  if b
                                  then admit_acceptance deps now p input db
                                  else ok (record { triggers = []; payee_check = none }))
                                accepts)
                            ∙ admitting);
                  })
      h
