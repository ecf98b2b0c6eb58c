-- ===== src/Wallets/GrantOnce.antt =====
-- apps/api/src/modules/wallets/service.ts: grantOnChainKyc called again.
use securtxn.Prelude.{
  some-injective, none-not-some, ℕ, not, ◌≡◌, refl, sym, ap, ◌∙◌, Option, none, some, [], ◌∷◌, Text,
  text_eq, filled, is_some, Result, ok, err, Returns, Returns-bind, Returns-require, unprocessable,
  conflict, not_found, present, present-eq-ok, ok-injective, >>=-split,
}
use securtxn.Types.{is_confirmed}
use securtxn.Deps.{OnboardingDeps}
use securtxn.Store.Rows.{VerifiableCredential, Db}
use securtxn.Store.Queries.{first-test, first-put}
use securtxn.Wallets.{require_pair}
use securtxn.Wallets.Credential.{is_usable}
use securtxn.Wallets.Grant.{
  GrantKycInput, GrantGateway, GrantResponse, find_credential, plan_grant, write_grant,
  carry_out_grant, grant_on_chain_kyc,
}
use securtxn.Wallets.Granted.{Planned, plan_grant-Grantable, not_some-none}

find_credential-write_grant :
    (wallet_id tx : Text) (c : VerifiableCredential) (db : Db)
    → find_credential wallet_id db ≡ ok c
    → find_credential wallet_id (write_grant c (some tx) db)
      ≡ ok (record c { granted_tx_hash = some tx })
unfolding find_credential write_grant
find_credential-write_grant wallet_id tx c db h =
    let test = λ (d : VerifiableCredential). text_eq d.wallet_id wallet_id in
    let found = present-eq-ok _ not_found h in
    let granted : VerifiableCredential = record c { granted_tx_hash = some tx } in
    rw
      (first-put (λ d. d.id) test c granted db.verifiable_credentials found refl
        (first-test test db.verifiable_credentials c found))
      refl

-- No grant is planned for a wallet whose credential carries a hash.
Granted-no_plan :
    (deps : OnboardingDeps) (gateway : GrantGateway) (now : ℕ) (vendor_id wallet_id : Text)
    (db : Db) (c : VerifiableCredential) (t : Text)
    → find_credential wallet_id db ≡ ok c
    → filled c.granted_tx_hash ≡ some t
    → Returns (λ _. ⊥) (plan_grant deps gateway now vendor_id wallet_id db)
unfolding plan_grant
Granted-no_plan deps gateway now vendor_id wallet_id db c t found granted =
    Returns-bind _ (require_pair vendor_id wallet_id db) _ λ (v, w) own.
      Returns-require _ (is_confirmed w.status) unprocessable _ λ _.
        Returns-bind _ (present (filled deps.ats_security_id) unprocessable) _ λ security _.
          Returns-bind _ (find_credential wallet_id db) _ λ d again.
            Returns-require _ (is_usable d now) unprocessable _ λ _.
              Returns-require _ (not (is_some (filled d.granted_tx_hash))) conflict _ λ fresh.
                absurd (
                  none-not-some (
                    sym (not_some-none _ fresh)
                    ∙ ap (λ e. filled e.granted_tx_hash) (ok-injective (sym again ∙ found))
                    ∙ granted))

carry_out_grant-none :
    (gateway : GrantGateway) (db : Db) (r : Result (VerifiableCredential × GrantKycInput))
    → Returns (λ _. ⊥) r
    → (carry_out_grant gateway db r).asked ≡ []
carry_out_grant-none gateway db (err e) h = refl
carry_out_grant-none gateway db (ok a) h = absurd h

filled_idem : (o : Option Text) (t : Text) → filled o ≡ some t → filled (some t) ≡ some t
filled_idem none t h = cc
filled_idem (some []) t h = cc
filled_idem (some (c ∷ s)) t h = rw (sym (some-injective h)) refl

-- A grant that returned a hash has written it to the credential.
granted-written :
    (deps : OnboardingDeps) (gateway : GrantGateway) (now : ℕ) (vendor_id wallet_id : Text)
    (db after : Db) (r : GrantResponse) (tx : Text)
    (p : Result (VerifiableCredential × GrantKycInput))
    → Returns (Planned deps gateway now vendor_id wallet_id db) p
    → (carry_out_grant gateway db p).result ≡ ok (r, after)
    → filled r.tx_hash ≡ some tx
    → (c : VerifiableCredential) × (find_credential wallet_id db ≡ ok c)
      × (after ≡ write_grant c (some tx) db)
granted-written deps gateway now vendor_id wallet_id db after r tx (err e) g h t = cc
granted-written deps gateway now vendor_id wallet_id db after r tx (ok (c, i)) g h t =
    let (answer, k, _) = >>=-split _ (gateway.grant_kyc i) h in
    let e = ok-injective k in
    (
      c,
      g.0,
      sym (ap (λ q. q.1) e)
          ∙ ap (λ o. write_grant c o db)
              (ap (λ (q : GrantResponse × Db). filled (q.0).tx_hash) e ∙ t),
    )

-- On the database that a grant with a transaction leaves, the chain is never asked again for the
-- wallet, with whatever gateway and at whatever time.
pub grant_on_chain_kyc-once :
    (deps : OnboardingDeps) (gateway gateway' : GrantGateway) (now now' : ℕ)
    (vendor_id wallet_id : Text) (db after : Db) (r : GrantResponse) (tx : Text)
    → (grant_on_chain_kyc deps gateway now vendor_id wallet_id db).result ≡ ok (r, after)
    → filled r.tx_hash ≡ some tx
    → (grant_on_chain_kyc deps gateway' now' vendor_id wallet_id after).asked ≡ []
unfolding grant_on_chain_kyc
grant_on_chain_kyc-once deps gateway gateway' now now' vendor_id wallet_id db after r tx h t =
    let (c, found, written) =
      granted-written deps gateway now vendor_id wallet_id db after r tx
        (plan_grant deps gateway now vendor_id wallet_id db)
        (plan_grant-Grantable deps gateway now vendor_id wallet_id db) h t in
    carry_out_grant-none gateway' after (plan_grant deps gateway' now' vendor_id wallet_id after) (
      Granted-no_plan deps gateway' now' vendor_id wallet_id after
        (record c { granted_tx_hash = some tx }) tx
        (rw written (find_credential-write_grant wallet_id tx c db found))
        (filled_idem r.tx_hash tx t))
