-- ===== src/Onboarding/Confirms.antt =====
-- apps/api/src/modules/wallets: the confirmation, the credential and the grant keep the rows good.
use securtxn.Prelude.{
  ℕ, true, not, ◌&&◌, ◌≡◌, refl, Option, none, some, Text, text_eq, filled, is_some, any,
  All-append, Result, ok, err, Returns, Returns-bind, Returns-require, Returns-ok, present-eq-ok,
  not_found, unique_violation,
}
use securtxn.Deps.{OnboardingDeps}
use securtxn.Store.Rows.{Vendor, VendorWallet, VerifiableCredential, Db}
use securtxn.Store.Queries.{save_wallet, put-All, first-All}
use securtxn.Wallets.{CallbackConfirmRequest, WalletSummary, to_wallet_summary}
use securtxn.Wallets.Gates.{Gates, admit_callback-Gates}
use securtxn.Wallets.Guard.{IndependentContact}
use securtxn.Wallets.Credential.{IssuedCredential, IssueInput, issue_credential, hash_claims}
use securtxn.Wallets.Confirm.{
  admit_callback, confirmed_with, claims_for, issue_input, credential_row, create_credential, mint,
  issue_verification_credential, after_minting, confirm_found, confirm_callback,
}
use securtxn.Wallets.Grant.{
  GrantGateway, GrantKycInput, find_credential, plan_grant, write_grant, carry_out_grant,
  grant_on_chain_kyc,
}
use securtxn.Wallets.Granted.{Planned, plan_grant-Grantable}
use securtxn.Onboarding.{WalletGood, CredentialGood, Good}
use securtxn.Onboarding.Keeps.{save_wallet-Good}
use securtxn.Onboarding.Proves.{Pair, require_pair-Pair}

filled-is_some : (o : Option Text) → is_some (filled o) ≡ true → is_some o ≡ true
filled-is_some none h = cc
filled-is_some (some t) h = refl

module _ (deps : OnboardingDeps) where
  confirmed_with-Good :
      (now : ℕ) (i : CallbackConfirmRequest) (w : VendorWallet)
      → is_some (filled w.control_proof_sig) ≡ true
      → WalletGood deps w
      → WalletGood deps (confirmed_with now i w)
  confirmed_with-Good now i w h g = record {
    control = λ s k.
        let c = g.control s k in
        record { nonce = c.nonce; own_nonce = c.own_nonce; recovers = c.recovers };
    confirmed = λ _. (filled-is_some w.control_proof_sig h, refl, refl);
  }

  issue_credential-Issued :
      (key : Text) (i : IssueInput)
      → Returns
          (λ r. (deps.account_address key ≡ ok r.issuer_address) × (r.claims ≡ i.claims))
          (issue_credential deps key i)
  unfolding issue_credential
  issue_credential-Issued key i =
      Returns-bind _ (deps.account_address key) _
        λ issuer h. Returns-bind _ (hash_claims deps.platform i.claims) _ λ hash _. (h, refl)

  credential_row-Good :
      (key : Text) (v : Vendor) (w : VendorWallet) (issued : IssuedCredential)
      → filled deps.ats_issuer_private_key ≡ some key
      → deps.account_address key ≡ ok issued.issuer_address
      → issued.claims ≡ claims_for v w
      → v.xml_signature_verified && v.cross_doc_consistent ≡ true
      → is_some w.control_proof_sig ≡ true
      → is_some v.attestation_sig ≡ true
      → is_some w.callback_confirmed_at ≡ true
      → CredentialGood deps (credential_row v w issued)
  unfolding claims_for
  credential_row-Good key v w issued k a c verified controlled bound called = record {
    issuer = (key, k, a);
    identity = rw c verified;
    gates = (rw c controlled, rw c bound, rw c called);
  }

  create_credential-Good :
      (c : VerifiableCredential) (db : Db)
      → CredentialGood deps c
      → Good deps db
      → Returns (Good deps) (create_credential c db)
  unfolding create_credential
  create_credential-Good c db h g =
      Returns-require (Good deps)
        (not (any (λ d. text_eq d.wallet_id c.wallet_id) db.verifiable_credentials))
        unique_violation _
        λ _. record {
          vendors = g.vendors;
          wallets = g.wallets;
          credentials =
              All-append (CredentialGood deps) db.verifiable_credentials _ g.credentials (h, tt);
        }

  mint-Good :
      (now : ℕ) (id : Text) (v : Vendor) (w : VendorWallet) (db : Db) (o : Option Text)
      → filled deps.ats_issuer_private_key ≡ o
      → ((key : Text) (issued : IssuedCredential)
          → filled deps.ats_issuer_private_key ≡ some key
          → deps.account_address key ≡ ok issued.issuer_address
          → issued.claims ≡ claims_for v w
          → CredentialGood deps (credential_row v w issued))
      → Good deps db
      → Returns (Good deps) (mint deps now id v w db o)
  mint-Good now id v w db none k row g = g
  mint-Good now id v w db (some key) k row g =
      Returns-bind (Good deps) (issue_credential deps key (issue_input now id v w)) _ λ issued h.
        let (account, claims) =
          Returns-ok _ _ issued (issue_credential-Issued key (issue_input now id v w)) h in
        create_credential-Good (credential_row v w issued) db (row key issued k account claims) g

  after_minting-Good :
      (summary : WalletSummary) (saved : Db) (m : Result Db)
      → Good deps saved
      → Returns (Good deps) m
      → Good deps (after_minting summary saved m).db
  after_minting-Good summary saved (err e) g h = g
  after_minting-Good summary saved (ok minted) g h = h

  confirm_found-Good :
      (now : ℕ) (id vendor_id wallet_id : Text) (i : CallbackConfirmRequest) (db : Db)
      (r : Result (Vendor × VendorWallet × IndependentContact))
      → Returns (λ r. Gates deps vendor_id wallet_id i db r.0 r.1) r
      → Good deps db
      → Good deps (confirm_found deps now id i db r).db
  unfolding issue_verification_credential
  confirm_found-Good now id vendor_id wallet_id i db (err e) gates g = g
  confirm_found-Good now id vendor_id wallet_id i db (ok (v, w, c)) gates g =
      let pair =
        Returns-ok (Pair deps) _ (v, w) (require_pair-Pair deps vendor_id wallet_id db g)
          gates.own in
      let updated = confirmed_with now i w in
      let saved =
        save_wallet-Good deps updated db (confirmed_with-Good now i w gates.controlled pair.wallet)
          g in
      after_minting-Good (to_wallet_summary deps.platform updated) (save_wallet updated db) _ saved
        (mint-Good now id v updated (save_wallet updated db) (filled deps.ats_issuer_private_key)
          refl
          (λ key issued k a claims.
            credential_row-Good key v updated issued k a claims gates.verified
              (filled-is_some w.control_proof_sig gates.controlled)
              (filled-is_some v.attestation_sig gates.bound) refl)
          saved)

  pub confirm_callback-Good :
      (now : ℕ) (id vendor_id wallet_id : Text) (i : CallbackConfirmRequest) (db : Db)
      → Good deps db
      → Good deps (confirm_callback deps now id vendor_id wallet_id i db).db
  unfolding confirm_callback
  confirm_callback-Good now id vendor_id wallet_id i db g =
      confirm_found-Good now id vendor_id wallet_id i db
        (admit_callback deps vendor_id wallet_id i db)
        (admit_callback-Gates deps vendor_id wallet_id i db) g

  find_credential-Good :
      (wallet_id : Text) (db : Db) (c : VerifiableCredential)
      → find_credential wallet_id db ≡ ok c
      → Good deps db
      → CredentialGood deps c
  unfolding find_credential
  find_credential-Good wallet_id db c h g =
      first-All (CredentialGood deps) (λ d. text_eq d.wallet_id wallet_id) db.verifiable_credentials
        c g.credentials (present-eq-ok _ not_found h)

  write_grant-Good :
      (c : VerifiableCredential) (o : Option Text) (db : Db)
      → CredentialGood deps c
      → Good deps db
      → Good deps (write_grant c o db)
  unfolding write_grant
  write_grant-Good c none db h g = g
  write_grant-Good c (some tx) db h g = record {
    vendors = g.vendors;
    wallets = g.wallets;
    credentials =
        put-All (CredentialGood deps) (λ d. d.id) (record c { granted_tx_hash = some tx })
          db.verifiable_credentials g.credentials
          (record { issuer = h.issuer; identity = h.identity; gates = h.gates });
  }

  carry_out_grant-Good :
      (gateway : GrantGateway) (now : ℕ) (vendor_id wallet_id : Text) (db : Db)
      (r : Result (VerifiableCredential × GrantKycInput))
      → Returns (Planned deps gateway now vendor_id wallet_id db) r
      → Good deps db
      → Returns (λ r. Good deps r.1) (carry_out_grant gateway db r).result
  carry_out_grant-Good gateway now vendor_id wallet_id db (err e) h g = tt
  carry_out_grant-Good gateway now vendor_id wallet_id db (ok (c, i)) h g =
      Returns-bind _ (gateway.grant_kyc i) _ λ answer _.
        write_grant-Good c (filled answer.tx_hash) db (find_credential-Good wallet_id db c h.0 g) g

  pub grant_on_chain_kyc-Good :
      (gateway : GrantGateway) (now : ℕ) (vendor_id wallet_id : Text) (db : Db)
      → Good deps db
      → Returns
          (λ r. Good deps r.1)
          (grant_on_chain_kyc deps gateway now vendor_id wallet_id db).result
  unfolding grant_on_chain_kyc
  grant_on_chain_kyc-Good gateway now vendor_id wallet_id db g =
      carry_out_grant-Good gateway now vendor_id wallet_id db
        (plan_grant deps gateway now vendor_id wallet_id db)
        (plan_grant-Grantable deps gateway now vendor_id wallet_id db) g
