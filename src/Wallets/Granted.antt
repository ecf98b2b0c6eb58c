-- ===== src/Wallets/Granted.antt =====
-- apps/api/src/modules/wallets/service.ts: what grantOnChainKyc asks of the chain.
use securtxn.Prelude.{
  ℕ, true, not, ◌≡◌, refl, Option, none, some, Text, text_eq, text_eq_iff, filled, lower, is_some,
  All, Result, ok, err, Returns, Returns-bind, Returns-require, unprocessable, conflict, present,
  present-eq-ok,
}
use securtxn.Types.{is_confirmed}
use securtxn.Deps.{OnboardingDeps}
use securtxn.Store.Rows.{Vendor, VendorWallet, VerifiableCredential, Db}
use securtxn.Wallets.{require_pair}
use securtxn.Wallets.Credential.{is_usable, usable_until, unexpired}
use securtxn.Wallets.Grant.{
  GrantKycInput, GrantGateway, find_credential, plan_grant, carry_out_grant, grant_on_chain_kyc,
}

-- What is true when the chain is asked to grant KYC.
pub record Grantable (deps : OnboardingDeps) (gateway : GrantGateway) (now : ℕ)
    (vendor_id wallet_id : Text) (db : Db) (i : GrantKycInput) : Type 0 where
  pub wallet :
      (v : Vendor) × (w : VendorWallet) × (require_pair vendor_id wallet_id db ≡ ok (v, w))
      × (is_confirmed w.status ≡ true)
      × (i.account ≡ w.address)
  pub credential :
      (c : VerifiableCredential) × (find_credential wallet_id db ≡ ok c)
      × (c.revoked_at ≡ none)
      × (unexpired c.expires_at now ≡ true)
      × (filled c.granted_tx_hash ≡ none)
      × (lower c.issuer_address ≡ lower gateway.issuer_address)
      × (i.vc_id ≡ c.id)
      × (i.valid_from ≡ c.issued_at)
      × (i.valid_to ≡ c.expires_at)
  pub security : filled deps.ats_security_id ≡ some i.security_id

usable_until-parts :
    (revoked expires : Option ℕ) (now : ℕ)
    → usable_until revoked expires now ≡ true
    → (revoked ≡ none) × (unexpired expires now ≡ true)
usable_until-parts none expires now h = (refl, h)
usable_until-parts (some t) expires now h = cc

is_usable-parts :
    (c : VerifiableCredential) (now : ℕ)
    → is_usable c now ≡ true
    → (c.revoked_at ≡ none) × (unexpired c.expires_at now ≡ true)
unfolding is_usable
is_usable-parts c now h = usable_until-parts c.revoked_at c.expires_at now h

pub not_some-none : (o : Option Text) → not (is_some o) ≡ true → o ≡ none
not_some-none none h = refl
not_some-none (some t) h = cc

abbrev pub Planned :
    OnboardingDeps
    → GrantGateway
    → ℕ
    → Text
    → Text
    → Db
    → VerifiableCredential × GrantKycInput
    → Type 0
Planned deps gateway now vendor_id wallet_id db (c, i) =
    (find_credential wallet_id db ≡ ok c) × Grantable deps gateway now vendor_id wallet_id db i

pub plan_grant-Grantable :
    (deps : OnboardingDeps) (gateway : GrantGateway) (now : ℕ) (vendor_id wallet_id : Text)
    (db : Db)
    → Returns
        (Planned deps gateway now vendor_id wallet_id db)
        (plan_grant deps gateway now vendor_id wallet_id db)
unfolding plan_grant
plan_grant-Grantable deps gateway now vendor_id wallet_id db =
    Returns-bind _ (require_pair vendor_id wallet_id db) _ λ (v, w) own.
      Returns-require _ (is_confirmed w.status) unprocessable _ λ confirmed.
        Returns-bind _ (present (filled deps.ats_security_id) unprocessable) _ λ security a.
          Returns-bind _ (find_credential wallet_id db) _ λ c found.
            Returns-require _ (is_usable c now) unprocessable _ λ usable.
              Returns-require _ (not (is_some (filled c.granted_tx_hash))) conflict _ λ fresh.
                Returns-require _ (text_eq (lower c.issuer_address) (lower gateway.issuer_address))
                  unprocessable _
                  λ issuer.
                    let (unrevoked, valid) = is_usable-parts c now usable in
                    let grantable : Grantable deps gateway now vendor_id wallet_id db _ = record {
                      wallet = (v, w, own, confirmed, refl);
                      credential = (
                        c,
                        found,
                        unrevoked,
                        valid,
                        not_some-none _ fresh,
                        (text_eq_iff (lower c.issuer_address) (lower gateway.issuer_address)).0
                            issuer,
                        refl,
                        refl,
                        refl,
                      );
                      security = present-eq-ok _ unprocessable a;
                    } in
                    (found, grantable)

carry_out_grant-All :
    (P : GrantKycInput → Type 0) (gateway : GrantGateway) (db : Db)
    (r : Result (VerifiableCredential × GrantKycInput))
    → Returns (λ q. P q.1) r
    → All P (carry_out_grant gateway db r).asked
carry_out_grant-All P gateway db (err e) h = tt
carry_out_grant-All P gateway db (ok (c, i)) h = (h, tt)

Returns-map :
    (deps : OnboardingDeps) (gateway : GrantGateway) (now : ℕ) (vendor_id wallet_id : Text)
    (db : Db) (r : Result (VerifiableCredential × GrantKycInput))
    → Returns (Planned deps gateway now vendor_id wallet_id db) r
    → Returns (λ q. Grantable deps gateway now vendor_id wallet_id db q.1) r
Returns-map deps gateway now vendor_id wallet_id db (err e) h = tt
Returns-map deps gateway now vendor_id wallet_id db (ok (c, i)) h = h.1

-- The chain is asked only for the address of a CONFIRMED wallet of the vendor, with a credential
-- that is neither revoked nor expired, carries no hash of an earlier grant and names the issuer
-- that the gateway signs as, and with the id and the validity of that credential.
pub grant_on_chain_kyc-Grantable :
    (deps : OnboardingDeps) (gateway : GrantGateway) (now : ℕ) (vendor_id wallet_id : Text)
    (db : Db)
    → All
        (Grantable deps gateway now vendor_id wallet_id db)
        (grant_on_chain_kyc deps gateway now vendor_id wallet_id db).asked
unfolding grant_on_chain_kyc
grant_on_chain_kyc-Grantable deps gateway now vendor_id wallet_id db =
    carry_out_grant-All _ gateway db (plan_grant deps gateway now vendor_id wallet_id db) (
      Returns-map deps gateway now vendor_id wallet_id db _
        (plan_grant-Grantable deps gateway now vendor_id wallet_id db))
