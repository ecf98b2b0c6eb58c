-- ===== src/Onboarding/Keeps.antt =====
-- apps/api/src/modules/vendors, identity and wallets: each operation keeps the rows good.
use securtxn.Prelude.{
  none-not-some, ℕ, not, ◌≡◌, refl, sym, ap, ◌∙◌, Option, none, some, Text, text_eq, filled,
  or_else, All-append, Result, ok, Returns, Returns-bind, Returns-require, Returns-ok, Returns-eq,
  if-Returns, present, present-eq-ok, unprocessable, not_found, conflict,
}
use securtxn.Types.{KybStatus}
use securtxn.Platform.{Platform}
use securtxn.Deps.{OnboardingDeps}
use securtxn.Store.Rows.{Vendor, VendorWallet, Db}
use securtxn.Store.Queries.{
  find, find-All, first-All, put-All, find_vendor, find_wallet, save_vendor, save_wallet,
}
use securtxn.Vendors.{create_vendor, new_vendor, CreateVendorRequest, update_kyb_status}
use securtxn.Identity.{
  IdentityDeps, IdentityResult, all_checks_passed, holds, holder_of, has_confirmed,
  without_identity, release_from, verified_with, complete, Session, start_session,
}
use securtxn.Onboarding.{VendorGood, WalletGood, Good}

module _ (deps : OnboardingDeps) where
  pub find_vendor-Good :
      (k : Text) (db : Db) → Good deps db → Returns (VendorGood deps) (find_vendor k db)
  unfolding find_vendor
  find_vendor-Good k db g = Returns-eq _ (present (find (λ v. v.id) k db.vendors) not_found) λ v h.
      find-All (VendorGood deps) (λ v. v.id) k db.vendors v g.vendors (present-eq-ok _ not_found h)

  pub find_wallet-Good :
      (k : Text) (db : Db) → Good deps db → Returns (WalletGood deps) (find_wallet k db)
  unfolding find_wallet
  find_wallet-Good k db g =
      Returns-eq _ (present (find (λ w. w.id) k db.vendor_wallets) not_found) λ w h.
        find-All (WalletGood deps) (λ w. w.id) k db.vendor_wallets w g.wallets
          (present-eq-ok _ not_found h)

  pub save_vendor-Good :
      (v : Vendor) (db : Db) → VendorGood deps v → Good deps db → Good deps (save_vendor v db)
  unfolding save_vendor
  save_vendor-Good v db h g = record {
    vendors = put-All (VendorGood deps) (λ u. u.id) v db.vendors g.vendors h;
    wallets = g.wallets;
    credentials = g.credentials;
  }

  pub save_wallet-Good :
      (w : VendorWallet) (db : Db) → WalletGood deps w → Good deps db → Good deps (save_wallet w db)
  unfolding save_wallet
  save_wallet-Good w db h g = record {
    vendors = g.vendors;
    wallets = put-All (WalletGood deps) (λ v. v.id) w db.vendor_wallets g.wallets h;
    credentials = g.credentials;
  }

  unattested : (v : Vendor) → v.attestation_sig ≡ none → VendorGood deps v
  unattested v h s k = absurd (none-not-some (sym h ∙ k))

  new_vendor-unattested :
      (pf : Platform) (now : ℕ) (new_id nonce : Text) (i : CreateVendorRequest)
      → (new_vendor pf now new_id nonce i).attestation_sig ≡ none
  unfolding new_vendor
  new_vendor-unattested pf now new_id nonce (CreateVendorRequest.individual f l c e) = refl
  new_vendor-unattested pf now new_id nonce (CreateVendorRequest.business n c e t) = refl

  pub create_vendor-Good :
      (pf : Platform) (now : ℕ) (new_id nonce : Text) (i : CreateVendorRequest) (db : Db)
      → Good deps db
      → Good deps (create_vendor pf now new_id nonce i db).1
  unfolding create_vendor
  create_vendor-Good pf now new_id nonce i db g = record {
    vendors =
        All-append (VendorGood deps) db.vendors _ g.vendors
          (unattested _ (new_vendor-unattested pf now new_id nonce i), tt);
    wallets = g.wallets;
    credentials = g.credentials;
  }

  -- A vendor that keeps its attestation and its nonce stays good.
  kept-Good :
      (v u : Vendor)
      → u.attestation_sig ≡ v.attestation_sig
      → u.onboarding_session_nonce ≡ v.onboarding_session_nonce
      → VendorGood deps v
      → VendorGood deps u
  kept-Good v u a n g s h =
      let attested = g s (sym a ∙ h) in
      record {
        nonce = attested.nonce;
        own_nonce = ap filled n ∙ attested.own_nonce;
        user = attested.user;
        wallet_address = attested.wallet_address;
        aadhaar = attested.aadhaar;
        pan = attested.pan;
        recovers = attested.recovers;
      }

  pub update_kyb_status-Good :
      (vendor_id : Text) (status : KybStatus) (db : Db)
      → Good deps db
      → Returns (λ r. Good deps r.1) (update_kyb_status vendor_id status db)
  unfolding update_kyb_status
  update_kyb_status-Good vendor_id status db g = Returns-bind _ (find_vendor vendor_id db) _ λ v h.
      save_vendor-Good _ db
        (kept-Good v _ refl refl
          (Returns-ok (VendorGood deps) _ v (find_vendor-Good vendor_id db g) h))
        g

  -- The nonce that a session gives is the vendor's own where there is one.
  nonce-kept :
      (o : Option Text) (fresh nonce : Text)
      → filled o ≡ some nonce
      → filled (some (or_else o fresh)) ≡ some nonce
  nonce-kept none fresh nonce h = cc
  nonce-kept (some t) fresh nonce h = h

  session-Good :
      (v u : Vendor) (fresh : Text)
      → u.attestation_sig ≡ v.attestation_sig
      → u.onboarding_session_nonce ≡ some (or_else v.onboarding_session_nonce fresh)
      → VendorGood deps v
      → VendorGood deps u
  session-Good v u fresh a n g s h =
      let attested = g s (sym a ∙ h) in
      record {
        nonce = attested.nonce;
        own_nonce =
            ap filled n
            ∙ nonce-kept v.onboarding_session_nonce fresh attested.nonce attested.own_nonce;
        user = attested.user;
        wallet_address = attested.wallet_address;
        aadhaar = attested.aadhaar;
        pan = attested.pan;
        recovers = attested.recovers;
      }

  pub start_session-Good :
      (fresh vendor_id : Text) (answer : Result Session) (db : Db)
      → Good deps db
      → Returns (λ r. Good deps r.1) (start_session fresh vendor_id answer db)
  unfolding start_session
  start_session-Good fresh vendor_id answer db g =
      Returns-bind _ (find_vendor vendor_id db) _ λ v h. Returns-bind _ answer _ λ session _.
        save_vendor-Good _ db
          (session-Good v _ fresh refl refl
            (Returns-ok (VendorGood deps) _ v (find_vendor-Good vendor_id db g) h))
          g

  release_from-Good :
      (vendor_id user : Text) (db : Db) (o : Option Vendor)
      → holder_of user db ≡ o
      → Good deps db
      → Returns (Good deps) (release_from vendor_id o db)
  unfolding holder_of
  release_from-Good vendor_id user db none h g = g
  release_from-Good vendor_id user db (some w) h g =
      if-Returns (Good deps) (text_eq w.id vendor_id) (ok db) _ (λ _. g)
        λ _. Returns-require (Good deps) (not (has_confirmed w.id db)) conflict _ λ _.
          save_vendor-Good (without_identity w) db
            (kept-Good w _ refl refl
              (first-All (VendorGood deps) (holds user) db.vendors w g.vendors h))
            g

  pub complete-Good :
      (ids : IdentityDeps) (now : ℕ) (blob_id vendor_id : Text) (fetched : Result IdentityResult)
      (db : Db)
      → Good deps db
      → Returns (λ r. Good deps r.1) (complete ids now blob_id vendor_id fetched db)
  unfolding complete verified_with
  complete-Good ids now blob_id vendor_id fetched db g =
      Returns-bind _ (find_vendor vendor_id db) _ λ v found.
        Returns-bind _ (present (filled v.digilocker_session_id) unprocessable) _ λ _ _.
          Returns-bind _ fetched _ λ i _.
            Returns-require _ (all_checks_passed i.checks) unprocessable _ λ _.
              Returns-bind _ (release_from vendor_id (holder_of i.provider_user_id db) db) _
                λ released h.
                  save_vendor-Good (verified_with ids now blob_id i v) released
                    (kept-Good v _ refl refl
                      (Returns-ok (VendorGood deps) _ v (find_vendor-Good vendor_id db g) found))
                    (Returns-ok (Good deps) _ released
                      (release_from-Good vendor_id i.provider_user_id db
                        (holder_of i.provider_user_id db) refl g)
                      h)
