-- ===== src/Onboarding/Proves.antt =====
-- apps/api/src/modules/wallets: each wallet operation keeps the rows good.
use securtxn.Prelude.{
  some-injective, none-not-some, ℕ, true, false, not, ◌≡◌, refl, sym, ◌∙◌, some, Text, text_eq,
  text_eq_iff, filled, any, All-append, ok, Returns, Returns-bind, Returns-require, Returns-ok,
  present, present-eq-ok, unprocessable, not_found, unique_violation,
}
use securtxn.Deps.{OnboardingDeps}
use securtxn.Eip712.{verify_wallet_control, verify_identity_binding, build_identity_binding_message}
use securtxn.Store.Rows.{Vendor, VendorWallet, Db}
use securtxn.Store.Queries.{find_vendor, find_vendor-id, find_wallet}
use securtxn.Wallets.{
  require_pair, create_wallet, register, RegisterWalletRequest, new_wallet, next_version,
  same_version,
}
use securtxn.Wallets.Proofs.{
  control_message, submit_control_proof, binding_for, attested_with, submit_identity_binding,
  agrees,
}
use securtxn.Onboarding.{VendorGood, WalletGood, Good}
use securtxn.Onboarding.Keeps.{
  find_vendor-Good, find_wallet-Good, save_vendor-Good, save_wallet-Good,
}

false-not-true : false ≡ true → ⊥
false-not-true h = cc

module _ (deps : OnboardingDeps) where
  -- The pair that an operation works on.
  pub record Pair (r : Vendor × VendorWallet) : Type 0 where
    pub vendor : VendorGood deps r.0
    pub wallet : WalletGood deps r.1
    pub owned : r.1.vendor_id ≡ r.0.id

  pub require_pair-Pair :
      (vendor_id wallet_id : Text) (db : Db)
      → Good deps db
      → Returns Pair (require_pair vendor_id wallet_id db)
  unfolding require_pair
  require_pair-Pair vendor_id wallet_id db g = Returns-bind Pair (find_vendor vendor_id db) _ λ v h.
      Returns-bind Pair (find_wallet wallet_id db) _ λ w k.
        Returns-require Pair (text_eq w.vendor_id vendor_id) not_found _ λ own. record {
          vendor = Returns-ok (VendorGood deps) _ v (find_vendor-Good deps vendor_id db g) h;
          wallet = Returns-ok (WalletGood deps) _ w (find_wallet-Good deps wallet_id db g) k;
          owned = (text_eq_iff w.vendor_id vendor_id).0 own ∙ sym (find_vendor-id vendor_id db v h);
        }

  create_wallet-Good :
      (w : VendorWallet) (db : Db)
      → WalletGood deps w
      → Good deps db
      → Returns (Good deps) (create_wallet w db)
  unfolding create_wallet
  create_wallet-Good w db h g =
      Returns-require (Good deps) (not (any (same_version w) db.vendor_wallets)) unique_violation _
        λ _. record {
          vendors = g.vendors;
          wallets = All-append (WalletGood deps) db.vendor_wallets _ g.wallets (h, tt);
          credentials = g.credentials;
        }

  pub register-Good :
      (now : ℕ) (new_id vendor_id : Text) (i : RegisterWalletRequest) (db : Db)
      → Good deps db
      → Returns (λ r. Good deps r.1) (register now new_id vendor_id i db)
  unfolding register
  register-Good now new_id vendor_id i db g = Returns-bind _ (find_vendor vendor_id db) _ λ v _.
      Returns-bind _ (present (filled v.onboarding_session_nonce) unprocessable) _ λ nonce _.
        let w = new_wallet now new_id v i nonce (next_version v.id db) in
        Returns-bind _ (create_wallet w db) _ λ after made.
          let good : WalletGood deps w = record {
            control = λ s h. absurd (none-not-some h);
            confirmed = λ h. absurd (false-not-true h);
          } in
          Returns-ok (Good deps) _ after (create_wallet-Good w db good g) made

  -- A wallet with a proof that recovers.
  controlled :
      (w : VendorWallet) (vendor_id signature nonce : Text)
      → present (filled w.control_proof_nonce) unprocessable ≡ ok nonce
      → verify_wallet_control deps.platform deps.hedera_chain_id w.address signature
          (control_message vendor_id w nonce)
        ≡ true
      → w.vendor_id ≡ vendor_id
      → WalletGood deps w
      → WalletGood deps (record w { control_proof_sig = some signature })
  controlled w vendor_id signature nonce h recovers owned g = record {
    control = λ s k. rw (sym (some-injective k)) (record {
      nonce = nonce;
      own_nonce = present-eq-ok _ unprocessable h;
      recovers = rw owned recovers;
    });
    confirmed = λ k. let (_, at, channel) = g.confirmed k in (refl, at, channel);
  }

  pub submit_control_proof-Good :
      (vendor_id wallet_id signature : Text) (db : Db)
      → Good deps db
      → Returns (λ r. Good deps r.1) (submit_control_proof deps vendor_id wallet_id signature db)
  unfolding submit_control_proof
  submit_control_proof-Good vendor_id wallet_id signature db g =
      Returns-bind _ (require_pair vendor_id wallet_id db) _ λ (v, w) own.
        Returns-bind _ (present (filled w.control_proof_nonce) unprocessable) _ λ nonce h.
          Returns-require _
            (verify_wallet_control deps.platform deps.hedera_chain_id w.address signature
              (control_message v.id w nonce))
            unprocessable _
            λ recovers.
              let pair =
                Returns-ok Pair _ (v, w) (require_pair-Pair vendor_id wallet_id db g) own in
              save_wallet-Good deps (record w { control_proof_sig = some signature }) db
                (controlled w v.id signature nonce h recovers pair.owned pair.wallet) g

  binding_for-Attested :
      (v : Vendor) (w : VendorWallet)
      → Returns
          (λ r.
            (filled v.onboarding_session_nonce ≡ some r.0)
            × (user : Text) × (aadhaar : Text) × (pan : Text) × (r.1
                ≡ build_identity_binding_message r.0 user w.address aadhaar pan))
          (binding_for v w)
  unfolding binding_for
  binding_for-Attested v w =
      Returns-bind _ (present (filled v.digilocker_user_id) unprocessable) _ λ user _.
        Returns-bind _ (present (filled v.aadhaar_doc_hash) unprocessable) _ λ aadhaar _.
          Returns-bind _ (present (filled v.pan_doc_hash) unprocessable) _ λ pan _.
            Returns-bind _ (present (filled v.onboarding_session_nonce) unprocessable) _ λ nonce h.
              Returns-require _ (agrees w.control_proof_nonce nonce) unprocessable _
                λ _. (present-eq-ok _ unprocessable h, user, aadhaar, pan, refl)

  pub submit_identity_binding-Good :
      (now : ℕ) (vendor_id wallet_id signature : Text) (db : Db)
      → Good deps db
      → Returns
          (λ r. Good deps r.1)
          (submit_identity_binding deps now vendor_id wallet_id signature db)
  unfolding submit_identity_binding
  submit_identity_binding-Good now vendor_id wallet_id signature db g =
      Returns-bind _ (require_pair vendor_id wallet_id db) _ λ (v, w) _.
        Returns-bind _ (binding_for v w) _ λ (nonce, message) bound.
          Returns-require _
            (verify_identity_binding deps.platform deps.hedera_chain_id w.address signature message)
            unprocessable _
            λ recovers.
              let (own, user, aadhaar, pan, same) =
                Returns-ok _ _ (nonce, message) (binding_for-Attested v w) bound in
              save_vendor-Good deps (attested_with now signature nonce v) db
                (λ s k. rw (sym (some-injective k)) (record {
                  nonce = nonce;
                  own_nonce = own;
                  user = user;
                  wallet_address = w.address;
                  aadhaar = aadhaar;
                  pan = pan;
                  recovers = rw (sym same) recovers;
                }))
                g
