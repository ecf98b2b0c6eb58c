-- ===== src/Sample/Onboarded.antt =====
-- The theorems on onboarding, at the payee of the small world.
use mathlib.Core.List.{Memᴰ}
use securtxn.Prelude.{
  ◌≡◌, ◌⊎◌, refl, true, none, some, [], Text, codes, All, Result, ok, err, Error, Returns, lower,
  filled, is_some, bad_request,
}
use securtxn.Types.{is_confirmed}
use securtxn.Store.Rows.{Vendor, VendorWallet, Db}
use securtxn.Store.Queries.{find_vendor}
use securtxn.Vendors.{identity_registry}
use securtxn.Identity.{complete}
use securtxn.Identity.Verified.{Verified, complete-Verified}
use securtxn.Identity.Sole.{Sole, complete-Sole}
use securtxn.Wallets.{RegisterWalletResponse, register}
use securtxn.Wallets.Versions.{Registered, register-Registered}
use securtxn.Wallets.Guard.{IndependentContact, check_callback_channel, allowed, registry_lookup}
use securtxn.Wallets.Confirm.{confirm_callback}
use securtxn.Wallets.Gates.{
  Gates, confirm_callback-Gates, Independent, check_callback_channel-Independent,
}
use securtxn.Wallets.Grant.{GrantResponse, grant_on_chain_kyc}
use securtxn.Wallets.GrantOnce.{grant_on_chain_kyc-once}
use securtxn.Wallets.Granted.{Grantable, grant_on_chain_kyc-Grantable}
use securtxn.Onboarding.{Controlled}
use securtxn.Onboarding.Steps.{Reached-confirmed, identity_registry-Proven}
use securtxn.Sample.{address, vendor, wallet}
use securtxn.Sample.Onboard.{
  run, deps, identity_deps, vendor_id, wallet_id, identity, new_wallet, call, grants, with_vendor,
  with_session, with_identity, with_wallet, with_control, with_binding, with_callback, with_grant,
  kyc, Reached-with_callback,
}

Reached-confirmed_example :
    All
      (λ w.
        is_confirmed w.status ≡ true
        → ((s : Text) × (w.control_proof_sig ≡ some s) × Controlled deps w s)
          × (is_some w.callback_confirmed_at ≡ true)
          × (is_some w.callback_channel_used ≡ true))
      with_callback.vendor_wallets
Reached-confirmed_example = Reached-confirmed deps with_callback Reached-with_callback

registered_yes :
    (identity_registry (address 1) (some (codes "hedera")) with_callback).verified ≡ true
unfolding run with_vendor with_session with_identity with_wallet with_control with_binding
    with_callback
registered_yes = refl

identity_registry-Proven_example :
    (w : VendorWallet) × Memᴰ w with_callback.vendor_wallets
    × ((identity_registry (address 1) (some (codes "hedera")) with_callback).vendor_id
        ≡ some w.vendor_id)
    × (lower w.address ≡ lower (address 1))
    × (w.network ≡ codes "hedera")
    × (is_confirmed w.status ≡ true)
    × ((s : Text) × (w.control_proof_sig ≡ some s) × Controlled deps w s)
identity_registry-Proven_example =
    identity_registry-Proven deps with_callback (address 1) (some (codes "hedera"))
      Reached-with_callback registered_yes

confirm_callback-Gates_example :
    ((confirm_callback deps 4000 (codes "cred") vendor_id wallet_id call with_binding).db
        ≡ with_binding)
      × ((e : Error) × ((confirm_callback deps 4000
              (codes "cred")
              vendor_id
              wallet_id
              call
              with_binding).result
            ≡ err e))
    ⊎ ((v : Vendor) × (w : VendorWallet) × Gates deps vendor_id wallet_id call with_binding v w)
confirm_callback-Gates_example =
    confirm_callback-Gates deps 4000 (codes "cred") vendor_id wallet_id call with_binding

-- A call to another number changes nothing.
refused_elsewhere :
    (confirm_callback deps 4000
      (codes "cred")
      vendor_id
      wallet_id
      (record { confirmed_by = codes "operator"; channel_used = codes "+9199" })
      with_binding).result
    ≡ err bad_request
unfolding run with_vendor with_session with_identity with_wallet with_control with_binding
refused_elsewhere = refl

abbrev response : GrantResponse
response = record {
  tx_hash = some (codes "0xfeed");
  broadcast = true;
  credential_id = codes "cred";
  security_id = codes "security";
}

granted_kyc : kyc.result ≡ ok (response, with_grant)
unfolding run with_vendor with_session with_identity with_wallet with_control with_binding
    with_callback with_grant
granted_kyc = refl

grant_on_chain_kyc-once_example :
    (grant_on_chain_kyc deps grants 6000 vendor_id wallet_id with_grant).asked ≡ []
grant_on_chain_kyc-once_example =
    grant_on_chain_kyc-once deps grants grants 5000 6000 vendor_id wallet_id with_callback
      with_grant response (codes "0xfeed") granted_kyc refl

grant_on_chain_kyc-Grantable_example :
    All
      (Grantable deps grants 5000 vendor_id wallet_id with_callback)
      (grant_on_chain_kyc deps grants 5000 vendor_id wallet_id with_callback).asked
grant_on_chain_kyc-Grantable_example =
    grant_on_chain_kyc-Grantable deps grants 5000 vendor_id wallet_id with_callback

abbrev payee : Vendor
payee = vendor (codes "payee")

abbrev registry_contact : IndependentContact
registry_contact = record { value = codes "+91 22 5550-0100"; source = registry_lookup }

registry_allowed :
    check_callback_channel payee
      (wallet (codes "w1") (codes "payee") 1)
      (codes "+912255500100")
      none
    ≡ allowed registry_contact
unfolding run
registry_allowed = refl

check_callback_channel-Independent_example :
    Independent payee
      (wallet (codes "w1") (codes "payee") 1)
      (codes "+912255500100")
      none
      registry_contact
check_callback_channel-Independent_example =
    check_callback_channel-Independent payee (wallet (codes "w1") (codes "payee") 1)
      (codes "+912255500100") none registry_contact registry_allowed

complete-Verified_example :
    Returns
      (Verified vendor_id identity with_session)
      (complete identity_deps 1000 (codes "b") vendor_id identity with_session)
complete-Verified_example =
    complete-Verified identity_deps 1000 (codes "b") vendor_id identity with_session

-- Nobody holds an account yet.
nobody_holds : Sole with_session
unfolding run with_vendor with_session
nobody_holds user = (vendor_id, (λ _. refl, tt))

complete-Sole_example :
    Returns
      (λ r. Sole r.1)
      (complete identity_deps 1000 (codes "b") vendor_id identity with_session)
complete-Sole_example =
    complete-Sole identity_deps 1000 (codes "b") vendor_id identity with_session nobody_holds

abbrev vendor_or : Vendor → Result Vendor → Vendor
vendor_or other (ok v) = v
vendor_or other (err e) = other

abbrev first_vendor : Vendor
first_vendor = vendor_or payee (find_vendor vendor_id with_identity)

vendor_found : find_vendor vendor_id with_identity ≡ ok first_vendor
unfolding run with_vendor with_session with_identity
vendor_found = refl

vendor_nonce : filled first_vendor.onboarding_session_nonce ≡ some (codes "0xaa")
unfolding run with_vendor with_session with_identity
vendor_nonce = refl

register-Registered_example :
    (r : RegisterWalletResponse) × (after : Db) × (register 2000 wallet_id vendor_id new_wallet
        with_identity
      ≡ ok (r, after))
    × Registered new_wallet vendor_id with_identity r after
register-Registered_example =
    register-Registered 2000 wallet_id vendor_id new_wallet with_identity first_vendor
      (codes "0xaa") vendor_found vendor_nonce
