-- ===== src/Sample/Onboard.antt =====
-- The onboarding of one payee in the small world, from its creation to the grant of KYC.
use securtxn.Prelude.{
  ◌≡◌, refl, true, codes, Text, none, some, [], ◌∷◌, ◌++◌, Result, ok, err, text_eq, to_lower,
}
use securtxn.Deps.{OnboardingDeps}
use securtxn.Json.{serialise, quote}
use securtxn.Settle.Units.{digits, print}
use securtxn.Eip712.{
  build_wallet_control_message, build_identity_binding_message, with_prefix, verify_wallet_control,
  verify_identity_binding,
}
use securtxn.EntityName.{
  normalise_entity_name, dedupe, insert_text, sort_texts, canonical_tokens, canonical_entity_name,
}
use securtxn.Store.Rows.{Db, Vendor}
use securtxn.Store.Queries.{
  find, put, first, newest, find_vendor, find_wallet, save_vendor, save_wallet,
}
use securtxn.Vendors.{
  CreateVendorRequest, business, new_vendor, create_vendor, update_kyb_status, identity_registry,
}
use securtxn.Identity.{
  IdentityDeps, IdentityResult, all_checks_passed, holder_of, tier_for, verified_with, complete,
  Session, start_session,
}
use securtxn.Wallets.{
  RegisterWalletRequest, RegisterWalletResponse, WalletSummary, CallbackConfirmRequest,
  to_wallet_summary, describe_challenge, require_pair, next_version, create_wallet, register,
}
use securtxn.Wallets.Guard.{canonical, independent_contacts_for, check_callback_channel}
use securtxn.Wallets.Credential.{to_unix_seconds, hash_claims, issue_credential, is_usable}
use securtxn.Wallets.Proofs.{submit_control_proof, binding_for, submit_identity_binding}
use securtxn.Wallets.Confirm.{
  decrypt_phone, admit_callback, claims_for, create_credential, issue_verification_credential,
  confirm_callback,
}
use securtxn.Wallets.Grant.{
  GrantGateway, GrantResponse, Granting, find_credential, plan_grant, write_grant,
  grant_on_chain_kyc,
}
use securtxn.Onboarding.Steps.{
  Reached, at_first, then_by, vendor_created, session_started, completed, registered, controlled,
  bound, called_back,
}
use securtxn.Sample.{platform, address, at_start, db_of, is_ok}

unfoldable pub run : Unit {0}
unfolding serialise quote digits print build_wallet_control_message build_identity_binding_message
    with_prefix verify_wallet_control verify_identity_binding normalise_entity_name dedupe
    insert_text sort_texts canonical_tokens canonical_entity_name find put first newest find_vendor
    find_wallet save_vendor save_wallet new_vendor create_vendor update_kyb_status identity_registry
    all_checks_passed holder_of tier_for verified_with complete start_session to_wallet_summary
    describe_challenge require_pair next_version create_wallet register canonical
    independent_contacts_for check_callback_channel to_unix_seconds hash_claims issue_credential
    is_usable submit_control_proof binding_for submit_identity_binding decrypt_phone admit_callback
    claims_for create_credential issue_verification_credential confirm_callback find_credential
    plan_grant write_grant grant_on_chain_kyc text_eq to_lower
run = tt

abbrev pub deps : OnboardingDeps
deps = record {
  platform = platform;
  hedera_chain_id = 296;
  ats_issuer_private_key = some (codes "key");
  ats_security_id = some (codes "security");
  decrypt = λ iv tag t. some t;
  account_address = λ key. ok (address 5);
  sign_typed_data = λ key chain message. codes "signed";
}

abbrev pub identity_deps : IdentityDeps
identity_deps = record {
  platform = platform;
  seal = λ t. codes "iv.tag." ++ t;
  seal_address = λ a. codes "iv.tag.address";
  iso_dob = λ d. d;
}

abbrev pub vendor_id : Text
vendor_id = codes "v1"

abbrev pub wallet_id : Text
wallet_id = codes "w1"

abbrev pub empty : Db
empty = record at_start { vendors = []; vendor_wallets = [] }

abbrev pub new_payee : CreateVendorRequest
new_payee = business (codes "Acme") (codes "IN") none none

abbrev pub session : Result Session
session = ok (record { session_id = codes "s"; authorization_url = codes "url" })

abbrev pub identity : Result IdentityResult
identity = ok (record {
  provider_user_id = codes "u";
  legal_name = codes "Acme";
  dob = [];
  address = (codes "state", codes "KA") ∷ [];
  photo_base64 = none;
  tax_id = some (codes "P");
  checks = record {
    xml_signature_verified = true;
    cross_doc_consistent = true;
    same_subject_linked = true;
    ttl_captured = true;
  };
  aadhaar_last4 = some (codes "1234");
  aadhaar_doc_hash = some (codes "aa");
  pan_doc_hash = some (codes "bb");
  mobile = some (codes "+91 22");
  ttl = some 1000000000000;
})

abbrev pub new_wallet : RegisterWalletRequest
new_wallet = record { address = address 1; network = codes "hedera"; token_contract = none }

abbrev pub call : CallbackConfirmRequest
call = record { confirmed_by = codes "operator"; channel_used = codes "+9122" }

abbrev pub grants : GrantGateway
grants = record {
  grant_kyc = λ i. ok (record { tx_hash = some (codes "0xfeed"); broadcast = true });
  issuer_address = address 5;
}

unfoldable pub with_vendor : Db
with_vendor = (create_vendor platform 0 vendor_id (codes "0xaa") new_payee empty).1

unfoldable pub with_session : Db
with_session = db_of (start_session (codes "0xbb") vendor_id session with_vendor)

unfoldable pub with_identity : Db
with_identity = db_of (complete identity_deps 1000 (codes "b") vendor_id identity with_session)

unfoldable pub with_wallet : Db
with_wallet = db_of (register 2000 wallet_id vendor_id new_wallet with_identity)

unfoldable pub with_control : Db
with_control = db_of (submit_control_proof deps vendor_id wallet_id (codes "signed") with_wallet)

unfoldable pub with_binding : Db
with_binding =
    db_of (submit_identity_binding deps 3000 vendor_id wallet_id (codes "signed") with_control)

unfoldable pub with_callback : Db
with_callback = (confirm_callback deps 4000 (codes "cred") vendor_id wallet_id call with_binding).db

returned : {A : Type 0} (m : Result (A × Db)) → is_ok m ≡ true → (a : A) × (m ≡ ok (a, db_of m))
returned (ok (a, db)) h = (a, refl)
returned (err e) h = cc

pub session_returned :
    (s : Session × Text) × (start_session (codes "0xbb") vendor_id session with_vendor
      ≡ ok (s, with_session))
unfolding run with_vendor with_session
session_returned = returned (start_session (codes "0xbb") vendor_id session with_vendor) refl

pub identity_returned :
    (v : Vendor) × (complete identity_deps 1000 (codes "b") vendor_id identity with_session
      ≡ ok (v, with_identity))
unfolding run with_vendor with_session with_identity
identity_returned =
    returned (complete identity_deps 1000 (codes "b") vendor_id identity with_session) refl

pub wallet_returned :
    (r : RegisterWalletResponse) × (register 2000 wallet_id vendor_id new_wallet with_identity
      ≡ ok (r, with_wallet))
unfolding run with_vendor with_session with_identity with_wallet
wallet_returned = returned (register 2000 wallet_id vendor_id new_wallet with_identity) refl

pub control_returned :
    (s : WalletSummary) × (submit_control_proof deps vendor_id wallet_id
        (codes "signed")
        with_wallet
      ≡ ok (s, with_control))
unfolding run with_vendor with_session with_identity with_wallet with_control
control_returned =
    returned (submit_control_proof deps vendor_id wallet_id (codes "signed") with_wallet) refl

pub binding_returned :
    (s : WalletSummary) × (submit_identity_binding deps 3000 vendor_id wallet_id
        (codes "signed")
        with_control
      ≡ ok (s, with_binding))
unfolding run with_vendor with_session with_identity with_wallet with_control with_binding
binding_returned =
    returned (submit_identity_binding deps 3000 vendor_id wallet_id (codes "signed") with_control)
      refl

abbrev pub kyc : Granting
kyc = grant_on_chain_kyc deps grants 5000 vendor_id wallet_id with_callback

unfoldable pub with_grant : Db
with_grant = db_of kyc.result

pub grant_returned : (r : GrantResponse) × (kyc.result ≡ ok (r, with_grant))
unfolding run with_vendor with_session with_identity with_wallet with_control with_binding
    with_callback with_grant
grant_returned = returned kyc.result refl

pub Reached-with_callback : Reached deps with_callback
unfolding with_vendor with_callback
Reached-with_callback =
    then_by
      (then_by
        (then_by
          (then_by
            (then_by
              (then_by
                (then_by (at_first {db = empty} refl refl refl)
                  (vendor_created {db = empty} 0 vendor_id (codes "0xaa") new_payee))
                (session_started (codes "0xbb") vendor_id session session_returned.1))
              (completed identity_deps 1000 (codes "b") vendor_id identity identity_returned.1))
            (registered 2000 wallet_id vendor_id new_wallet wallet_returned.1))
          (controlled vendor_id wallet_id (codes "signed") control_returned.1))
        (bound 3000 vendor_id wallet_id (codes "signed") binding_returned.1))
      (called_back {db = with_binding} 4000 (codes "cred") vendor_id wallet_id call)
