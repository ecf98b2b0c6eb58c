-- ===== src/Wallets/Confirm.antt =====
-- apps/api/src/modules/wallets/service.ts: the confirmation by callback, and the credential that it
-- mints. The wallet is updated before the credential is made and not in one transaction with it, so
-- an outcome carries the database that an error leaves.
use securtxn.Prelude.{
  ℕ, not, ◌&&◌, Option, none, some, List, [], ◌∷◌, ◌++◌, Text, text_eq, filled, or_else, is_some,
  any, get_elem?, split_on, Result, ok, err, require, ◌>>=◌, ◌>>◌, unprocessable, conflict,
  bad_request, unique_violation,
}
use securtxn.Types.{WalletStatus, is_confirmed, is_revoked, AddressVerifiedMethod}
use securtxn.Deps.{OnboardingDeps}
use securtxn.Store.Rows.{Vendor, VendorWallet, CredentialClaims, VerifiableCredential, Db}
use securtxn.Store.Queries.{save_wallet}
use securtxn.Wallets.{WalletSummary, to_wallet_summary, require_pair, CallbackConfirmRequest}
use securtxn.Wallets.Guard.{
  IndependentContact, independent_contacts_for, CallbackCheck, allowed, refused,
  check_callback_channel,
}
use securtxn.Wallets.Credential.{IssueInput, IssuedCredential, issue_credential}

abbrev piece : List Text → ℕ → Text
piece parts i = or_else (get_elem? parts i) []

abbrev decrypt_parts : OnboardingDeps → List Text → Option Text
decrypt_parts deps parts = deps.decrypt (piece parts 0) (piece parts 1) (piece parts 2)

abbrev decrypt_stored : OnboardingDeps → Option Text → Option Text
decrypt_stored deps none = none
decrypt_stored deps (some stored) = decrypt_parts deps (split_on b'.' stored)

-- None where nothing is stored and where it cannot be decrypted.
unfoldable pub decrypt_phone : OnboardingDeps → Vendor → Option Text
decrypt_phone deps vendor = decrypt_stored deps (filled vendor.verified_phone)

unfoldable pub callback_channels :
    OnboardingDeps → Text → Text → Db → Result (List IndependentContact)
callback_channels deps vendor_id wallet_id db = require_pair vendor_id wallet_id db >>= λ pair.
    ok (independent_contacts_for pair.0 (decrypt_phone deps pair.0))

abbrev pub admit : CallbackCheck → Result IndependentContact
admit (allowed contact) = ok contact
admit (refused _) = err bad_request

-- Every guard of `confirmCallback`, in its order.
unfoldable pub admit_callback :
    OnboardingDeps
    → Text
    → Text
    → CallbackConfirmRequest
    → Db
    → Result (Vendor × VendorWallet × IndependentContact)
admit_callback deps vendor_id wallet_id i db = require_pair vendor_id wallet_id db >>= λ pair.
    let (vendor, wallet) = pair in
    require (not (is_confirmed wallet.status)) conflict
    >> (require (not (is_revoked wallet.status)) conflict
        >> (require (is_some (filled wallet.control_proof_sig)) unprocessable
            >> (require (is_some (filled vendor.attestation_sig)) unprocessable
                >> (require (vendor.xml_signature_verified && vendor.cross_doc_consistent)
                      unprocessable
                    >> (admit (
                          check_callback_channel vendor wallet i.channel_used
                            (decrypt_phone deps vendor))
                        >>= λ contact. ok (vendor, wallet, contact))))))

abbrev pub confirmed_with : ℕ → CallbackConfirmRequest → VendorWallet → VendorWallet
confirmed_with now i wallet = record wallet {
  status = WalletStatus.confirmed;
  confirmed_at = some now;
  callback_confirmed_at = some now;
  callback_confirmed_by = some i.confirmed_by;
  callback_channel_used = some i.channel_used;
}

unfoldable pub claims_for : Vendor → VendorWallet → CredentialClaims
claims_for v w = record {
  provider_user_id = or_else v.digilocker_user_id [];
  verification_tier = v.verification_tier;
  xml_signature_verified = v.xml_signature_verified;
  cross_doc_consistent = v.cross_doc_consistent;
  same_subject_linked = is_some v.digilocker_user_id;
  wallet_control_proven = is_some w.control_proof_sig;
  identity_binding_signed = is_some v.attestation_sig;
  callback_confirmed = is_some w.callback_confirmed_at;
  address_verified_method = or_else v.address_verified_method AddressVerifiedMethod.unverified;
  country = v.country;
  onboarding_session_nonce = or_else v.onboarding_session_nonce [];
}

abbrev pub issue_input : ℕ → Text → Vendor → VendorWallet → IssueInput
issue_input now credential_id v w = record {
  credential_id = credential_id;
  subject_address = w.address;
  claims = claims_for v w;
  issued_at = now;
  expires_at = v.aadhaar_kyc_ttl;
}

abbrev pub credential_row : Vendor → VendorWallet → IssuedCredential → VerifiableCredential
credential_row v w issued = record {
  id = issued.credential_id;
  vendor_id = v.id;
  wallet_id = w.id;
  subject_address = w.address;
  claims = issued.claims;
  signature = issued.signature;
  issuer_address = issued.issuer_address;
  issued_at = issued.issued_at;
  expires_at = issued.expires_at;
  revoked_at = none;
  granted_tx_hash = none;
}

-- `verifiableCredential.create`, with the constraint that a wallet has one credential.
unfoldable pub create_credential : VerifiableCredential → Db → Result Db
create_credential c db =
    require (not (any (λ d. text_eq d.wallet_id c.wallet_id) db.verifiable_credentials))
      unique_violation
    >> ok (record db { verifiable_credentials = db.verifiable_credentials ++ c ∷ [] })

abbrev pub mint : OnboardingDeps → ℕ → Text → Vendor → VendorWallet → Db → Option Text → Result Db
mint deps now credential_id vendor wallet db none = ok db
mint deps now credential_id vendor wallet db (some issuer_key) =
    issue_credential deps issuer_key (issue_input now credential_id vendor wallet) >>= λ issued.
    create_credential (credential_row vendor wallet issued) db

-- Without an issuer key there is no credential.
unfoldable pub issue_verification_credential :
    OnboardingDeps → ℕ → Text → Vendor → VendorWallet → Db → Result Db
issue_verification_credential deps now credential_id vendor wallet db =
    mint deps now credential_id vendor wallet db (filled deps.ats_issuer_private_key)

pub record Confirmation : Type 0 where
  pub db : Db
  pub result : Result WalletSummary

-- What is left of a confirmed wallet once the credential was tried.
abbrev pub after_minting : WalletSummary → Db → Result Db → Confirmation
after_minting summary saved (err e) = record { db = saved; result = err e }
after_minting summary saved (ok minted) = record { db = minted; result = ok summary }

abbrev pub confirm_admitted :
    OnboardingDeps → ℕ → Text → CallbackConfirmRequest → Vendor → VendorWallet → Db → Confirmation
confirm_admitted deps now credential_id i vendor wallet db =
    let updated = confirmed_with now i wallet in
    let saved = save_wallet updated db in
    after_minting (to_wallet_summary deps.platform updated) saved
      (issue_verification_credential deps now credential_id vendor updated saved)

abbrev pub confirm_found :
    OnboardingDeps
    → ℕ
    → Text
    → CallbackConfirmRequest
    → Db
    → Result (Vendor × VendorWallet × IndependentContact)
    → Confirmation
confirm_found deps now credential_id i db (err e) = record { db = db; result = err e }
confirm_found deps now credential_id i db (ok (vendor, wallet, _)) =
    confirm_admitted deps now credential_id i vendor wallet db

unfoldable pub confirm_callback :
    OnboardingDeps → ℕ → Text → Text → Text → CallbackConfirmRequest → Db → Confirmation
confirm_callback deps now credential_id vendor_id wallet_id i db =
    confirm_found deps now credential_id i db (admit_callback deps vendor_id wallet_id i db)
