-- ===== src/Vendors.antt =====
-- apps/api/src/modules/vendors/service.ts, and the two lookups of modules/internal that read the same
-- tables: vendor-lookup.routes.ts and identity-registry.routes.ts.
use securtxn.Prelude.{
  ℕ, Bool, true, false, not, ◌&&◌, Option, none, some, [], ◌∷◌, ◌++◌, Text, text_eq, filled, filter,
  lower, is_some, map, ltb, Result, ok, present, ◌>>=◌, not_found,
}
use mathlib.Core.Option
use securtxn.Types.{PayeeType, KybStatus, VerificationTier, WalletStatus, is_confirmed, is_revoked}
use securtxn.Platform.{Platform}
use securtxn.Matching.{VendorRecord, WalletOnFile}
use securtxn.Payments.Decide.{display_name}
use securtxn.Store.Rows.{Vendor, VendorWallet, WorldIdPurpose, enrollment, reverification, Db}
use securtxn.Store.Queries.{find_vendor, save_vendor, newest}

pub data CreateVendorRequest : Type 0 where
  individual :
      (legal_first_name legal_last_name country : Text) (verified_email : Option Text)
      → CreateVendorRequest
  business :
      (legal_entity_name country : Text) (verified_email tax_id : Option Text) → CreateVendorRequest

abbrev blank_vendor : ℕ → Text → Text → PayeeType → Text → Option Text → Vendor
blank_vendor now new_id nonce type country email = record {
  id = new_id;
  verification_tier = VerificationTier.tier0_unverified;
  legal_entity_name = none;
  legal_first_name = none;
  legal_last_name = none;
  country = country;
  legal_name_hmac = none;
  pan_number_hmac = none;
  payee_type = type;
  kyb_status = KybStatus.pending;
  tax_id_hmac = none;
  verified_email = filled email;
  onboarding_session_nonce = some nonce;
  digilocker_session_id = none;
  digilocker_user_id = none;
  aadhaar_last4 = none;
  aadhaar_kyc_ttl = none;
  pan_verified_on = none;
  id_document_type = none;
  aadhaar_doc_hash = none;
  pan_doc_hash = none;
  xml_signature_verified = false;
  xml_signature_verified_at = none;
  cross_doc_consistent = false;
  registry_verified_contact = none;
  verified_phone = none;
  verified_phone_at = none;
  dob_encrypted = none;
  verified_address_encrypted = none;
  address_verified_method = none;
  address_verified_at = none;
  photo_encrypted_ref = none;
  attestation_sig = none;
  attestation_data_hash = none;
  attested_at = none;
  created_at = now;
}

unfoldable pub new_vendor : Platform → ℕ → Text → Text → CreateVendorRequest → Vendor
new_vendor pf now new_id nonce (individual first last country email) =
    record (blank_vendor now new_id nonce PayeeType.individual country email) {
      legal_first_name = some first;
      legal_last_name = some last;
    }
new_vendor pf now new_id nonce (business entity country email tax_id) =
    record (blank_vendor now new_id nonce PayeeType.business country email) {
      legal_entity_name = some entity;
      tax_id_hmac = Option.map pf.hmac (filled tax_id);
    }

-- The nonce and the id are drawn by the server.
unfoldable pub create_vendor : Platform → ℕ → Text → Text → CreateVendorRequest → Db → Vendor × Db
create_vendor pf now new_id nonce i db =
    let v = new_vendor pf now new_id nonce i in (v, record db { vendors = db.vendors ++ v ∷ [] })

unfoldable pub update_kyb_status : Text → KybStatus → Db → Result (Vendor × Db)
update_kyb_status vendor_id kyb_status db = find_vendor vendor_id db >>= λ v.
    let updated : Vendor = record v { kyb_status = kyb_status } in
    ok (updated, save_vendor updated db)

pub record VendorSummary : Type 0 where
  pub id : Text
  pub payee_type : PayeeType
  pub display_name_of : Text
  pub country : Text
  pub kyb_status : KybStatus
  pub verification_tier : VerificationTier
  pub aadhaar_last4 : Option Text
  pub xml_signature_verified : Bool
  pub cross_doc_consistent : Bool
  pub aadhaar_kyc_ttl : Option Text
  pub created_at : Text

unfoldable pub to_summary : Platform → Vendor → VendorSummary
to_summary pf v = record {
  id = v.id;
  payee_type = v.payee_type;
  display_name_of = display_name v;
  country = v.country;
  kyb_status = v.kyb_status;
  verification_tier = v.verification_tier;
  aadhaar_last4 = v.aadhaar_last4;
  xml_signature_verified = v.xml_signature_verified;
  cross_doc_consistent = v.cross_doc_consistent;
  aadhaar_kyc_ttl = Option.map pf.to_iso_string v.aadhaar_kyc_ttl;
  created_at = pf.to_iso_string v.created_at;
}

unfoldable pub get_vendor : Platform → Text → Db → Result VendorSummary
get_vendor pf vendor_id db = find_vendor vendor_id db >>= λ v. ok (to_summary pf v)

abbrev pub on_network : Option Text → VendorWallet → Bool
on_network none w = true
on_network (some network) w = text_eq w.network network

-- `mode: "insensitive"`, on addresses
abbrev pub at_address : Text → Option Text → VendorWallet → Bool
at_address address network w = text_eq (lower w.address) (lower address) && on_network network w

pub record VendorByAddress : Type 0 where
  pub vendor_id : Text
  pub display_name_of : Text
  pub verification_tier : VerificationTier
  pub identity_verified : Bool
  pub aadhaar_kyc_ttl : Option Text
  pub wallet_id : Text
  pub wallet_status : WalletStatus
  pub address : Text
  pub network : Text
  pub enrolment_id : Option Text

abbrev is_verified_tier : VerificationTier → Bool
is_verified_tier VerificationTier.tier0_unverified = false
is_verified_tier _ = true

abbrev in_force : Option ℕ → ℕ → Bool
in_force none now = true
in_force (some ttl) now = ltb now ttl

abbrev is_enrollment : WorldIdPurpose → Bool
is_enrollment enrollment = true
is_enrollment reverification = false

unfoldable pub find_by_address : Platform → ℕ → Text → Option Text → Db → Result VendorByAddress
find_by_address pf now address network db =
    present
      (newest (λ w. w.version)
        (filter (λ w. at_address address network w && not (is_revoked w.status)) db.vendor_wallets))
      not_found
    >>= λ w. find_vendor w.vendor_id db >>= λ v. ok (record {
      vendor_id = w.vendor_id;
      display_name_of = display_name v;
      verification_tier = v.verification_tier;
      identity_verified = is_verified_tier v.verification_tier && in_force v.aadhaar_kyc_ttl now;
      aadhaar_kyc_ttl = Option.map pf.to_iso_string v.aadhaar_kyc_ttl;
      wallet_id = w.id;
      wallet_status = w.status;
      address = w.address;
      network = w.network;
      enrolment_id =
          Option.map (λ r. r.id)
            (newest (λ r. r.verified_at)
              (filter (λ r. text_eq r.subject w.vendor_id && is_enrollment r.purpose)
                db.world_id_verifications));
    })

abbrev wallet_on_file : VendorWallet → WalletOnFile
wallet_on_file w = record {
  address = w.address;
  network = w.network;
  token_contract = w.token_contract;
}

-- What a match is given: the digests and the CONFIRMED wallets.
unfoldable pub vendor_lookup : Text → Db → Result VendorRecord
vendor_lookup vendor_id db = find_vendor vendor_id db >>= λ v. ok (record {
  legal_name_hmac = v.legal_name_hmac;
  pan_number_hmac = v.pan_number_hmac;
  wallets =
      map wallet_on_file
        (filter (λ w. text_eq w.vendor_id vendor_id && is_confirmed w.status) db.vendor_wallets);
})

pub record RegistryResponse : Type 0 where
  pub verified : Bool
  pub vendor_id : Option Text
  pub address : Text

unfoldable pub identity_registry : Text → Option Text → Db → RegistryResponse
identity_registry address network db =
    let found =
      newest (λ w. w.version)
        (filter (λ w. at_address address network w && is_confirmed w.status) db.vendor_wallets) in
    record {
      verified = is_some found;
      vendor_id = Option.map (λ w. w.vendor_id) found;
      address = lower address;
    }
