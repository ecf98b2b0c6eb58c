-- ===== src/Identity.antt =====
-- apps/api/src/modules/identity/service.ts, with the outcome of checks/index.ts and the result that
-- providers/DigiLockerProvider.ts makes of it. The aggregator's answers are parameters.
pub mod Dates
pub mod Names
pub mod Checks
pub mod Verified
pub mod Sole
pub mod Agreed
pub mod Passed
mod Tests
use securtxn.Prelude.{
  ℕ, Bool, true, false, not, ◌&&◌, Option, none, some, List, [], ◌∷◌, Text, codes, text_eq, filled,
  or_else, is_some, any, all_of, filter, if◌then◌else◌, Result, ok, require, present, ◌>>=◌, ◌>>◌,
  unprocessable, conflict,
}
use mathlib.Core.Option
use securtxn.Types.{VerificationTier, AddressVerifiedMethod, is_confirmed}
use securtxn.Platform.{Platform}
use securtxn.EntityName.{canonical_entity_name}
use securtxn.Store.Rows.{Vendor, VendorWallet, Db}
use securtxn.Store.Queries.{first, find_vendor, save_vendor}
use securtxn.Identity.Dates.{DateRuntime}
use securtxn.Identity.Checks.{
  AadhaarDocument, PanDocument, UserProfile, check_cross_doc_consistency,
  check_same_subject_linkage, LinkageResult, check_ttl, TtlResult,
}

pub record IdentityCheckResults : Type 0 where
  pub xml_signature_verified : Bool
  pub cross_doc_consistent : Bool
  pub same_subject_linked : Bool
  pub ttl_captured : Bool

-- The documents as fetched: parsed, with the verdicts on their signatures and their SHA-256.
pub record IdentityCheckInput : Type 0 where
  pub aadhaar : AadhaarDocument
  pub pan : PanDocument
  pub profile : Option UserProfile
  pub aadhaar_signature : Bool
  pub pan_signature : Bool
  pub aadhaar_doc_hash : Text
  pub pan_doc_hash : Text

pub record IdentityResult : Type 0 where
  pub provider_user_id : Text
  pub legal_name : Text
  pub dob : Text
  pub address : List (Text × Text)
  pub photo_base64 : Option Text
  pub tax_id : Option Text
  pub checks : IdentityCheckResults
  pub aadhaar_last4 : Option Text
  pub aadhaar_doc_hash : Option Text
  pub pan_doc_hash : Option Text
  pub mobile : Option Text
  pub ttl : Option ℕ

unfoldable pub run_identity_checks :
    Platform → DateRuntime → ℕ → IdentityCheckInput → IdentityCheckResults
run_identity_checks pf dates now i =
    let ttl = check_ttl dates i.aadhaar now in
    record {
      xml_signature_verified = i.aadhaar_signature && i.pan_signature;
      cross_doc_consistent =
          (check_cross_doc_consistency pf dates i.aadhaar i.pan i.profile).consistent;
      same_subject_linked = (check_same_subject_linkage i.aadhaar i.pan).linked;
      ttl_captured = ttl.captured && not ttl.expired;
    }

abbrev mobile_of : Option UserProfile → Option Text
mobile_of none = none
mobile_of (some p) = p.mobile

unfoldable pub fetch_identity : Platform → DateRuntime → ℕ → IdentityCheckInput → IdentityResult
fetch_identity pf dates now i = record {
  provider_user_id = or_else (check_same_subject_linkage i.aadhaar i.pan).user_id [];
  legal_name = or_else i.aadhaar.name [];
  dob = or_else i.aadhaar.dob [];
  address = i.aadhaar.address;
  photo_base64 = filled i.aadhaar.photo_base64;
  tax_id = filled i.pan.pan_number;
  checks = run_identity_checks pf dates now i;
  aadhaar_last4 = filled i.aadhaar.last4;
  aadhaar_doc_hash = some i.aadhaar_doc_hash;
  pan_doc_hash = some i.pan_doc_hash;
  mobile = filled (mobile_of i.profile);
  ttl = (check_ttl dates i.aadhaar now).ttl;
}

unfoldable pub all_checks_passed : IdentityCheckResults → Bool
all_checks_passed c =
    c.xml_signature_verified
    && (c.cross_doc_consistent && (c.same_subject_linked && c.ttl_captured))

-- `encrypt` and its print under the configured key, and what is sealed of a date and an address.
pub record IdentityDeps : Type 0 where
  pub platform : Platform
  pub seal : Text → Text
  pub seal_address : List (Text × Text) → Text
  -- `toIsoDate(dob) ?? dob`
  pub iso_dob : Text → Text

abbrev pub agrees : Option Text → Text → Bool
agrees none t = false
agrees (some s) t = text_eq s t

-- `findUnique` by the DigiLocker account, which is unique.
abbrev pub holds : Text → Vendor → Bool
holds user v = agrees v.digilocker_user_id user

unfoldable pub holder_of : Text → Db → Option Vendor
holder_of user db = first (holds user) db.vendors

abbrev pub has_confirmed : Text → Db → Bool
has_confirmed vendor_id db =
    any (λ w. text_eq w.vendor_id vendor_id && is_confirmed w.status) db.vendor_wallets

abbrev pub without_identity : Vendor → Vendor
without_identity v = record v { digilocker_user_id = none }

-- An identity that an unfinished vendor holds is released; a finished one keeps it.
abbrev pub release_from : Text → Option Vendor → Db → Result Db
release_from vendor_id none db = ok db
release_from vendor_id (some v) db =
    if text_eq v.id vendor_id
    then ok db
    else require (not (has_confirmed v.id db)) conflict >> ok (save_vendor (without_identity v) db)

abbrev is_given : List (Text × Text) → Bool
is_given [] = false
is_given (x ∷ xs) = true

unfoldable pub tier_for : Bool → VerificationTier
tier_for true = VerificationTier.tier3_address
tier_for false = VerificationTier.tier2_identity

abbrev when : {A : Type 0} → Bool → A → A → A
when b x y = if b then x else y

unfoldable pub verified_with : IdentityDeps → ℕ → Text → IdentityResult → Vendor → Vendor
verified_with deps now blob_id i v =
    let attested = is_given i.address in
    record v {
      digilocker_user_id = some i.provider_user_id;
      aadhaar_last4 = i.aadhaar_last4;
      aadhaar_kyc_ttl = i.ttl;
      pan_number_hmac = Option.map deps.platform.hmac (filled i.tax_id);
      pan_verified_on = some now;
      legal_name_hmac =
          Option.map deps.platform.hmac (canonical_entity_name deps.platform i.legal_name);
      id_document_type = some (codes "DIGILOCKER_AADHAAR");
      aadhaar_doc_hash = i.aadhaar_doc_hash;
      pan_doc_hash = i.pan_doc_hash;
      verified_phone =
          when (is_some (filled i.mobile)) (Option.map deps.seal i.mobile) v.verified_phone;
      verified_phone_at = when (is_some (filled i.mobile)) (some now) v.verified_phone_at;
      xml_signature_verified = true;
      xml_signature_verified_at = some now;
      cross_doc_consistent = true;
      dob_encrypted = Option.map (λ d. deps.seal (deps.iso_dob d)) (filled (some i.dob));
      verified_address_encrypted =
          when attested (some (deps.seal_address i.address)) v.verified_address_encrypted;
      address_verified_method =
          some (when attested AddressVerifiedMethod.id_document AddressVerifiedMethod.unverified);
      address_verified_at = when attested (some now) none;
      photo_encrypted_ref =
          when (is_some (filled i.photo_base64)) (some blob_id) v.photo_encrypted_ref;
      verification_tier = tier_for attested;
    }

unfoldable pub complete :
    IdentityDeps → ℕ → Text → Text → Result IdentityResult → Db → Result (Vendor × Db)
complete deps now blob_id vendor_id fetched db = find_vendor vendor_id db >>= λ vendor.
    present (filled vendor.digilocker_session_id) unprocessable >>= λ _. fetched >>= λ i.
    require (all_checks_passed i.checks) unprocessable
    >> (release_from vendor_id (holder_of i.provider_user_id db) db >>= λ released.
        let updated = verified_with deps now blob_id i vendor in
        ok (updated, save_vendor updated released))

pub record Session : Type 0 where
  pub session_id : Text
  pub authorization_url : Text

-- `fresh_nonce` is drawn, and used where the vendor has none.
unfoldable pub start_session : Text → Text → Result Session → Db → Result ((Session × Text) × Db)
start_session fresh_nonce vendor_id answer db = find_vendor vendor_id db >>= λ vendor.
    answer >>= λ session.
    let nonce = or_else vendor.onboarding_session_nonce fresh_nonce in
    let updated : Vendor = record vendor {
      onboarding_session_nonce = some nonce;
      digilocker_session_id = some session.session_id;
    } in
    ok ((session, nonce), save_vendor updated db)
