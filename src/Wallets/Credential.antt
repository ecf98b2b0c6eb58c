-- ===== src/Wallets/Credential.antt =====
-- apps/api/src/lib/vc.ts: the credential that a confirmed wallet is given.
use securtxn.Prelude.{
  ℕ, ◌/◌, Bool, true, false, Option, none, some, [], ◌∷◌, Text, codes, ltb, Result, ok, ◌>>=◌,
}
use securtxn.Types.{VerificationTier, AddressVerifiedMethod}
use securtxn.Platform.{Platform, TypedData}
use securtxn.Deps.{OnboardingDeps}
use securtxn.Json.{JsValue, string, boolean, object, end, field, serialise}
use securtxn.Settle.Units.{print}
use securtxn.Store.Rows.{CredentialClaims, VerifiableCredential}

abbrev tier_text : VerificationTier → Text
tier_text VerificationTier.tier0_unverified = codes "TIER0_UNVERIFIED"
tier_text VerificationTier.tier1_liveness = codes "TIER1_LIVENESS"
tier_text VerificationTier.tier2_identity = codes "TIER2_IDENTITY"
tier_text VerificationTier.tier3_address = codes "TIER3_ADDRESS"

abbrev method_text : AddressVerifiedMethod → Text
method_text AddressVerifiedMethod.postcard_code = codes "POSTCARD_CODE"
method_text AddressVerifiedMethod.id_document = codes "ID_DOCUMENT"
method_text AddressVerifiedMethod.database_lookup = codes "DATABASE_LOOKUP"
method_text AddressVerifiedMethod.unverified = codes "UNVERIFIED"

pub record IssuedCredential : Type 0 where
  pub credential_id : Text
  pub subject_address : Text
  pub claims : CredentialClaims
  pub signature : Text
  pub issuer_address : Text
  pub issued_at : ℕ
  pub expires_at : Option ℕ

pub record IssueInput : Type 0 where
  pub credential_id : Text
  pub subject_address : Text
  pub claims : CredentialClaims
  pub issued_at : ℕ
  pub expires_at : Option ℕ

-- `Math.floor(ms / 1000)`
unfoldable pub to_unix_seconds : ℕ → ℕ
to_unix_seconds ms = ms / 1000

abbrev claims_value : CredentialClaims → JsValue
claims_value c = object (
    field (codes "providerUserId") (string c.provider_user_id) (
      field (codes "verificationTier") (string (tier_text c.verification_tier)) (
        field (codes "xmlSignatureVerified") (boolean c.xml_signature_verified) (
          field (codes "crossDocConsistent") (boolean c.cross_doc_consistent) (
            field (codes "sameSubjectLinked") (boolean c.same_subject_linked) (
              field (codes "walletControlProven") (boolean c.wallet_control_proven) (
                field (codes "identityBindingSigned") (boolean c.identity_binding_signed) (
                  field (codes "callbackConfirmed") (boolean c.callback_confirmed) (
                    field (codes "addressVerifiedMethod")
                      (string (method_text c.address_verified_method))
                      (field (codes "country") (string c.country) (
                        field (codes "onboardingSessionNonce") (string c.onboarding_session_nonce)
                          end)))))))))))

-- `JSON.stringify` of the entries in key order, which for a flat object is the canonical JSON.
unfoldable pub hash_claims : Platform → CredentialClaims → Result Text
hash_claims pf claims =
    serialise (claims_value claims) >>= λ canonical. ok (pf.keccak256 (pf.to_hex canonical))

-- Zero stands for no expiry.
abbrev expiry_seconds : Option ℕ → ℕ
expiry_seconds none = 0
expiry_seconds (some ms) = to_unix_seconds ms

abbrev credential_message : IssueInput → Text → TypedData
credential_message i claims_hash = record {
  primary_type = codes "PayeeVerification";
  fields =
      (codes "credentialId", i.credential_id)
      ∷ (codes "subjectAddress", i.subject_address)
      ∷ (codes "providerUserId", (i.claims).provider_user_id)
      ∷ (codes "verificationTier", tier_text (i.claims).verification_tier)
      ∷ (codes "claimsHash", claims_hash)
      ∷ (codes "issuedAt", print (to_unix_seconds i.issued_at))
      ∷ (codes "expiresAt", print (expiry_seconds i.expires_at))
      ∷ [];
}

unfoldable pub issue_credential : OnboardingDeps → Text → IssueInput → Result IssuedCredential
issue_credential deps issuer_private_key i = deps.account_address issuer_private_key >>= λ issuer.
    hash_claims deps.platform i.claims >>= λ claims_hash. ok (record {
      credential_id = i.credential_id;
      subject_address = i.subject_address;
      claims = i.claims;
      signature =
          deps.sign_typed_data issuer_private_key deps.hedera_chain_id
            (credential_message i claims_hash);
      issuer_address = issuer;
      issued_at = i.issued_at;
      expires_at = i.expires_at;
    })

abbrev pub unexpired : Option ℕ → ℕ → Bool
unexpired none now = true
unexpired (some t) now = ltb now t

abbrev pub usable_until : Option ℕ → Option ℕ → ℕ → Bool
usable_until (some _) expires_at now = false
usable_until none expires_at now = unexpired expires_at now

unfoldable pub is_usable : VerifiableCredential → ℕ → Bool
is_usable credential now = usable_until credential.revoked_at credential.expires_at now
