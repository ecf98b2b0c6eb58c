-- ===== src/Eip712.antt =====
-- apps/api/src/lib/eip712.ts: the messages that the parties sign, and their verification. The
-- statements are the constants of packages/shared-types.
use securtxn.Prelude.{ℕ, Bool, false, ◌&&◌, ◌==◌, [], ◌∷◌, ◌++◌, Text, codes, if◌then◌else◌}
use securtxn.Platform.{Platform, TypedData}

abbrev statement : Text
statement = codes "I affirm this information is true and this wallet is mine."

abbrev control_statement : Text
control_statement = codes "I control this wallet."

abbrev ack_statement : Text
ack_statement = codes "I acknowledge receipt of this payment."

abbrev secret_release_statement : Text
secret_release_statement = codes "I am the payee and I am collecting this payment."

abbrev payee_consent_statement : Text
payee_consent_statement =
    codes "I accept this payment and consent to verification of my identity for it."

unfoldable pub build_wallet_control_message : Text → Text → Text → Text → TypedData
build_wallet_control_message vendor wallet_address network nonce = record {
  primary_type = codes "WalletControlProof";
  fields =
      (codes "vendorId", vendor)
      ∷ (codes "walletAddress", wallet_address)
      ∷ (codes "network", network)
      ∷ (codes "nonce", nonce)
      ∷ (codes "statement", control_statement)
      ∷ [];
}

abbrev has_prefix : Text → Bool
has_prefix (c ∷ d ∷ _) = c == b'0' && d == b'x'
has_prefix _ = false

unfoldable pub with_prefix : Text → Text
with_prefix hash = if has_prefix hash then hash else codes "0x" ++ hash

unfoldable pub build_identity_binding_message : Text → Text → Text → Text → Text → TypedData
unfolding with_prefix
build_identity_binding_message nonce user wallet_address aadhaar_doc_hash pan_doc_hash = record {
  primary_type = codes "IdentityBinding";
  fields =
      (codes "onboardingSessionNonce", nonce)
      ∷ (codes "digilockerUserId", user)
      ∷ (codes "walletAddress", wallet_address)
      ∷ (codes "aadhaarDocHash", with_prefix aadhaar_doc_hash)
      ∷ (codes "panDocHash", with_prefix pan_doc_hash)
      ∷ (codes "statement", statement)
      ∷ [];
}

unfoldable pub build_payee_consent_message : Text → Text → Text → Text → Text → TypedData
build_payee_consent_message payment payee amount token invoice_ref = record {
  primary_type = codes "PayeeConsent";
  fields =
      (codes "paymentRequestId", payment)
      ∷ (codes "payeeAddress", payee)
      ∷ (codes "amount", amount)
      ∷ (codes "token", token)
      ∷ (codes "invoiceRef", invoice_ref)
      ∷ (codes "statement", payee_consent_statement)
      ∷ [];
}

unfoldable pub build_acknowledgment_message : Text → Text → Text → TypedData
build_acknowledgment_message payment recipient commitment = record {
  primary_type = codes "RecipientAcknowledgment";
  fields =
      (codes "paymentRequestId", payment)
      ∷ (codes "recipientAddress", recipient)
      ∷ (codes "commitment", commitment)
      ∷ (codes "statement", ack_statement)
      ∷ [];
}

unfoldable pub build_secret_release_message : Text → Text → Text → TypedData
build_secret_release_message payment recipient lock_id = record {
  primary_type = codes "SecretRelease";
  fields =
      (codes "paymentRequestId", payment)
      ∷ (codes "recipientAddress", recipient)
      ∷ (codes "lockId", lock_id)
      ∷ (codes "statement", secret_release_statement)
      ∷ [];
}

-- `verifyTypedData` in the domain of the chain: the address is an input, and the signature recovers
-- to it or not.
unfoldable pub verify_payee_consent : Platform → ℕ → Text → Text → TypedData → Bool
verify_payee_consent pf chain_id address signature message =
    pf.verify_typed_data chain_id address message signature

unfoldable pub verify_acknowledgment : Platform → ℕ → Text → Text → TypedData → Bool
verify_acknowledgment pf chain_id address signature message =
    pf.verify_typed_data chain_id address message signature

unfoldable pub verify_secret_release : Platform → ℕ → Text → Text → TypedData → Bool
verify_secret_release pf chain_id address signature message =
    pf.verify_typed_data chain_id address message signature

unfoldable pub verify_wallet_control : Platform → ℕ → Text → Text → TypedData → Bool
verify_wallet_control pf chain_id address signature message =
    pf.verify_typed_data chain_id address message signature

unfoldable pub verify_identity_binding : Platform → ℕ → Text → Text → TypedData → Bool
verify_identity_binding pf chain_id address signature message =
    pf.verify_typed_data chain_id address message signature
