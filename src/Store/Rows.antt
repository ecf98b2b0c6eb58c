-- ===== src/Store/Rows.antt =====
-- The rows of apps/api/prisma/schema.prisma.
use securtxn.Prelude.{ℕ, Bool, Option, List, Text}
use securtxn.Types.{
  WalletStatus, PaymentDecision, PaymentStatus, ExceptionType, ExceptionStatus, VerificationTier,
  SettlementMode, HtlcStatus, AcknowledgmentMethod, PayeeConsentDecision, NotificationKind,
  DecisionReasonCode, PayeeType, KybStatus, AddressVerifiedMethod,
}
use securtxn.Evidence.Chain.{ChainRecord}

pub record Vendor : Type 0 where
  pub id : Text
  pub verification_tier : VerificationTier
  pub legal_entity_name : Option Text
  pub legal_first_name : Option Text
  pub legal_last_name : Option Text
  pub country : Text
  pub legal_name_hmac : Option Text
  pub pan_number_hmac : Option Text
  pub payee_type : PayeeType
  pub kyb_status : KybStatus
  pub tax_id_hmac : Option Text
  pub verified_email : Option Text
  pub onboarding_session_nonce : Option Text
  pub digilocker_session_id : Option Text
  pub digilocker_user_id : Option Text
  pub aadhaar_last4 : Option Text
  pub aadhaar_kyc_ttl : Option ℕ
  pub pan_verified_on : Option ℕ
  pub id_document_type : Option Text
  pub aadhaar_doc_hash : Option Text
  pub pan_doc_hash : Option Text
  pub xml_signature_verified : Bool
  pub xml_signature_verified_at : Option ℕ
  pub cross_doc_consistent : Bool
  pub registry_verified_contact : Option Text
  pub verified_phone : Option Text
  pub verified_phone_at : Option ℕ
  pub dob_encrypted : Option Text
  pub verified_address_encrypted : Option Text
  pub address_verified_method : Option AddressVerifiedMethod
  pub address_verified_at : Option ℕ
  pub photo_encrypted_ref : Option Text
  pub attestation_sig : Option Text
  pub attestation_data_hash : Option Text
  pub attested_at : Option ℕ
  pub created_at : ℕ

pub record VendorWallet : Type 0 where
  pub id : Text
  pub vendor_id : Text
  pub address : Text
  pub network : Text
  pub token_contract : Option Text
  pub version : ℕ
  pub status : WalletStatus
  pub confirmed_at : Option ℕ
  pub superseded_by_id : Option Text
  pub control_proof_sig : Option Text
  pub control_proof_nonce : Option Text
  pub callback_confirmed_at : Option ℕ
  pub callback_channel_used : Option Text
  pub callback_confirmed_by : Option Text
  pub created_at : ℕ

-- The assertions of a credential (apps/api/src/lib/vc.ts).
pub record CredentialClaims : Type 0 where
  pub provider_user_id : Text
  pub verification_tier : VerificationTier
  pub xml_signature_verified : Bool
  pub cross_doc_consistent : Bool
  pub same_subject_linked : Bool
  pub wallet_control_proven : Bool
  pub identity_binding_signed : Bool
  pub callback_confirmed : Bool
  pub address_verified_method : AddressVerifiedMethod
  pub country : Text
  pub onboarding_session_nonce : Text

pub record VerifiableCredential : Type 0 where
  pub id : Text
  pub vendor_id : Text
  pub wallet_id : Text
  pub subject_address : Text
  pub claims : CredentialClaims
  pub signature : Text
  pub issuer_address : Text
  pub issued_at : ℕ
  pub expires_at : Option ℕ
  pub revoked_at : Option ℕ
  pub granted_tx_hash : Option Text

pub record PayeeConsent : Type 0 where
  pub decision : PayeeConsentDecision
  pub signature : Option Text
  pub signer_address : Option Text
  pub world_id_verification_id : Option Text

pub record Proposal : Type 0 where
  pub id : Text
  pub proposed_by : Text
  pub selfie_check_proof_ref : Option Text
  pub is_new_or_changed_address : Bool
  pub consumed_at : Option ℕ
  pub created_at : ℕ

pub record ApprovalEvent : Type 0 where
  pub approver_id : Text
  pub selfie_check_verified : Bool
  pub selfie_check_proof_ref : Option Text
  pub ledger_confirmed : Bool
  pub ledger_confirmed_at : Option ℕ

pub record RecipientAcknowledgment : Type 0 where
  pub recipient_address : Text
  pub method : AcknowledgmentMethod
  pub recipient_signature : Option Text
  pub claim_tx_hash : Option Text
  pub recipient_commitment : Text

-- `preimage_blob` is the encrypted secret, held as the text that it decrypts to.
pub record HtlcSettlement : Type 0 where
  pub escrow_address : Text
  pub lock_id : Text
  pub hashlock : Text
  pub timelock : ℕ
  pub payer_address : Text
  pub payee_address : Text
  pub token_address : Text
  pub amount : ℕ
  pub on_chain_amount : ℕ
  pub status : HtlcStatus
  pub lock_tx_hash : Option Text
  pub claim_tx_hash : Option Text
  pub refund_tx_hash : Option Text
  pub preimage : Option Text
  pub preimage_blob : Option Text
  pub preimage_released_at : Option ℕ
  pub settled_at : Option ℕ

pub data StepStatus : Type 0 where
  pending done skipped : StepStatus

pub record PlaybookStep : Type 0 where
  pub step : Text
  pub status : StepStatus

pub record ExceptionCase : Type 0 where
  pub id : Text
  pub type : ExceptionType
  pub status : ExceptionStatus
  pub playbook_steps : List PlaybookStep
  pub resolved_at : Option ℕ

pub record PaymentRequest : Type 0 where
  pub id : Text
  pub vendor_id : Text
  pub vendor_wallet_id : Text
  pub payer_vendor_id : Option Text
  pub claimed_payee_name_hmac : Option Text
  pub claimed_payee_pan_hmac : Option Text
  pub invoice_ref : Text
  pub amount : ℕ
  pub token : Text
  pub network : Text
  pub sender_context_commitment : Text
  pub settlement_mode : SettlementMode
  pub decision : Option PaymentDecision
  pub decision_reason_code : Option DecisionReasonCode
  pub status : PaymentStatus
  pub tx_hash : Option Text
  pub payee_consent : Option PayeeConsent
  pub proposal : Option Proposal
  pub approval_event : Option ApprovalEvent
  pub recipient_ack : Option RecipientAcknowledgment
  pub htlc_settlement : Option HtlcSettlement
  pub exception_case : Option ExceptionCase
  pub evidence_records : List ChainRecord

pub data WorldIdPurpose : Type 0 where
  enrollment reverification : WorldIdPurpose

pub record WorldIdVerification : Type 0 where
  pub id : Text
  pub nullifier : ℕ
  pub action : Text
  pub signal : Text
  pub credential : Text
  pub environment : Text
  pub subject : Text
  pub purpose : WorldIdPurpose
  pub upstream_reuse : Bool
  pub verified_at : ℕ

-- The payloads that the services write.
pub data NotificationPayload : Type 0 where
  consent_requested :
      (payer_vendor_id : Text) (amount : ℕ) (token invoice_ref : Text) (challenge_required : Bool)
      → NotificationPayload
  identity_mismatch : (payer_vendor_id reason_code invoice_ref : Text) → NotificationPayload

pub record Notification : Type 0 where
  pub vendor_id : Text
  pub kind : NotificationKind
  pub payment_request_id : Text
  pub payload : NotificationPayload
  pub created_at : ℕ

pub record IdentityBlock : Type 0 where
  pub blocked_by_vendor_id : Text
  pub blocked_vendor_id : Text

pub record Security : Type 0 where
  pub symbol : Text
  pub evm_address : Text
  pub created_at : ℕ

pub data VendorMatchRequestStatus : Type 0 where
  pending completed failed : VendorMatchRequestStatus

-- `score` is a text here, since it is stored and never read.
pub record VendorMatchRequest : Type 0 where
  pub id : Text
  pub vendor_id : Text
  pub wallet_address : Text
  pub network : Text
  pub status : VendorMatchRequestStatus
  pub match : Option Bool
  pub score : Option Text
  pub reason_code : Option Text
  pub workflow_execution_id : Option Text
  pub failure_reason : Option Text
  pub completed_at : Option ℕ

pub record Db : Type 0 where
  pub vendors : List Vendor
  pub vendor_wallets : List VendorWallet
  pub verifiable_credentials : List VerifiableCredential
  pub vendor_match_requests : List VendorMatchRequest
  pub payment_requests : List PaymentRequest
  pub world_id_verifications : List WorldIdVerification
  pub notifications : List Notification
  pub identity_blocks : List IdentityBlock
  pub securities : List Security
