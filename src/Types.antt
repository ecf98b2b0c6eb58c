-- ===== src/Types.antt =====
-- The closed vocabularies of packages/shared-types/src/enums.ts and payment.ts, with `===` on each.
pub mod Laws
use securtxn.Prelude.{ℕ, Bool, ◌==◌}

pub data WalletStatus : Type 0 where
  pending_verification confirmed revoked : WalletStatus

pub data PaymentDecision : Type 0 where
  safe_to_send do_not_send reverify send_test_amount : PaymentDecision

pub data PaymentStatus : Type 0 where
  draft awaiting_payee_consent decision_pending awaiting_approval approved sent confirmed_on_chain
        exception :
      PaymentStatus

pub data ExceptionType : Type 0 where
  overpay misdirect duplicate wrong_asset dispute : ExceptionType

pub data ExceptionStatus : Type 0 where
  open_case in_recovery resolved written_off : ExceptionStatus

pub data VerificationTier : Type 0 where
  tier0_unverified tier1_liveness tier2_identity tier3_address : VerificationTier

pub data SettlementMode : Type 0 where
  direct htlc : SettlementMode

pub data HtlcStatus : Type 0 where
  pending_lock locked claimed refunded : HtlcStatus

pub data AcknowledgmentMethod : Type 0 where
  eip712_signature htlc_claim : AcknowledgmentMethod

pub data PayeeConsentDecision : Type 0 where
  accepted denied : PayeeConsentDecision

pub data NotificationKind : Type 0 where
  consent_requested identity_mismatch funds_locked : NotificationKind

pub data PayeeType : Type 0 where
  individual business : PayeeType

pub data KybStatus : Type 0 where
  pending verified rejected : KybStatus

pub data AddressVerifiedMethod : Type 0 where
  postcard_code id_document database_lookup unverified : AddressVerifiedMethod

pub data DecisionReasonCode : Type 0 where
  sanctions_hit duplicate_payment wallet_not_confirmed tier_unverified vendor_match_failed
        onchain_kyc_not_granted amount_exceeds_tier_limit new_or_changed_address all_checks_passed :
      DecisionReasonCode

abbrev pub rank : PaymentStatus → ℕ
rank draft = 0
rank awaiting_payee_consent = 1
rank decision_pending = 2
rank awaiting_approval = 3
rank approved = 4
rank sent = 5
rank confirmed_on_chain = 6
rank exception = 7

-- `payment.status === s`
unfoldable pub is_status : PaymentStatus → PaymentStatus → Bool
is_status a b = rank a == rank b

abbrev pub is_revoked : WalletStatus → Bool
is_revoked WalletStatus.revoked = Bool.true
is_revoked _ = Bool.false

abbrev pub is_confirmed : WalletStatus → Bool
is_confirmed WalletStatus.confirmed = Bool.true
is_confirmed _ = Bool.false

abbrev pub is_tier0 : VerificationTier → Bool
is_tier0 tier0_unverified = Bool.true
is_tier0 _ = Bool.false

abbrev pub is_accepted : PayeeConsentDecision → Bool
is_accepted accepted = Bool.true
is_accepted denied = Bool.false

abbrev pub is_htlc : SettlementMode → Bool
is_htlc htlc = Bool.true
is_htlc direct = Bool.false

abbrev pub is_locked : HtlcStatus → Bool
is_locked locked = Bool.true
is_locked _ = Bool.false

abbrev pub is_pending_lock : HtlcStatus → Bool
is_pending_lock pending_lock = Bool.true
is_pending_lock _ = Bool.false
