-- ===== src/Decision.antt =====
-- apps/api/src/modules/decision: the decision engine and the advisory settlement mode. Amounts are
-- exact decimals (Decimal(38,18)), counted here in units of 10⁻¹⁸.
pub mod Laws
mod Tests
use securtxn.Prelude.{ℕ, Text, Bool, not, Option, none, some, if◌then◌else◌, ltb, ◌||◌}
use securtxn.Types.{
  WalletStatus, VerificationTier, PaymentDecision, DecisionReasonCode, SettlementMode, is_confirmed,
  is_tier0, safe_to_send, do_not_send, reverify, send_test_amount, sanctions_hit, duplicate_payment,
  wallet_not_confirmed, tier_unverified, vendor_match_failed, onchain_kyc_not_granted,
  amount_exceeds_tier_limit, new_or_changed_address, all_checks_passed, direct, htlc,
}

pub record WalletSnapshot : Type 0 where
  pub status : WalletStatus
  pub address : Text
  pub network : Text

pub record DecisionInput : Type 0 where
  pub vendor_wallet : WalletSnapshot
  pub verification_tier : VerificationTier
  -- `matchResult.match`; the engine does not read its reason code
  pub matched : Bool
  pub sanctions_hit : Bool
  pub is_duplicate : Bool
  pub is_new_or_changed_address : Bool
  pub on_chain_kyc_granted : Bool
  pub amount : ℕ

-- `maxAmountForTier`: `none` is a tier with no ceiling.
abbrev pub TierThresholds : Type 0
TierThresholds = VerificationTier → Option ℕ

pub record Decision : Type 0 where
  pub decision : PaymentDecision
  pub reason_code : DecisionReasonCode
  pub tier_limit_applied : Option ℕ

abbrev verdict : PaymentDecision → DecisionReasonCode → Option ℕ → Decision
verdict d r l = record { decision = d; reason_code = r; tier_limit_applied = l }

-- `limit !== null && input.amount.gt(limit)`
abbrev pub exceeds : ℕ → Option ℕ → Bool
exceeds amount none = Bool.false
exceeds amount (some limit) = ltb limit amount

unfoldable pub decide : DecisionInput → TierThresholds → Decision
decide input cfg =
    let limit = cfg input.verification_tier in
    if input.sanctions_hit
    then verdict do_not_send sanctions_hit none
    else if input.is_duplicate
    then verdict do_not_send duplicate_payment none
    else if not (is_confirmed input.vendor_wallet.status)
    then verdict do_not_send wallet_not_confirmed none
    else if is_tier0 input.verification_tier
    then verdict do_not_send tier_unverified none
    else if not input.on_chain_kyc_granted
    then verdict reverify onchain_kyc_not_granted none
    else if not input.matched
    then verdict reverify vendor_match_failed none
    else if exceeds input.amount limit
    then verdict reverify amount_exceeds_tier_limit limit
    else if input.is_new_or_changed_address
    then verdict send_test_amount new_or_changed_address limit
    else verdict safe_to_send all_checks_passed limit

-- `verdict.decision === "SAFE_TO_SEND" || verdict.decision === "SEND_TEST_AMOUNT"`
abbrev pub proceeds : PaymentDecision → Bool
proceeds safe_to_send = Bool.true
proceeds send_test_amount = Bool.true
proceeds _ = Bool.false

-- What the first payment to an address is recommended to travel by.
unfoldable pub recommend_settlement_mode : DecisionReasonCode → SettlementMode
recommend_settlement_mode new_or_changed_address = htlc
recommend_settlement_mode _ = direct
