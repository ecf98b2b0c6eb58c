-- ===== src/Deps.antt =====
-- What a service is constructed with (apps/api/src/container.ts): the platform and the parts of
-- `Config` that the payment services read. Each call of an operation takes the current time too.
use securtxn.Prelude.{ℕ, Bool, Option, List, Text, Result}
use securtxn.Platform.{Platform, TypedData}
use securtxn.Decision.{TierThresholds}
use securtxn.Evidence.Payload.{MatcherKind}

pub record Deps : Type 0 where
  pub platform : Platform
  pub tier_thresholds : TierThresholds
  pub matcher_kind : MatcherKind
  pub hedera_chain_id : ℕ
  pub world_feature_flag_enabled : Bool
  -- `SETTLEMENT_FUNDING === "payer"`
  pub settlement_funding_payer : Bool
  pub htlc_timelock_seconds : ℕ
  pub htlc_contract_address : Option Text
  pub token_addresses : List (Text × Text)

-- What the onboarding services read.
pub record OnboardingDeps : Type 0 where
  pub platform : Platform
  pub hedera_chain_id : ℕ
  pub ats_issuer_private_key : Option Text
  pub ats_security_id : Option Text
  -- node's AES-256-GCM under `PII_ENCRYPTION_KEY`, on the base64 of an iv, a tag and a ciphertext;
  -- none where node throws
  pub decrypt : Text → Text → Text → Option Text
  -- viem's account of a private key, which refuses a malformed one
  pub account_address : Text → Result Text
  -- viem's `signTypedData` in the domain of credentials: private key, chain id, message
  pub sign_typed_data : Text → ℕ → TypedData → Text
