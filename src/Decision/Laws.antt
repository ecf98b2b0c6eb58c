-- ===== src/Decision/Laws.antt =====
-- When the decision engine lets money move, and which finding it records.
use securtxn.Prelude.{◌≡◌, ◌↔◌, true, false, arith}
use securtxn.Types.{is_confirmed, is_tier0, htlc}
use securtxn.Decision.{
  DecisionInput, TierThresholds, decide, exceeds, proceeds, recommend_settlement_mode,
}

-- Every gate is open.
pub record IsCleared (cfg : TierThresholds) (i : DecisionInput) : Type 0 where
  pub no_sanctions : i.sanctions_hit ≡ false
  pub no_duplicate : i.is_duplicate ≡ false
  pub confirmed : is_confirmed i.vendor_wallet.status ≡ true
  pub tiered : is_tier0 i.verification_tier ≡ false
  pub granted : i.on_chain_kyc_granted ≡ true
  pub matched : i.matched ≡ true
  pub within : exceeds i.amount (cfg i.verification_tier) ≡ false

-- The engine lets a payment proceed exactly when every gate is open: no sanctions hit, no
-- duplicate, a confirmed wallet, a tier above TIER0, an on-chain grant, an identity match, and an
-- amount not above the tier's ceiling.
pub decide-proceeds_iff :
    (cfg : TierThresholds) (i : DecisionInput)
    → (proceeds (decide i cfg).decision ≡ true) ↔ IsCleared cfg i
unfolding decide
decide-proceeds_iff cfg i = (λ h. ground arith, λ c. ground arith)

-- An escrow is recommended exactly for a payment that passes every gate to an address that was
-- never paid before.
pub recommend_settlement_mode-decide_iff :
    (cfg : TierThresholds) (i : DecisionInput)
    → (recommend_settlement_mode (decide i cfg).reason_code ≡ htlc)
      ↔ (IsCleared cfg i × (i.is_new_or_changed_address ≡ true))
unfolding decide recommend_settlement_mode
recommend_settlement_mode-decide_iff cfg i = (λ h. (ground arith, ground arith), λ c. ground arith)
