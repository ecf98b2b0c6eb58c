-- ===== src/Decision/Tests.antt =====
-- The decision engine at concrete inputs.
use securtxn.Prelude.{◌≡◌, refl, ◌↔◌, true, false, none, some, codes}
use securtxn.Types.{
  WalletStatus, tier2_identity, tier3_address, send_test_amount, amount_exceeds_tier_limit,
}
use securtxn.Decision.{DecisionInput, TierThresholds, decide, proceeds}
use securtxn.Decision.Laws.{IsCleared, decide-proceeds_iff}

abbrev limits : TierThresholds
limits tier2_identity = some 500
limits tier3_address = none
limits _ = some 10

abbrev first_payment : DecisionInput
first_payment = record {
  vendor_wallet = record {
    status = WalletStatus.confirmed;
    address = codes "0xaB";
    network = codes "hedera";
  };
  verification_tier = tier2_identity;
  matched = true;
  sanctions_hit = false;
  is_duplicate = false;
  is_new_or_changed_address = true;
  on_chain_kyc_granted = true;
  amount = 500;
}

at_the_ceiling : (decide first_payment limits).decision ≡ send_test_amount
unfolding decide
at_the_ceiling = refl

above_the_ceiling :
    (decide (record first_payment { amount = 501 }) limits).reason_code ≡ amount_exceeds_tier_limit
unfolding decide
above_the_ceiling = refl

decide-proceeds_iff_example :
    (proceeds (decide first_payment limits).decision ≡ true) ↔ IsCleared limits first_payment
decide-proceeds_iff_example = decide-proceeds_iff limits first_payment
