-- ===== src/Sample.antt =====
-- A small world in which the services run: a toy platform, one payer and one payee, and the
-- databases that a payment goes through. The tests run the theorems on it.
pub mod Run
pub mod Onboard
mod Tests
mod Onboarded
use securtxn.Prelude.{
  ℕ, ◌+◌, ◌-◌, ◌*◌, ◌/◌, ◌%◌, ◌^◌, Bool, true, false, Option, none, some, List, [], ◌∷◌, ◌++◌, Text,
  codes, text_eq, lower, length, replicate, Result, ok, err, Error,
}
use securtxn.Types.{
  WalletStatus, KybStatus, business, VerificationTier, tier3_address, SettlementMode, htlc,
  accepted,
}
use securtxn.Platform.{Platform}
use securtxn.Deps.{Deps}
use securtxn.Decision.{TierThresholds}
use securtxn.Evidence.Payload.{fallback}
use securtxn.Store.Rows.{Vendor, VendorWallet, Db}
use securtxn.Payments.{CreatePaymentRequest}
use securtxn.Payments.Decide.{Gatherers, no_gateway}
use securtxn.Consent.{PayeeConsentRequest}
use securtxn.Settle.{ChainGateway}
use securtxn.Settle.Units.{print}

abbrev pub pad : ℕ → Text → Text
pad n t = replicate (n - length t) b'0' ++ t

abbrev mix : Text → ℕ
mix [] = 7
mix (c ∷ t) = (mix t * 31 + c) % 10 ^ 60

-- A toy hash of 64 digits.
abbrev pub toy_hash : Text → Text
toy_hash t = codes "0x" ++ pad 64 (print (mix t))

abbrev pub platform : Platform
platform = record {
  keccak256 = toy_hash;
  to_hex = λ t. codes "0x" ++ t;
  encode_lock = λ p. p.payment_ref ++ p.payer ++ p.payee ++ p.token ++ print p.amount ++ p.hashlock;
  verify_typed_data = λ chain address message signature. text_eq signature (codes "signed");
  to_iso_string = λ t. codes "2026-01-01T00:00:00.000Z";
  decimal_text = λ n. print (n / 10 ^ 18);
  is_uuid = λ t. true;
  is_datetime = λ t. true;
  hmac = λ t. codes "hmac:" ++ t;
  sha256 = λ t. pad 64 (print (length t));
  fold_text = lower;
  to_upper = λ t. t;
  ties_as_written = true;
}

abbrev pub address : ℕ → Text
address n = codes "0x" ++ pad 40 (print n)

abbrev pub no_ceiling : TierThresholds
no_ceiling _ = none

abbrev pub deps : Deps
deps = record {
  platform = platform;
  tier_thresholds = no_ceiling;
  matcher_kind = fallback;
  hedera_chain_id = 296;
  world_feature_flag_enabled = false;
  settlement_funding_payer = false;
  htlc_timelock_seconds = 3600;
  htlc_contract_address = some (address 7);
  token_addresses = (codes "USDC", address 8) ∷ [];
}

abbrev pub vendor : Text → Vendor
vendor id = record {
  id = id;
  verification_tier = tier3_address;
  legal_entity_name = some (codes "Acme Ltd");
  legal_first_name = none;
  legal_last_name = none;
  country = codes "IN";
  legal_name_hmac = some (codes "hmac:acme");
  pan_number_hmac = some (codes "hmac:P");
  payee_type = business;
  kyb_status = KybStatus.pending;
  tax_id_hmac = none;
  verified_email = none;
  onboarding_session_nonce = some (codes "0xaa");
  digilocker_session_id = none;
  digilocker_user_id = none;
  aadhaar_last4 = none;
  aadhaar_kyc_ttl = some (10 ^ 12);
  pan_verified_on = none;
  id_document_type = none;
  aadhaar_doc_hash = none;
  pan_doc_hash = none;
  xml_signature_verified = true;
  xml_signature_verified_at = none;
  cross_doc_consistent = true;
  registry_verified_contact = some (codes "+91 22 5550-0100");
  verified_phone = none;
  verified_phone_at = none;
  dob_encrypted = none;
  verified_address_encrypted = none;
  address_verified_method = none;
  address_verified_at = none;
  photo_encrypted_ref = none;
  attestation_sig = some (codes "signed");
  attestation_data_hash = some (codes "0xaa");
  attested_at = some 0;
  created_at = 0;
}

abbrev pub wallet : Text → Text → ℕ → VendorWallet
wallet id owner n = record {
  id = id;
  vendor_id = owner;
  address = address n;
  network = codes "hedera";
  token_contract = none;
  version = 1;
  status = WalletStatus.confirmed;
  confirmed_at = some 0;
  superseded_by_id = none;
  control_proof_sig = some (codes "signed");
  control_proof_nonce = some (codes "0xaa");
  callback_confirmed_at = some 0;
  callback_channel_used = some (codes "+912255500100");
  callback_confirmed_by = some (codes "operator");
  created_at = 0;
}

abbrev pub at_start : Db
at_start = record {
  vendors = vendor (codes "payee") ∷ vendor (codes "payer") ∷ [];
  vendor_wallets =
      wallet (codes "w1") (codes "payee") 1 ∷ wallet (codes "w2") (codes "payer") 2 ∷ [];
  verifiable_credentials = [];
  vendor_match_requests = [];
  payment_requests = [];
  world_id_verifications = [];
  notifications = [];
  identity_blocks = [];
  securities = [];
}

abbrev pub new_request : CreatePaymentRequest
new_request = record {
  vendor_id = codes "payee";
  vendor_wallet_id = codes "w1";
  payer_vendor_id = codes "payer";
  intended_payee_name = codes "Acme";
  intended_payee_pan = codes "P";
  invoice_ref = codes "inv-1";
  amount_text = codes "5";
  amount = 5 * 10 ^ 18;
  token = codes "USDC";
  network = codes "hedera";
  settlement_mode = htlc;
}

abbrev pub acceptance : PayeeConsentRequest
acceptance = record {
  decision = accepted;
  signature = some (codes "signed");
  signer_address = some (address 1);
  world_id_verification_id = none;
}

abbrev pub gatherers : Gatherers
gatherers = record {
  match = λ i. ok (record { match = true; reason_code = codes "MATCH" });
  screen = λ q. ok false;
  compliance = no_gateway;
  ats_security_id = none;
}

abbrev pub gateway : ChainGateway
gateway = record {
  broadcasts = true;
  treasury_address = address 9;
  decimals = λ token. ok 6;
  balance_of = λ token holder. ok (10 ^ 12);
  transfer = λ token to amount. ok (toy_hash (codes "transfer"));
  lock = λ i. ok (record {
    lock_id = toy_hash (codes "lock");
    lock_tx_hash = toy_hash (codes "lock tx");
    payer = address 9;
  });
  refund = λ id. ok (toy_hash (codes "refund"));
  sent_on_failure = λ b. false;
}

abbrev pub secret : Text
secret = toy_hash (codes "s")

abbrev pub db_of {ℓ} : {A : Type ℓ} → Result (A × Db) → Db
db_of (ok (a, db)) = db
db_of (err e) = at_start

abbrev pub value_of : Result Db → Db
value_of (ok db) = db
value_of (err e) = at_start

abbrev pub is_ok {ℓ} : {A : Type ℓ} → Result A → Bool
is_ok (ok a) = true
is_ok (err e) = false
