-- ===== src/Onboarding.antt =====
-- apps/api/src/modules/vendors, identity and wallets together: what holds of every vendor, wallet and
-- credential row that the onboarding operations write.
pub mod Keeps
pub mod Proves
pub mod Confirms
pub mod Steps
use securtxn.Prelude.{
  ℕ, Bool, true, false, ◌≡◌, refl, Option, some, Text, filled, is_some, All, ok, ◌&&◌,
}
use securtxn.Types.{is_confirmed}
use securtxn.Deps.{OnboardingDeps}
use securtxn.Eip712.{
  build_wallet_control_message, build_identity_binding_message, verify_wallet_control,
  verify_identity_binding,
}
use securtxn.Store.Rows.{Vendor, VendorWallet, VerifiableCredential, Db}

-- An attestation on file was signed over the vendor's own nonce, by the wallet that it names.
pub record Attested (deps : OnboardingDeps) (v : Vendor) (s : Text) : Type 0 where
  pub nonce : Text
  pub own_nonce : filled v.onboarding_session_nonce ≡ some nonce
  pub user : Text
  pub wallet_address : Text
  pub aadhaar : Text
  pub pan : Text
  pub recovers :
      verify_identity_binding deps.platform deps.hedera_chain_id wallet_address s
        (build_identity_binding_message nonce user wallet_address aadhaar pan)
      ≡ true

abbrev pub VendorGood : OnboardingDeps → Vendor → Type 0
VendorGood deps v = (s : Text) → v.attestation_sig ≡ some s → Attested deps v s

-- A control proof on file recovers to the wallet's address, over its vendor, network and nonce.
pub record Controlled (deps : OnboardingDeps) (w : VendorWallet) (s : Text) : Type 0 where
  pub nonce : Text
  pub own_nonce : filled w.control_proof_nonce ≡ some nonce
  pub recovers :
      verify_wallet_control deps.platform deps.hedera_chain_id w.address s
        (build_wallet_control_message w.vendor_id w.address w.network nonce)
      ≡ true

-- A wallet that is confirmed has its control proof and its callback on file.
pub record WalletGood (deps : OnboardingDeps) (w : VendorWallet) : Type 0 where
  pub control : (s : Text) → w.control_proof_sig ≡ some s → Controlled deps w s
  pub confirmed :
      is_confirmed w.status ≡ true
      → (is_some w.control_proof_sig ≡ true)
        × (is_some w.callback_confirmed_at ≡ true)
        × (is_some w.callback_channel_used ≡ true)

-- A credential names the configured issuer, and asserts only what the confirmation has checked.
pub record CredentialGood (deps : OnboardingDeps) (c : VerifiableCredential) : Type 0 where
  pub issuer :
      (key : Text) × (filled deps.ats_issuer_private_key ≡ some key)
      × (deps.account_address key ≡ ok c.issuer_address)
  pub identity : (c.claims).xml_signature_verified && (c.claims).cross_doc_consistent ≡ true
  pub gates :
      ((c.claims).wallet_control_proven ≡ true)
      × ((c.claims).identity_binding_signed ≡ true)
      × ((c.claims).callback_confirmed ≡ true)

pub record Good (deps : OnboardingDeps) (db : Db) : Type 0 where
  pub vendors : All (VendorGood deps) db.vendors
  pub wallets : All (WalletGood deps) db.vendor_wallets
  pub credentials : All (CredentialGood deps) db.verifiable_credentials
