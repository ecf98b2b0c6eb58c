-- ===== src/Wallets/Proofs.antt =====
-- apps/api/src/modules/wallets/service.ts: the proof that the payee holds the key, and the
-- attestation that binds the key to the verified identity.
use securtxn.Prelude.{
  ℕ, Bool, Option, none, some, Text, text_eq, filled, Result, ok, require, present, ◌>>=◌, ◌>>◌,
  unprocessable,
}
use securtxn.Platform.{TypedData}
use securtxn.Deps.{OnboardingDeps}
use securtxn.Eip712.{
  build_wallet_control_message, build_identity_binding_message, verify_wallet_control,
  verify_identity_binding,
}
use securtxn.Store.Rows.{Vendor, VendorWallet, Db}
use securtxn.Store.Queries.{save_vendor, save_wallet}
use securtxn.Wallets.{WalletSummary, to_wallet_summary, require_pair}

abbrev pub control_message : Text → VendorWallet → Text → TypedData
control_message vendor_id w nonce = build_wallet_control_message vendor_id w.address w.network nonce

unfoldable pub submit_control_proof :
    OnboardingDeps → Text → Text → Text → Db → Result (WalletSummary × Db)
submit_control_proof deps vendor_id wallet_id signature db =
    require_pair vendor_id wallet_id db >>= λ pair.
    let (vendor, wallet) = pair in
    present (filled wallet.control_proof_nonce) unprocessable >>= λ nonce.
    require
      (verify_wallet_control deps.platform deps.hedera_chain_id wallet.address signature
        (control_message vendor.id wallet nonce))
      unprocessable
    >> (let updated : VendorWallet = record wallet { control_proof_sig = some signature } in
        ok (to_wallet_summary deps.platform updated, save_wallet updated db))

abbrev pub agrees : Option Text → Text → Bool
agrees none t = Bool.false
agrees (some s) t = text_eq s t

-- The guards that the message and its submission share, and the message they lead to.
unfoldable pub binding_for : Vendor → VendorWallet → Result (Text × TypedData)
binding_for vendor wallet = present (filled vendor.digilocker_user_id) unprocessable >>= λ user.
    present (filled vendor.aadhaar_doc_hash) unprocessable >>= λ aadhaar.
    present (filled vendor.pan_doc_hash) unprocessable >>= λ pan.
    present (filled vendor.onboarding_session_nonce) unprocessable >>= λ nonce.
    require (agrees wallet.control_proof_nonce nonce) unprocessable
    >> ok (nonce, build_identity_binding_message nonce user wallet.address aadhaar pan)

-- The domain is that of the chain id.
unfoldable pub identity_binding_message : OnboardingDeps → Text → Text → Db → Result (ℕ × TypedData)
identity_binding_message deps vendor_id wallet_id db =
    require_pair vendor_id wallet_id db >>= λ pair.
    binding_for pair.0 pair.1 >>= λ bound. ok (deps.hedera_chain_id, bound.1)

abbrev pub attested_with : ℕ → Text → Text → Vendor → Vendor
attested_with now signature nonce vendor = record vendor {
  attestation_sig = some signature;
  attestation_data_hash = some nonce;
  attested_at = some now;
}

unfoldable pub submit_identity_binding :
    OnboardingDeps → ℕ → Text → Text → Text → Db → Result (WalletSummary × Db)
submit_identity_binding deps now vendor_id wallet_id signature db =
    require_pair vendor_id wallet_id db >>= λ pair.
    let (vendor, wallet) = pair in
    binding_for vendor wallet >>= λ bound.
    let (nonce, message) = bound in
    require
      (verify_identity_binding deps.platform deps.hedera_chain_id wallet.address signature message)
      unprocessable
    >> ok (
      to_wallet_summary deps.platform wallet,
      save_vendor (attested_with now signature nonce vendor) db,
    )
