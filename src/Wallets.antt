-- ===== src/Wallets.antt =====
-- apps/api/src/modules/wallets/service.ts: the registration of a payout address, and the shapes that
-- the wallet operations share. The proofs, the confirmation and the grant are in child modules.
pub mod Guard
pub mod Credential
pub mod Proofs
pub mod Confirm
pub mod Grant
pub mod Dialled
pub mod Gates
pub mod Versions
pub mod Granted
pub mod GrantOnce
use securtxn.Prelude.{
  ℕ, ◌+◌, Bool, not, ◌&&◌, ◌==◌, Option, none, some, List, [], ◌∷◌, ◌++◌, Text, codes, text_eq,
  filled, or_else, any, filter, map, Result, ok, require, present, ◌>>=◌, ◌>>◌, unprocessable,
  not_found, unique_violation,
}
use mathlib.Core.Option
use securtxn.Types.{WalletStatus}
use securtxn.Platform.{Platform}
use securtxn.Store.Rows.{Vendor, VendorWallet, Db}
use securtxn.Store.Queries.{find_vendor, find_wallet, newest, sorted_by}

pub record RegisterWalletRequest : Type 0 where
  pub address : Text
  pub network : Text
  pub token_contract : Option Text

pub record RegisterWalletResponse : Type 0 where
  pub wallet_id : Text
  pub version : ℕ
  pub status : WalletStatus
  pub challenge_message : Text
  pub control_proof_nonce : Text

pub record WalletSummary : Type 0 where
  pub id : Text
  pub address : Text
  pub network : Text
  pub token_contract : Option Text
  pub version : ℕ
  pub status : WalletStatus
  pub confirmed_at : Option Text
  pub superseded_by_id : Option Text

pub record CallbackConfirmRequest : Type 0 where
  pub confirmed_by : Text
  pub channel_used : Text

unfoldable pub to_wallet_summary : Platform → VendorWallet → WalletSummary
to_wallet_summary pf w = record {
  id = w.id;
  address = w.address;
  network = w.network;
  token_contract = w.token_contract;
  version = w.version;
  status = w.status;
  confirmed_at = Option.map pf.to_iso_string w.confirmed_at;
  superseded_by_id = w.superseded_by_id;
}

unfoldable pub describe_challenge : Vendor → VendorWallet → Text
describe_challenge v w =
    codes "Sign this EIP-712 WalletControlProof to prove you hold the key for "
    ++ w.address
    ++ codes " on "
    ++ w.network
    ++ codes ". vendorId="
    ++ v.id
    ++ codes " nonce="
    ++ or_else w.control_proof_nonce []

-- The wallet of another vendor reads as not found.
unfoldable pub require_pair : Text → Text → Db → Result (Vendor × VendorWallet)
require_pair vendor_id wallet_id db = find_vendor vendor_id db >>= λ vendor.
    find_wallet wallet_id db >>= λ wallet.
    require (text_eq wallet.vendor_id vendor_id) not_found >> ok (vendor, wallet)

abbrev pub of_vendor : Text → Db → List VendorWallet
of_vendor vendor_id db = filter (λ w. text_eq w.vendor_id vendor_id) db.vendor_wallets

abbrev version_of : Option VendorWallet → ℕ
version_of none = 0
version_of (some w) = w.version

-- `(latest?.version ?? 0) + 1`
unfoldable pub next_version : Text → Db → ℕ
next_version vendor_id db = version_of (newest (λ w. w.version) (of_vendor vendor_id db)) + 1

abbrev pub new_wallet : ℕ → Text → Vendor → RegisterWalletRequest → Text → ℕ → VendorWallet
new_wallet now new_id vendor i nonce version = record {
  id = new_id;
  vendor_id = vendor.id;
  address = i.address;
  network = i.network;
  token_contract = filled i.token_contract;
  version = version;
  status = WalletStatus.pending_verification;
  confirmed_at = none;
  superseded_by_id = none;
  control_proof_sig = none;
  control_proof_nonce = some nonce;
  callback_confirmed_at = none;
  callback_channel_used = none;
  callback_confirmed_by = none;
  created_at = now;
}

abbrev pub same_version : VendorWallet → VendorWallet → Bool
same_version w v = text_eq v.vendor_id w.vendor_id && v.version == w.version

-- `vendorWallet.create`, with the constraint that a vendor has one wallet of each version.
unfoldable pub create_wallet : VendorWallet → Db → Result Db
create_wallet w db =
    require (not (any (same_version w) db.vendor_wallets)) unique_violation
    >> ok (record db { vendor_wallets = db.vendor_wallets ++ w ∷ [] })

unfoldable pub register :
    ℕ → Text → Text → RegisterWalletRequest → Db → Result (RegisterWalletResponse × Db)
register now new_id vendor_id i db = find_vendor vendor_id db >>= λ vendor.
    present (filled vendor.onboarding_session_nonce) unprocessable >>= λ nonce.
    let wallet = new_wallet now new_id vendor i nonce (next_version vendor.id db) in
    create_wallet wallet db >>= λ after. ok (
      record {
        wallet_id = wallet.id;
        version = wallet.version;
        status = wallet.status;
        challenge_message = describe_challenge vendor wallet;
        control_proof_nonce = nonce;
      },
      after,
    )

unfoldable pub list_wallets : Platform → Text → Db → Result (List WalletSummary)
list_wallets pf vendor_id db = find_vendor vendor_id db >>= λ vendor.
    ok (map (to_wallet_summary pf) (sorted_by (λ w. w.version) (of_vendor vendor_id db)))
