-- ===== src/Wallets/Versions.antt =====
-- apps/api/src/modules/wallets/service.ts: the versions of a vendor's wallets.
use securtxn.Prelude.{
  ℕ, ◌+◌, ◌≤◌, ◌<◌, true, false, ◌≡◌, refl, sym, none, some, List, [], ◌∷◌, ◌++◌, Text, text_eq,
  filled, any, filter, All, ok, arith,
}
use securtxn.Types.{WalletStatus}
use securtxn.Store.Rows.{Vendor, VendorWallet, Db}
use securtxn.Store.Queries.{find_vendor, find_vendor-id, newest-All}
use securtxn.Wallets.{
  of_vendor, next_version, describe_challenge, same_version, new_wallet, create_wallet, register,
  RegisterWalletRequest, RegisterWalletResponse,
}

-- Every wallet of the vendor has a smaller version.
abbrev pub Below : Text → ℕ → List VendorWallet → Type 0
Below vendor_id n ws = All (λ w. text_eq w.vendor_id vendor_id ≡ true → w.version < n) ws

of_vendor-Below :
    (vendor_id : Text) (n : ℕ) (ws : List VendorWallet)
    → All (λ w. w.version ≤ n) (filter (λ w. text_eq w.vendor_id vendor_id) ws)
    → Below vendor_id (n + 1) ws
of_vendor-Below vendor_id n [] h = tt
of_vendor-Below vendor_id n (w ∷ ws) h = ground (arith, of_vendor-Below vendor_id n ws)

-- The next version is above every version that the vendor has.
pub next_version-Below :
    (vendor_id : Text) (db : Db) → Below vendor_id (next_version vendor_id db) db.vendor_wallets
unfolding next_version
next_version-Below vendor_id db =
    of_vendor-Below vendor_id _ db.vendor_wallets
      (newest-All (λ w. w.version) (of_vendor vendor_id db) _ (omega arith))

Below-fresh :
    (w : VendorWallet) (ws : List VendorWallet)
    → Below w.vendor_id w.version ws
    → any (same_version w) ws ≡ false
Below-fresh w [] h = refl
Below-fresh w (v ∷ ws) h = ground (arith, Below-fresh w ws h.1, h.0)

-- What a registration returns and leaves.
pub record Registered (i : RegisterWalletRequest) (vendor_id : Text) (db : Db)
    (r : RegisterWalletResponse) (after : Db) : Type 0 where
  pub newest_version : Below vendor_id r.version db.vendor_wallets
  pub appended :
      (w : VendorWallet) × (after ≡ record db { vendor_wallets = db.vendor_wallets ++ w ∷ [] })
      × (w.vendor_id ≡ vendor_id)
      × (w.version ≡ r.version)
      × (w.address ≡ i.address)
      × (w.status ≡ WalletStatus.pending_verification)
      × (w.control_proof_sig ≡ none)

-- For a vendor with an onboarding nonce a registration is never refused, its version is above every
-- version that the vendor has, and it appends one wallet, which waits and has no proof.
pub register-Registered :
    (now : ℕ) (new_id vendor_id : Text) (i : RegisterWalletRequest) (db : Db) (v : Vendor)
    (nonce : Text)
    → find_vendor vendor_id db ≡ ok v
    → filled v.onboarding_session_nonce ≡ some nonce
    → (r : RegisterWalletResponse) × (after : Db) × (register now new_id vendor_id i db
        ≡ ok (r, after))
      × Registered i vendor_id db r after
unfolding register create_wallet
register-Registered now new_id vendor_id i db v nonce found issued =
    let same = find_vendor-id vendor_id db v found in
    let w = new_wallet now new_id v i nonce (next_version v.id db) in
    let fresh = Below-fresh w db.vendor_wallets (next_version-Below v.id db) in
    let response : RegisterWalletResponse = record {
      wallet_id = w.id;
      version = w.version;
      status = w.status;
      challenge_message = describe_challenge v w;
      control_proof_nonce = nonce;
    } in
    let after : Db = record db { vendor_wallets = db.vendor_wallets ++ w ∷ [] } in
    (
      response,
      after,
      rw (found, issued, fresh) refl,
      record {
        newest_version = rw (sym same) (next_version-Below v.id db);
        appended = (w, refl, same, refl, refl, refl, refl);
      },
    )
