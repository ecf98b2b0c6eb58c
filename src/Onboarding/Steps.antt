-- ===== src/Onboarding/Steps.antt =====
-- apps/api/src/modules/vendors, identity and wallets: every onboarding operation as a step of the
-- database, and the databases that they reach from one without onboarding rows. Ids, nonces, times
-- and what the aggregator, the chain and the signers answer are arbitrary at each step.
use mathlib.Core.List.{Memᴰ}
use securtxn.Prelude.{
  both, ℕ, true, ◌&&◌, ◌≡◌, refl, Option, none, some, List, [], ◌∷◌, Text, text_eq, text_eq_iff,
  lower, is_some, is_some-some, filter, All, All-map, All-filter, Result, ok, Returns-ok,
}
use securtxn.Types.{KybStatus, is_confirmed}
use securtxn.Deps.{OnboardingDeps}
use securtxn.Store.Rows.{Vendor, VendorWallet, Db}
use securtxn.Store.Queries.{newest, newest-holds}
use securtxn.Vendors.{
  CreateVendorRequest, create_vendor, update_kyb_status, at_address, on_network, identity_registry,
}
use securtxn.Identity.{IdentityDeps, IdentityResult, complete, Session, start_session}
use securtxn.Wallets.{
  RegisterWalletRequest, RegisterWalletResponse, register, WalletSummary, CallbackConfirmRequest,
}
use securtxn.Wallets.Proofs.{submit_control_proof, submit_identity_binding}
use securtxn.Wallets.Confirm.{confirm_callback}
use securtxn.Wallets.Grant.{GrantGateway, GrantResponse, grant_on_chain_kyc}
use securtxn.Onboarding.{Controlled, WalletGood, Good}
use securtxn.Onboarding.Keeps.{
  create_vendor-Good, update_kyb_status-Good, start_session-Good, complete-Good,
}
use securtxn.Onboarding.Proves.{
  register-Good, submit_control_proof-Good, submit_identity_binding-Good,
}
use securtxn.Onboarding.Confirms.{confirm_callback-Good, grant_on_chain_kyc-Good}

pub data Step (deps : OnboardingDeps) : Db → Db → Type 0 where
  vendor_created :
      {db : Db} (now : ℕ) (new_id nonce : Text) (i : CreateVendorRequest)
      → Step deps db (create_vendor deps.platform now new_id nonce i db).1
  kyb_updated :
      {db db' : Db} {v : Vendor} (vendor_id : Text) (status : KybStatus)
      → update_kyb_status vendor_id status db ≡ ok (v, db')
      → Step deps db db'
  session_started :
      {db db' : Db} {s : Session × Text} (fresh vendor_id : Text) (answer : Result Session)
      → start_session fresh vendor_id answer db ≡ ok (s, db')
      → Step deps db db'
  completed :
      {db db' : Db} {v : Vendor} (ids : IdentityDeps) (now : ℕ) (blob_id vendor_id : Text)
      (fetched : Result IdentityResult)
      → complete ids now blob_id vendor_id fetched db ≡ ok (v, db')
      → Step deps db db'
  registered :
      {db db' : Db} {r : RegisterWalletResponse} (now : ℕ) (new_id vendor_id : Text)
      (i : RegisterWalletRequest)
      → register now new_id vendor_id i db ≡ ok (r, db')
      → Step deps db db'
  controlled :
      {db db' : Db} {s : WalletSummary} (vendor_id wallet_id signature : Text)
      → submit_control_proof deps vendor_id wallet_id signature db ≡ ok (s, db')
      → Step deps db db'
  bound :
      {db db' : Db} {s : WalletSummary} (now : ℕ) (vendor_id wallet_id signature : Text)
      → submit_identity_binding deps now vendor_id wallet_id signature db ≡ ok (s, db')
      → Step deps db db'
  called_back :
      {db : Db} (now : ℕ) (credential_id vendor_id wallet_id : Text) (i : CallbackConfirmRequest)
      → Step deps db (confirm_callback deps now credential_id vendor_id wallet_id i db).db
  granted :
      {db db' : Db} {r : GrantResponse} (gateway : GrantGateway) (now : ℕ)
      (vendor_id wallet_id : Text)
      → (grant_on_chain_kyc deps gateway now vendor_id wallet_id db).result ≡ ok (r, db')
      → Step deps db db'
  elsewhere :
      {db db' : Db}
      → db'.vendors ≡ db.vendors
      → db'.vendor_wallets ≡ db.vendor_wallets
      → db'.verifiable_credentials ≡ db.verifiable_credentials
      → Step deps db db'

pub data Reached (deps : OnboardingDeps) : Db → Type 0 where
  at_first :
      {db : Db}
      → db.vendors ≡ []
      → db.vendor_wallets ≡ []
      → db.verifiable_credentials ≡ []
      → Reached deps db
  then_by : {db db' : Db} → Reached deps db → Step deps db db' → Reached deps db'

Step-Good : (deps : OnboardingDeps) (db db' : Db) → Step deps db db' → Good deps db → Good deps db'
Step-Good deps db db' (vendor_created now new_id nonce i) g =
    create_vendor-Good deps deps.platform now new_id nonce i db g
Step-Good deps db db' (kyb_updated vendor_id status h) g =
    Returns-ok (λ r. Good deps r.1) _ _ (update_kyb_status-Good deps vendor_id status db g) h
Step-Good deps db db' (session_started fresh vendor_id answer h) g =
    Returns-ok (λ r. Good deps r.1) _ _ (start_session-Good deps fresh vendor_id answer db g) h
Step-Good deps db db' (completed ids now blob_id vendor_id fetched h) g =
    Returns-ok (λ r. Good deps r.1) _ _ (complete-Good deps ids now blob_id vendor_id fetched db g)
      h
Step-Good deps db db' (registered now new_id vendor_id i h) g =
    Returns-ok (λ r. Good deps r.1) _ _ (register-Good deps now new_id vendor_id i db g) h
Step-Good deps db db' (controlled vendor_id wallet_id signature h) g =
    Returns-ok (λ r. Good deps r.1) _ _
      (submit_control_proof-Good deps vendor_id wallet_id signature db g) h
Step-Good deps db db' (bound now vendor_id wallet_id signature h) g =
    Returns-ok (λ r. Good deps r.1) _ _
      (submit_identity_binding-Good deps now vendor_id wallet_id signature db g) h
Step-Good deps db db' (called_back now id vendor_id wallet_id i) g =
    confirm_callback-Good deps now id vendor_id wallet_id i db g
Step-Good deps db db' (granted gateway now vendor_id wallet_id h) g =
    Returns-ok (λ r. Good deps r.1) _ _
      (grant_on_chain_kyc-Good deps gateway now vendor_id wallet_id db g) h
Step-Good deps db db' (elsewhere v w c) g = record {
  vendors = rw v g.vendors;
  wallets = rw w g.wallets;
  credentials = rw c g.credentials;
}

pub Reached-Good : (deps : OnboardingDeps) (db : Db) → Reached deps db → Good deps db
Reached-Good deps db (at_first v w c) = record {
  vendors = rw v tt;
  wallets = rw w tt;
  credentials = rw c tt;
}
Reached-Good deps db (then_by {db = before} r s) =
    Step-Good deps before db s (Reached-Good deps before r)

-- In every reached database each confirmed wallet carries a control proof that recovers to its
-- address, over its vendor, network and nonce, and the time and the channel of its callback.
pub Reached-confirmed :
    (deps : OnboardingDeps) (db : Db)
    → Reached deps db
    → All
        (λ w.
          is_confirmed w.status ≡ true
          → ((s : Text) × (w.control_proof_sig ≡ some s) × Controlled deps w s)
            × (is_some w.callback_confirmed_at ≡ true)
            × (is_some w.callback_channel_used ≡ true))
        db.vendor_wallets
Reached-confirmed deps db r =
    All-map (WalletGood deps) _ db.vendor_wallets
      (λ w g c.
        let (sig, at, channel) = g.confirmed c in
        let (s, h) = is_some-some w.control_proof_sig sig in ((s, h, g.control s h), at, channel))
      (Reached-Good deps db r).wallets

-- Every row of a table is a row of it.
later-All :
    {A : Type 0} (x : A) (xs ys : List A) → All (λ y. Memᴰ y xs) ys → All (λ y. Memᴰ y (x ∷ xs)) ys
later-All x xs [] h = tt
later-All x xs (y ∷ ys) h = (Memᴰ.tail h.0, later-All x xs ys h.1)

self-All : {A : Type 0} (xs : List A) → All (λ y. Memᴰ y xs) xs
self-All [] = tt
self-All (x ∷ xs) = (Memᴰ.head refl, later-All x xs xs (self-All xs))

both-All :
    {A : Type 0} (P Q : A → Type 0) (xs : List A) → All P xs → All Q xs → All (λ x. P x × Q x) xs
both-All P Q [] h k = tt
both-All P Q (x ∷ xs) h k = ((h.0, k.0), both-All P Q xs h.1 k.1)

-- A query may name a network.
abbrev pub OnNetwork : Option Text → VendorWallet → Type 0
OnNetwork none w = Unit {0}
OnNetwork (some network) w = w.network ≡ network

on_network-OnNetwork :
    (network : Option Text) (w : VendorWallet) → on_network network w ≡ true → OnNetwork network w
on_network-OnNetwork none w h = tt
on_network-OnNetwork (some n) w h = (text_eq_iff w.network n).0 h

-- Where the registry answers yes in a reached database, some wallet on file at the address, and on
-- the network where one is asked for, is confirmed and the named vendor's, and a control proof for
-- it recovers to that wallet's address.
pub identity_registry-Proven :
    (deps : OnboardingDeps) (db : Db) (address : Text) (network : Option Text)
    → Reached deps db
    → (identity_registry address network db).verified ≡ true
    → (w : VendorWallet) × Memᴰ w db.vendor_wallets
      × ((identity_registry address network db).vendor_id ≡ some w.vendor_id)
      × (lower w.address ≡ lower address)
      × OnNetwork network w
      × (is_confirmed w.status ≡ true)
      × ((s : Text) × (w.control_proof_sig ≡ some s) × Controlled deps w s)
unfolding identity_registry
identity_registry-Proven deps db address network r h =
    let test = λ (w : VendorWallet). at_address address network w && is_confirmed w.status in
    let (w, found) = is_some-some (newest (λ w. w.version) (filter test db.vendor_wallets)) h in
    let OnFile = λ (v : VendorWallet). Memᴰ v db.vendor_wallets in
    let Known = λ (v : VendorWallet). WalletGood deps v × OnFile v in
    let ((g, there), t) =
      newest-holds (λ v. Known v × (test v ≡ true)) (λ v. v.version) (filter test db.vendor_wallets)
        w
        (All-filter Known test db.vendor_wallets (
          both-All (WalletGood deps) OnFile db.vendor_wallets (Reached-Good deps db r).wallets
            (self-All db.vendor_wallets)))
        found in
    let (at, confirmed) = both (at_address address network w) (is_confirmed w.status) t in
    let (same, network_same) = both (text_eq (lower w.address) (lower address)) _ at in
    let (s, sig) = is_some-some w.control_proof_sig (g.confirmed confirmed).0 in
    (
      w,
      there,
      rw found refl,
      (text_eq_iff (lower w.address) (lower address)).0 same,
      on_network-OnNetwork network w network_same,
      confirmed,
      (s, sig, g.control s sig),
    )
