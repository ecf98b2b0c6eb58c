-- ===== src/Wallets/Gates.antt =====
-- apps/api/src/modules/wallets/service.ts and callback-guard.ts: what a confirmation has passed.
use securtxn.Prelude.{
  ℕ, Bool, true, false, not, ◌&&◌, ◌≡◌, refl, sym, ◌⊎◌, inl, inr, Option, none, some, List, [], ◌∷◌,
  Text, text_eq, text_eq_iff, filled, is_some, All, All-append, Result, ok, err, Error, Returns,
  Returns-bind, Returns-require, not-true, unprocessable, conflict,
}
use securtxn.Types.{is_confirmed, is_revoked}
use securtxn.Deps.{OnboardingDeps}
use securtxn.Store.Rows.{Vendor, VendorWallet, Db}
use securtxn.Store.Queries.{first, first-All, first-test}
use securtxn.Wallets.{require_pair, CallbackConfirmRequest}
use securtxn.Wallets.Guard.{
  ContactSource, registry_lookup, digilocker_verified_mobile, IndependentContact, contact_of,
  provided, canonical, too_recent, judge, refuse_recent, check_among, independent_contacts_for,
  CallbackCheck, allowed, refused, check_callback_channel,
}
use securtxn.Wallets.Dialled.{Alike, canonical-Alike, InTime, mobile-InTime}
use securtxn.Wallets.Confirm.{decrypt_phone, admit, admit_callback, confirm_found, confirm_callback}

-- The business registry gave the contact, or it is the mobile that the identity flow verified.
abbrev pub Recorded : Vendor → Option Text → IndependentContact → Type 0
Recorded v phone c =
    ((c.source ≡ registry_lookup) × (filled v.registry_verified_contact ≡ some c.value))
    ⊎ ((c.source ≡ digilocker_verified_mobile)
        × (filled phone ≡ some c.value)
        × (is_some v.verified_phone_at ≡ true))

pub record Independent (v : Vendor) (w : VendorWallet) (channel : Text) (phone : Option Text)
    (c : IndependentContact) : Type 0 where
  pub recorded : Recorded v phone c
  pub dialled : Alike c.value channel
  pub in_time : InTime c.source v w

contact_of-All :
    (P : IndependentContact → Type 0) (source : ContactSource) (o : Option Text)
    → ((t : Text) → o ≡ some t → P (record { value = t; source = source }))
    → All P (contact_of source o)
contact_of-All P source none k = tt
contact_of-All P source (some t) k = (k t refl, tt)

provided-some :
    (o : Option Text) (at : Option ℕ) (t : Text)
    → provided o at ≡ some t
    → (o ≡ some t) × (is_some at ≡ true)
provided-some o none t h = cc
provided-some o (some s) t h = (h, refl)

independent_contacts_for-Recorded :
    (v : Vendor) (phone : Option Text) → All (Recorded v phone) (independent_contacts_for v phone)
unfolding independent_contacts_for
independent_contacts_for-Recorded v phone =
    All-append _ (contact_of registry_lookup (filled v.registry_verified_contact)) _
      (contact_of-All _ registry_lookup _ λ t h. inl (refl, h))
      (contact_of-All _ digilocker_verified_mobile _ λ t h.
        let (p, q) = provided-some (filled phone) v.verified_phone_at t h in inr (refl, p, q))

allowed-in_time :
    (b : Bool) (c d : IndependentContact) → refuse_recent b c ≡ allowed d → (b ≡ false) × (c ≡ d)
allowed-in_time true c d h = cc
allowed-in_time false c d h = (refl, cc)

judge-some :
    (v : Vendor) (w : VendorWallet) (o : Option IndependentContact) (c : IndependentContact)
    → judge v w o ≡ allowed c
    → (d : IndependentContact) × (o ≡ some d)
      × (refuse_recent (too_recent d.source v w) d ≡ allowed c)
judge-some v w none c h = cc
judge-some v w (some d) c h = (d, refl, h)

Recorded-InTime :
    (v : Vendor) (w : VendorWallet) (phone : Option Text) (c : IndependentContact)
    → Recorded v phone c
    → too_recent c.source v w ≡ false
    → InTime c.source v w
Recorded-InTime v w phone c r late = elim r [
  | inl (source, _) ↦ rw source tt
  | inr (source, _, at) ↦
      rw source (mobile-InTime v.verified_phone_at w.created_at at (rw source at late))
]

check_among-Independent :
    (v : Vendor) (w : VendorWallet) (channel : Text) (phone : Option Text)
    (cs : List IndependentContact) (c : IndependentContact)
    → All (Recorded v phone) cs
    → check_among v w channel cs ≡ allowed c
    → Independent v w channel phone c
check_among-Independent v w channel phone [] c a h = cc
check_among-Independent v w channel phone (x ∷ xs) c a h =
    let test = λ (d : IndependentContact). text_eq (canonical d.value) (canonical channel) in
    let (d, found, k) = judge-some v w (first test (x ∷ xs)) c h in
    let (late, e) = allowed-in_time (too_recent d.source v w) d c k in
    let on_file = first-All _ test (x ∷ xs) d a found in
    rw (sym e) (record {
      recorded = on_file;
      dialled = canonical-Alike d.value channel (
          (text_eq_iff (canonical d.value) (canonical channel)).0
            (first-test test (x ∷ xs) d found));
      in_time = Recorded-InTime v w phone d on_file late;
    })

-- A channel is allowed only where it is, up to white space, parentheses, dashes and dots, the contact
-- of the business registry, or the mobile that the identity flow verified, at a time no later than
-- that at which the wallet was submitted.
pub check_callback_channel-Independent :
    (v : Vendor) (w : VendorWallet) (channel : Text) (phone : Option Text) (c : IndependentContact)
    → check_callback_channel v w channel phone ≡ allowed c
    → Independent v w channel phone c
unfolding check_callback_channel
check_callback_channel-Independent v w channel phone c h =
    check_among-Independent v w channel phone (independent_contacts_for v phone) c
      (independent_contacts_for-Recorded v phone) h

admit-ok : (r : CallbackCheck) (c : IndependentContact) → admit r ≡ ok c → r ≡ allowed c
admit-ok (allowed d) c h = cc
admit-ok (refused d) c h = cc

-- What `confirmCallback` has checked when it writes.
pub record Gates (deps : OnboardingDeps) (vendor_id wallet_id : Text) (i : CallbackConfirmRequest)
    (db : Db) (v : Vendor) (w : VendorWallet) : Type 0 where
  pub own : require_pair vendor_id wallet_id db ≡ ok (v, w)
  pub unconfirmed : is_confirmed w.status ≡ false
  pub unrevoked : is_revoked w.status ≡ false
  pub controlled : is_some (filled w.control_proof_sig) ≡ true
  pub bound : is_some (filled v.attestation_sig) ≡ true
  pub verified : v.xml_signature_verified && v.cross_doc_consistent ≡ true
  pub reached : (c : IndependentContact) × Independent v w i.channel_used (decrypt_phone deps v) c

pub admit_callback-Gates :
    (deps : OnboardingDeps) (vendor_id wallet_id : Text) (i : CallbackConfirmRequest) (db : Db)
    → Returns
        (λ r. Gates deps vendor_id wallet_id i db r.0 r.1)
        (admit_callback deps vendor_id wallet_id i db)
unfolding admit_callback
admit_callback-Gates deps vendor_id wallet_id i db =
    Returns-bind _ (require_pair vendor_id wallet_id db) _ λ (v, w) own.
      Returns-require _ (not (is_confirmed w.status)) conflict _ λ a.
        Returns-require _ (not (is_revoked w.status)) conflict _ λ b.
          Returns-require _ (is_some (filled w.control_proof_sig)) unprocessable _ λ c.
            Returns-require _ (is_some (filled v.attestation_sig)) unprocessable _ λ d.
              Returns-require _ (v.xml_signature_verified && v.cross_doc_consistent) unprocessable _
                λ e.
                  Returns-bind
                    (λ (r : Vendor × VendorWallet × IndependentContact).
                      Gates deps vendor_id wallet_id i db r.0 r.1)
                    (admit (check_callback_channel v w i.channel_used (decrypt_phone deps v))) _
                    λ contact f.
                      let gates : Gates deps vendor_id wallet_id i db v w = record {
                        own = own;
                        unconfirmed = not-true _ a;
                        unrevoked = not-true _ b;
                        controlled = c;
                        bound = d;
                        verified = e;
                        reached = (
                          contact,
                          check_callback_channel-Independent v w i.channel_used
                              (decrypt_phone deps v) contact (admit-ok _ contact f),
                        );
                      } in
                      gates

confirm_found-Gates :
    (deps : OnboardingDeps) (now : ℕ) (credential_id vendor_id wallet_id : Text)
    (i : CallbackConfirmRequest) (db : Db) (r : Result (Vendor × VendorWallet × IndependentContact))
    → Returns (λ r. Gates deps vendor_id wallet_id i db r.0 r.1) r
    → ((confirm_found deps now credential_id i db r).db ≡ db)
        × ((e : Error) × ((confirm_found deps now credential_id i db r).result ≡ err e))
      ⊎ ((v : Vendor) × (w : VendorWallet) × Gates deps vendor_id wallet_id i db v w)
confirm_found-Gates deps now credential_id vendor_id wallet_id i db (err e) g =
    inl (refl, (e, refl))
confirm_found-Gates deps now credential_id vendor_id wallet_id i db (ok (v, w, c)) g = inr (v, w, g)

-- A confirmation that changes the database or returns has passed every gate: the wallet is the
-- vendor's and waits, its control proof and the vendor's attestation are on file, the identity is
-- verified and consistent, and the channel is an independent contact. Any other call is an error
-- that leaves the database as it is.
pub confirm_callback-Gates :
    (deps : OnboardingDeps) (now : ℕ) (credential_id vendor_id wallet_id : Text)
    (i : CallbackConfirmRequest) (db : Db)
    → ((confirm_callback deps now credential_id vendor_id wallet_id i db).db ≡ db)
        × ((e : Error) × ((confirm_callback deps now credential_id vendor_id wallet_id i db).result
              ≡ err e))
      ⊎ ((v : Vendor) × (w : VendorWallet) × Gates deps vendor_id wallet_id i db v w)
unfolding confirm_callback
confirm_callback-Gates deps now credential_id vendor_id wallet_id i db =
    confirm_found-Gates deps now credential_id vendor_id wallet_id i db
      (admit_callback deps vendor_id wallet_id i db)
      (admit_callback-Gates deps vendor_id wallet_id i db)
