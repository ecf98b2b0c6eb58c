-- ===== src/Identity/Verified.antt =====
-- apps/api/src/modules/identity/service.ts: what a completion has passed.
use securtxn.Prelude.{
  some-injective, true-not-false, ℕ, true, false, not, ◌≡◌, refl, sym, ap, ◌∙◌, Option, none, some,
  Text, text_eq, text_eq_iff, not_found, filled, Result, ok, Returns, Returns-bind, Returns-require,
  Returns-ok, if-Returns, present, unprocessable, conflict, not-true, arith, present-eq-ok,
}
use securtxn.Store.Rows.{Vendor, Db}
use securtxn.Store.Queries.{find, find-put, find_vendor, find_vendor-id, save_vendor}
use securtxn.Identity.{
  IdentityDeps, IdentityResult, IdentityCheckResults, all_checks_passed, holder_of, has_confirmed,
  release_from, without_identity, verified_with, complete,
}

-- What a completion has passed.
pub record Verified (vendor_id : Text) (fetched : Result IdentityResult) (db : Db)
    (out : Vendor × Db) : Type 0 where
  pub identity : IdentityResult
  pub given : fetched ≡ ok identity
  pub session :
      (v : Vendor) × (find_vendor vendor_id db ≡ ok v)
      × ((t : Text) × (filled v.digilocker_session_id ≡ some t))
  pub passed :
      ((identity.checks).xml_signature_verified ≡ true)
      × ((identity.checks).cross_doc_consistent ≡ true)
      × ((identity.checks).same_subject_linked ≡ true)
      × ((identity.checks).ttl_captured ≡ true)
  pub free :
      (v : Vendor)
      → holder_of identity.provider_user_id db ≡ some v
      → text_eq v.id vendor_id ≡ false
      → has_confirmed v.id db ≡ false
  pub written :
      (out.0.id ≡ vendor_id)
      × (out.0.digilocker_user_id ≡ some identity.provider_user_id)
      × (out.0.aadhaar_kyc_ttl ≡ identity.ttl)
  pub stored : find_vendor vendor_id out.1 ≡ ok out.0

pub all_checks_passed-parts :
    (c : IdentityCheckResults)
    → all_checks_passed c ≡ true
    → (c.xml_signature_verified ≡ true)
      × (c.cross_doc_consistent ≡ true)
      × (c.same_subject_linked ≡ true)
      × (c.ttl_captured ≡ true)
unfolding all_checks_passed
all_checks_passed-parts c h = ground arith

-- What becomes of the holders when an identity is released for `vendor_id`.
release_from-Free :
    (vendor_id : Text) (o : Option Vendor) (db : Db)
    → Returns
        (λ _.
          (v : Vendor)
          → o ≡ some v
          → text_eq v.id vendor_id ≡ false
          → has_confirmed v.id db ≡ false)
        (release_from vendor_id o db)
release_from-Free vendor_id none db = λ v h. cc
release_from-Free vendor_id (some w) db =
    if-Returns
      (λ _.
        (v : Vendor)
        → some w ≡ some v
        → text_eq v.id vendor_id ≡ false
        → has_confirmed v.id db ≡ false)
      (text_eq w.id vendor_id) (ok db) _
      (λ own v h other.
        absurd
          (true-not-false (sym own ∙ ap (λ u. text_eq u.id vendor_id) (some-injective h) ∙ other)))
      λ _.
        Returns-require
          (λ _.
            (v : Vendor)
            → some w ≡ some v
            → text_eq v.id vendor_id ≡ false
            → has_confirmed v.id db ≡ false)
          (not (has_confirmed w.id db)) conflict _
          λ free v h _. ap (λ u. has_confirmed u.id db) (sym (some-injective h)) ∙ not-true _ free

-- The vendor itself stays on file when the identity is released for it.
abbrev OnFile : Text → Db → Type 0
OnFile vendor_id db = (u : Vendor) × (find_vendor vendor_id db ≡ ok u)

save_vendor-OnFile :
    (vendor_id : Text) (w v : Vendor) (db : Db)
    → find_vendor vendor_id db ≡ ok v
    → text_eq w.id vendor_id ≡ false
    → OnFile vendor_id (save_vendor w db)
unfolding find_vendor save_vendor
save_vendor-OnFile vendor_id w v db found other =
    (v, rw (find-put (λ u. u.id) w vendor_id db.vendors, other) found)

save_vendor-found :
    (vendor_id : Text) (w : Vendor) (db : Db)
    → w.id ≡ vendor_id
    → OnFile vendor_id db
    → find_vendor vendor_id (save_vendor w db) ≡ ok w
unfolding find_vendor save_vendor
save_vendor-found vendor_id w db own (u, found) =
    let there = present-eq-ok (find (λ u. u.id) vendor_id db.vendors) not_found found in
    rw (find-put (λ u. u.id) w vendor_id db.vendors, (text_eq_iff w.id vendor_id).1 own, there) refl

release_from-Keeps :
    (vendor_id : Text) (o : Option Vendor) (v : Vendor) (db : Db)
    → find_vendor vendor_id db ≡ ok v
    → Returns (OnFile vendor_id) (release_from vendor_id o db)
release_from-Keeps vendor_id none v db found = (v, found)
release_from-Keeps vendor_id (some w) v db found =
    if-Returns (OnFile vendor_id) (text_eq w.id vendor_id) (ok db) _ (λ _. (v, found))
      λ other.
        Returns-require (OnFile vendor_id) (not (has_confirmed w.id db)) conflict _
          λ _. save_vendor-OnFile vendor_id (without_identity w) v db found other

-- A completion returns only for a vendor with a session whose documents passed all four checks, and
-- only if no other vendor with a confirmed wallet holds the identity; the vendor holds it in the
-- database after, with the documents' deadline.
pub complete-Verified :
    (deps : IdentityDeps) (now : ℕ) (blob_id vendor_id : Text) (fetched : Result IdentityResult)
    (db : Db)
    → Returns (Verified vendor_id fetched db) (complete deps now blob_id vendor_id fetched db)
unfolding complete verified_with
complete-Verified deps now blob_id vendor_id fetched db =
    Returns-bind _ (find_vendor vendor_id db) _ λ v found.
      Returns-bind _ (present (filled v.digilocker_session_id) unprocessable) _ λ t session.
        Returns-bind _ fetched _ λ i given.
          Returns-require _ (all_checks_passed i.checks) unprocessable _ λ passed.
            Returns-bind _ (release_from vendor_id (holder_of i.provider_user_id db) db) _
              λ released h.
                let updated = verified_with deps now blob_id i v in
                let verified : Verified vendor_id fetched db
                    (updated, save_vendor updated released) =
                  record {
                    identity = i;
                    given = given;
                    session = (v, found, (t, present-eq-ok _ unprocessable session));
                    passed = all_checks_passed-parts i.checks passed;
                    free =
                        Returns-ok _ _ released
                          (release_from-Free vendor_id (holder_of i.provider_user_id db) db) h;
                    written = (find_vendor-id vendor_id db v found, refl, refl);
                    stored =
                        save_vendor-found vendor_id updated released
                          (find_vendor-id vendor_id db v found)
                          (Returns-ok _ _ released
                            (release_from-Keeps vendor_id (holder_of i.provider_user_id db) v db
                              found)
                            h);
                  } in
                verified
