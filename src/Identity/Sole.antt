-- ===== src/Identity/Sole.antt =====
-- apps/api/src/modules/identity/service.ts: one identity, one vendor.
use securtxn.Prelude.{
  some-injective, none-not-some, true-not-false, ℕ, true, not, ◌≡◌, refl, sym, ap, ◌∙◌, inl, inr,
  Option, none, some, List, Text, text_eq, text_eq_iff, text_eq_refl, filled, All, Result, ok,
  Returns, Returns-bind, Returns-require, Returns-ok, if-Returns, All-map, present, unprocessable,
  conflict, Bool-cases,
}
use securtxn.Store.Rows.{Vendor, Db}
use securtxn.Store.Queries.{
  first-All, first-none, first-test, put-others, find_vendor, find_vendor-id, save_vendor,
}
use securtxn.Identity.{
  IdentityDeps, IdentityResult, all_checks_passed, agrees, holds, holder_of, has_confirmed,
  without_identity, release_from, verified_with, complete,
}

-- Every vendor that holds the DigiLocker account is the one of this id.
abbrev pub HeldBy : Text → Text → List Vendor → Type 0
HeldBy user id vs = All (λ v. v.digilocker_user_id ≡ some user → v.id ≡ id) vs

-- At most one vendor holds each DigiLocker account.
abbrev pub Sole : Db → Type 0
Sole db = (user : Text) → (id : Text) × HeldBy user id db.vendors

agrees-some : (o : Option Text) (t : Text) → agrees o t ≡ true → o ≡ some t
agrees-some none t h = cc
agrees-some (some s) t h = ap (λ r. some r) ((text_eq_iff s t).0 h)

holds-some : (user : Text) (v : Vendor) → holds user v ≡ true → v.digilocker_user_id ≡ some user
holds-some user v h = agrees-some v.digilocker_user_id user h

some-holds : (user : Text) (v : Vendor) → v.digilocker_user_id ≡ some user → holds user v ≡ true
some-holds user v h = rw h (text_eq_refl user)

-- A row that holds nothing takes the place of another.
save_vendor-empty :
    (user id : Text) (w : Vendor) (db : Db)
    → HeldBy user id db.vendors
    → HeldBy user id (save_vendor (without_identity w) db).vendors
unfolding save_vendor
save_vendor-empty user id w db h =
    put-others _ (λ v. v.id) (without_identity w) db.vendors (All-map _ _ db.vendors (λ v k _. k) h)
      λ e. absurd (none-not-some e)

-- Where `w` is the only one that holds the account, nobody does once it is released.
save_vendor-released :
    (user vendor_id : Text) (w : Vendor) (db : Db)
    → HeldBy user w.id db.vendors
    → HeldBy user vendor_id (save_vendor (without_identity w) db).vendors
unfolding save_vendor
save_vendor-released user vendor_id w db h =
    put-others _ (λ v. v.id) (without_identity w) db.vendors
      (All-map _ _ db.vendors
        (λ v k other e. absurd (true-not-false (sym ((text_eq_iff v.id w.id).1 (k e)) ∙ other))) h)
      λ e. absurd (none-not-some e)

abbrev Freed : Text → Text → Db → Type 0
Freed user vendor_id after = Sole after × HeldBy user vendor_id after.vendors

holder_of-id :
    (user : Text) (w : Vendor) (db : Db)
    → holder_of user db ≡ some w
    → Sole db
    → HeldBy user w.id db.vendors
unfolding holder_of
holder_of-id user w db h sole =
    let (k, held) = sole user in
    let same =
      first-All (λ v. v.digilocker_user_id ≡ some user → v.id ≡ k) (holds user) db.vendors w held h
        (holds-some user w (first-test (holds user) db.vendors w h)) in
    rw same held

release_from-Freed :
    (user vendor_id : Text) (o : Option Vendor) (db : Db)
    → holder_of user db ≡ o
    → Sole db
    → Returns (Freed user vendor_id) (release_from vendor_id o db)
unfolding holder_of
release_from-Freed user vendor_id none db h sole = (
  sole,
  All-map _ _ db.vendors (λ v n e. absurd (true-not-false (sym (some-holds user v e) ∙ n)))
      (first-none (holds user) db.vendors h),
)
release_from-Freed user vendor_id (some w) db h sole =
    let held = holder_of-id user w db h sole in
    if-Returns (Freed user vendor_id) (text_eq w.id vendor_id) (ok db) _
      (λ own. (sole, rw (sym ((text_eq_iff w.id vendor_id).0 own)) held))
      λ _. Returns-require (Freed user vendor_id) (not (has_confirmed w.id db)) conflict _ λ _. (
        λ other. let (k, hk) = sole other in (k, save_vendor-empty other k w db hk),
        save_vendor-released user vendor_id w db held,
      )

-- The vendor that holds the account now takes the place of its row.
save_vendor-Sole :
    (user : Text) (v : Vendor) (db : Db)
    → v.digilocker_user_id ≡ some user
    → Freed user v.id db
    → Sole (save_vendor v db)
unfolding save_vendor
save_vendor-Sole user v db holding (sole, held) other = elim (Bool-cases (text_eq user other)) [
  | inl e ↦ (
    v.id,
    put-others _ (λ u. u.id) v db.vendors
        (All-map _ _ db.vendors (λ u k _. rw (sym ((text_eq_iff user other).0 e)) k) held)
        λ _. refl,
  )
  | inr n ↦
      let (k, hk) = sole other in
      (
        k,
        put-others _ (λ u. u.id) v db.vendors (All-map _ _ db.vendors (λ u p _. p) hk)
            λ e. absurd (
              true-not-false
                (sym ((text_eq_iff user other).1 (some-injective (sym holding ∙ e))) ∙ n)),
      )
]

-- Where at most one vendor holds each DigiLocker account, the same is true after a completion.
pub complete-Sole :
    (deps : IdentityDeps) (now : ℕ) (blob_id vendor_id : Text) (fetched : Result IdentityResult)
    (db : Db)
    → Sole db
    → Returns (λ r. Sole r.1) (complete deps now blob_id vendor_id fetched db)
unfolding complete verified_with
complete-Sole deps now blob_id vendor_id fetched db sole =
    Returns-bind _ (find_vendor vendor_id db) _ λ v found.
      Returns-bind _ (present (filled v.digilocker_session_id) unprocessable) _ λ _ _.
        Returns-bind _ fetched _ λ i _.
          Returns-require _ (all_checks_passed i.checks) unprocessable _ λ _.
            Returns-bind _ (release_from vendor_id (holder_of i.provider_user_id db) db) _
              λ released h.
                let freed =
                  Returns-ok (Freed i.provider_user_id vendor_id) _ released
                    (release_from-Freed i.provider_user_id vendor_id
                      (holder_of i.provider_user_id db) db refl sole)
                    h in
                save_vendor-Sole i.provider_user_id (verified_with deps now blob_id i v) released
                  refl (rw (find_vendor-id vendor_id db v found) freed)
