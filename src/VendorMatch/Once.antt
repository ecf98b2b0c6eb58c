-- ===== src/VendorMatch/Once.antt =====
-- apps/api/src/modules/vendorMatch and internal/vendor-match-result.routes.ts: a request as a cell
-- that is written once, whatever callbacks and give-ups arrive in whatever order.
use securtxn.Prelude.{
  ℕ, Bool, true, false, ◌≡◌, refl, sym, ap, ◌∙◌, Option, none, some, List, [], ◌∷◌, Text, text_eq,
  text_eq_iff, text_eq_refl, Bool-cases, Option-cases, inl, inr, if◌then◌else◌, Result, ok,
}
use mathlib.Core.Option
use securtxn.Store.Rows.{
  VendorMatchRequest, VendorMatchRequestStatus, pending, completed, failed, Db,
}
use securtxn.Store.Queries.{find-put, find-key}
use securtxn.VendorMatch.{
  get_request, save_request, change_request, is_pending, with_execution, attach_execution,
  failed_with, fail_pending, fail_request,
}
use securtxn.VendorMatch.Callback.{
  Body, verdict, failure, request_id_of, Ack, recorded, already_recorded, completed_with, receive,
}
use securtxn.VendorMatch.Cells.{
  Cell, waiting, broken, answered, cell_at, cell_of, view, offer, Event, called_back, gave_up,
  executed, left_by, run, run_all, offered_by, offered, offer_all,
}

offer-waiting : (c : Cell) → offer c waiting ≡ c
offer-waiting waiting = refl
offer-waiting broken = refl
offer-waiting (answered m r) = refl

map-offer-waiting : (o : Option Cell) → o ≡ Option.map (λ c. offer c waiting) o
map-offer-waiting none = refl
map-offer-waiting (some c) = ap (λ d. some d) (sym (offer-waiting c))

-- What `c`, offered to the request `of`, makes of the cell of `id`.
abbrev Takes : Text → Text → Cell → Db → Db → Type 0
Takes id of c db after =
    view id after ≡ Option.map (λ d. offer d (if text_eq of id then c else waiting)) (view id db)

other-Takes :
    (id of : Text) (c : Cell) (db after : Db)
    → text_eq of id ≡ false
    → view id after ≡ view id db
    → Takes id of c db after
other-Takes id of c db after n h = rw n (h ∙ map-offer-waiting (view id db))

same-Takes :
    (id : Text) (c : Cell) (db after : Db)
    → view id after ≡ Option.map (λ d. offer d c) (view id db)
    → Takes id id c db after
same-Takes id c db after h = rw (text_eq_refl id) h

by_id : (P : Text → Type 0) (of id : Text) → P of → (text_eq of id ≡ false → P id) → P id
by_id P of id h k = elim (Bool-cases (text_eq of id)) [
  | inl e ↦ rw (sym ((text_eq_iff of id).0 e)) h
  | inr n ↦ k n
]

-- A request that is not there, or whose cell does not take what is offered, is left.
kept-Takes :
    (id of : Text) (c : Cell) (db : Db)
    → view of db ≡ Option.map (λ d. offer d c) (view of db)
    → Takes id of c db db
kept-Takes id of c db h =
    by_id (λ id. Takes id of c db db) of id (same-Takes of c db db h)
      λ n. other-Takes id of c db db n refl

view-save :
    (id of : Text) (r q : VendorMatchRequest) (db : Db)
    → get_request of db ≡ some r
    → q.id ≡ of
    → get_request id (save_request q db) ≡ (if text_eq of id then some q else get_request id db)
unfolding get_request save_request
view-save id of r q db found i =
    by_id
      (λ id.
        get_request id (save_request q db) ≡ (if text_eq of id then some q else get_request id db))
      of id
      (rw
        (
          find-put (λ (r : VendorMatchRequest). r.id) q of db.vendor_match_requests,
          i,
          text_eq_refl of,
          found,
        )
        refl)
      (λ n.
        rw (find-put (λ (r : VendorMatchRequest). r.id) q id db.vendor_match_requests, i, n) refl)

saved-Takes :
    (id of : Text) (c : Cell) (r q : VendorMatchRequest) (db : Db)
    → get_request of db ≡ some r
    → q.id ≡ of
    → cell_of q ≡ offer (cell_of r) c
    → Takes id of c db (save_request q db)
saved-Takes id of c r q db found i h =
    by_id (λ id. Takes id of c db (save_request q db)) of id
      (same-Takes of c db (save_request q db)
        (rw (view-save of of r q db found i, text_eq_refl of, found) (ap (λ d. some d) h)))
      λ n.
        other-Takes id of c db (save_request q db) n (rw (view-save id of r q db found i, n) refl)

get_request-id :
    (id : Text) (db : Db) (r : VendorMatchRequest) → get_request id db ≡ some r → r.id ≡ id
unfolding get_request
get_request-id id db r h = find-key (λ q. q.id) id db.vendor_match_requests r h

-- A change of the request that is found.
change_request-Takes :
    (id of : Text) (c : Cell) (f : VendorMatchRequest → VendorMatchRequest) (db : Db)
    → ((r : VendorMatchRequest) → (f r).id ≡ r.id)
    → ((r : VendorMatchRequest) → cell_of (f r) ≡ offer (cell_of r) c)
    → Takes id of c db (change_request f (get_request of db) db)
change_request-Takes id of c f db keeps takes = elim (Option-cases (get_request of db)) [
  | inl e ↦ rw e (kept-Takes id of c db (rw e refl))
  | inr (r, e) ↦
      rw e (saved-Takes id of c r (f r) db e (keeps r ∙ get_request-id of db r e) (takes r))
]

ite-elim :
    {A : Type 0} (P : A → Type 0) (b : Bool) (x y : A)
    → (b ≡ true → P x)
    → (b ≡ false → P y)
    → P (if b then x else y)
ite-elim P true x y h k = h refl
ite-elim P false x y h k = k refl

offer-pending :
    (m : Option Bool) (t : Option Text) (s : VendorMatchRequestStatus) (c : Cell)
    → is_pending s ≡ true
    → offer (cell_at m t s) c ≡ c
offer-pending m t pending c h = refl
offer-pending m t completed c h = cc
offer-pending m t failed c h = cc

offer-settled :
    (m : Option Bool) (t : Option Text) (s : VendorMatchRequestStatus) (c : Cell)
    → is_pending s ≡ false
    → cell_at m t s ≡ offer (cell_at m t s) c
offer-settled m t pending c h = cc
offer-settled m t completed c h = refl
offer-settled m t failed c h = refl

fail_pending-offer :
    (now : ℕ) (reason : Text) (r : VendorMatchRequest)
    → cell_of (fail_pending now reason r) ≡ offer (cell_of r) broken
fail_pending-offer now reason r =
    ite-elim (λ q. cell_of q ≡ offer (cell_of r) broken) (is_pending r.status)
      (failed_with now reason r) r
      (λ h. sym (offer-pending r.match r.reason_code r.status broken h))
      (offer-settled r.match r.reason_code r.status broken)

fail_pending-id :
    (now : ℕ) (reason : Text) (r : VendorMatchRequest) → (fail_pending now reason r).id ≡ r.id
fail_pending-id now reason r =
    ite-elim (λ q. q.id ≡ r.id) (is_pending r.status) (failed_with now reason r) r (λ _. refl)
      λ _. refl

completed_with-offered :
    (now : ℕ) (body : Body) (r : VendorMatchRequest)
    → (cell_of (completed_with now body r) ≡ offered_by body)
      × ((completed_with now body r).id ≡ r.id)
completed_with-offered now (verdict id match score reason) r = (refl, refl)
completed_with-offered now (failure id reason) r = (refl, refl)

receive-found :
    (id : Text) (now : ℕ) (body : Body) (db : Db) (r : VendorMatchRequest)
    → get_request (request_id_of body) db ≡ some r
    → Takes id (request_id_of body) (offered_by body) db (
        left_by
          (if is_pending r.status
            then ok (recorded, save_request (completed_with now body r) db)
            else ok (already_recorded, db))
          db)
receive-found id now body db r found =
    let (cell, same) = completed_with-offered now body r in
    ite-elim
      (λ (a : Result (Ack × Db)). Takes id (request_id_of body) (offered_by body) db (left_by a db))
      (is_pending r.status) (ok (recorded, save_request (completed_with now body r) db))
      (ok (already_recorded, db))
      (λ h.
        saved-Takes id (request_id_of body) (offered_by body) r (completed_with now body r) db found
          (same ∙ get_request-id (request_id_of body) db r found)
          (cell ∙ sym (offer-pending r.match r.reason_code r.status (offered_by body) h)))
      λ h. kept-Takes id (request_id_of body) (offered_by body) db (
        rw found
          (ap (λ d. some d) (offer-settled r.match r.reason_code r.status (offered_by body) h)))

receive-Takes :
    (id : Text) (now : ℕ) (body : Body) (db : Db)
    → Takes id (request_id_of body) (offered_by body) db (left_by (receive now body db) db)
unfolding receive
receive-Takes id now body db = elim (Option-cases (get_request (request_id_of body) db)) [
  | inl e ↦ rw e (kept-Takes id (request_id_of body) (offered_by body) db (rw e refl))
  | inr (r, e) ↦ rw e (receive-found id now body db r e)
]

ite-same : {A : Type 0} (b : Bool) (x : A) → (if b then x else x) ≡ x
ite-same true x = refl
ite-same false x = refl

-- Every event does to the cell of every request what the specification says: it is written once.
pub run-offer :
    (id : Text) (e : Event) (db : Db)
    → view id (run e db) ≡ Option.map (λ c. offer c (offered id e)) (view id db)
unfolding fail_request attach_execution
run-offer id (called_back now body) db = receive-Takes id now body db
run-offer id (gave_up now of reason) db =
    change_request-Takes id of broken (fail_pending now reason) db (fail_pending-id now reason)
      (fail_pending-offer now reason)
run-offer id (executed of execution_id) db =
    change_request-Takes id of waiting (with_execution execution_id) db (λ r. refl)
      (λ r. sym (offer-waiting (cell_of r)))
    ∙ ap (λ c. Option.map (λ d. offer d c) (view id db)) (ite-same (text_eq of id) waiting)

map-map :
    (f g : Cell → Cell) (o : Option Cell)
    → Option.map g (Option.map f o) ≡ Option.map (λ c. g (f c)) o
map-map f g none = refl
map-map f g (some c) = refl

map-same : (o : Option Cell) → o ≡ Option.map (λ c. c) o
map-same none = refl
map-same (some c) = refl

-- Whatever callbacks, give-ups and execution ids arrive in whatever order, every request holds what
-- the write-once cell of the specification holds after the same offers.
pub run_all-offer_all :
    (id : Text) (es : List Event) (db : Db)
    → view id (run_all es db) ≡ Option.map (offer_all id es) (view id db)
run_all-offer_all id [] db = map-same (view id db)
run_all-offer_all id (e ∷ es) db =
    run_all-offer_all id es (run e db)
    ∙ ap (Option.map (offer_all id es)) (run-offer id e db)
    ∙ map-map (λ c. offer c (offered id e)) (offer_all id es) (view id db)
