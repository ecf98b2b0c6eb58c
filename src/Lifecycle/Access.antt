-- ===== src/Lifecycle/Access.antt =====
-- apps/api/src/modules/evidence/service.ts: the invariant through recordAccess.
use securtxn.Prelude.{
  ℕ, zero, suc, Text, List, [], Result, ok, err, Error, bad_request, forbidden, not_found, conflict,
  unprocessable, unique_violation, invalid_value, internal, verification_failed, signal_mismatch,
  nullifier_replay, not_enrolled, different_human, match_timeout, match_failed, Returns,
  Returns-bind,
}
use securtxn.Platform.{Platform}
use securtxn.Evidence.Payload.{evidence_accessed}
use securtxn.Evidence.Service.{
  append, append_standalone, retry_or_throw, access_once, record_access, max_append_attempts,
}
use securtxn.Store.Rows.{Db}
use securtxn.Store.Queries.{find_payment}
use securtxn.Lifecycle.{AllGood}
use securtxn.Lifecycle.Appends.{append-Good, find_payment-Good, save_payment-AllGood}

retry_or_throw-Returns :
    (P : Db → Type 0) (e : Error) (left : ℕ) (again : Db → List Db → Result Db) (db : Db)
    → Returns P (again db [])
    → Returns P (retry_or_throw e left again db [])
retry_or_throw-Returns P unique_violation (suc left) again db h = h
retry_or_throw-Returns P unique_violation zero again db h = tt
retry_or_throw-Returns P bad_request left again db h = tt
retry_or_throw-Returns P forbidden left again db h = tt
retry_or_throw-Returns P not_found left again db h = tt
retry_or_throw-Returns P conflict left again db h = tt
retry_or_throw-Returns P unprocessable left again db h = tt
retry_or_throw-Returns P invalid_value left again db h = tt
retry_or_throw-Returns P internal left again db h = tt
retry_or_throw-Returns P verification_failed left again db h = tt
retry_or_throw-Returns P signal_mismatch left again db h = tt
retry_or_throw-Returns P nullifier_replay left again db h = tt
retry_or_throw-Returns P not_enrolled left again db h = tt
retry_or_throw-Returns P different_human left again db h = tt
retry_or_throw-Returns P match_timeout left again db h = tt
retry_or_throw-Returns P match_failed left again db h = tt

tried-Returns :
    (P : Db → Type 0) (r : Result Db) (left : ℕ) (again : Db → List Db → Result Db) (db : Db)
    → Returns P r
    → Returns P (again db [])
    → Returns P (elim r [ ok db' ↦ ok db' | err e ↦ retry_or_throw e left again db [] ])
tried-Returns P (ok d) left again db h k = h
tried-Returns P (err e) left again db h k = retry_or_throw-Returns P e left again db k

append_standalone-AllGood :
    (pf : Platform) (n : ℕ) (attempt : Db → Result Db) (db : Db)
    → Returns (AllGood pf) (attempt db)
    → Returns (AllGood pf) (append_standalone n attempt db [])
unfolding append_standalone
append_standalone-AllGood pf zero attempt db h = tt
append_standalone-AllGood pf (suc n) attempt db h =
    tried-Returns (AllGood pf) (attempt db) n (append_standalone n attempt) db h
      (append_standalone-AllGood pf n attempt db h)

access_once-AllGood :
    (pf : Platform) (now : ℕ) (id actor role : Text) (db : Db)
    → AllGood pf db
    → Returns (AllGood pf) (access_once pf now id actor role db)
unfolding access_once
access_once-AllGood pf now id actor role db g = Returns-bind _ (find_payment id db) _ λ p found.
    Returns-bind _ (append pf now (evidence_accessed actor role) p) _ λ q noted.
      save_payment-AllGood pf q db g (
        append-Good pf now (evidence_accessed actor role) p q noted
          (find_payment-Good pf id db p found g))

pub record_access-AllGood :
    (pf : Platform) (now : ℕ) (id actor role : Text) (db : Db)
    → AllGood pf db
    → Returns (AllGood pf) (record_access pf now id actor role db [])
unfolding record_access
record_access-AllGood pf now id actor role db g =
    append_standalone-AllGood pf max_append_attempts (access_once pf now id actor role) db
      (access_once-AllGood pf now id actor role db g)
