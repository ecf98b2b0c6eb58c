-- ===== src/VendorMatch/Callback.antt =====
-- apps/api/src/modules/internal/vendor-match-result.routes.ts: the verdict callback.
use securtxn.Prelude.{
  ℕ, Bool, Option, some, Text, if◌then◌else◌, Result, ok, present, ◌>>=◌, not_found,
}
use securtxn.Store.Rows.{VendorMatchRequest, completed, Db}
use securtxn.VendorMatch.{get_request, save_request, is_pending, failed_with}

pub data Body : Type 0 where
  verdict : (request_id : Text) (match : Bool) (score : Option Text) (reason_code : Text) → Body
  failure : (request_id failure_reason : Text) → Body

abbrev pub request_id_of : Body → Text
request_id_of (verdict id match score reason) = id
request_id_of (failure id reason) = id

pub data Ack : Type 0 where
  recorded already_recorded : Ack

abbrev pub completed_with : ℕ → Body → VendorMatchRequest → VendorMatchRequest
completed_with now (verdict id match score reason) r = record r {
  status = completed;
  match = some match;
  score = score;
  reason_code = some reason;
  completed_at = some now;
}
completed_with now (failure id reason) r = failed_with now reason r

unfoldable pub receive : ℕ → Body → Db → Result (Ack × Db)
receive now body db = present (get_request (request_id_of body) db) not_found >>= λ r.
    if is_pending r.status
    then ok (recorded, save_request (completed_with now body r) db)
    else ok (already_recorded, db)
