-- ===== src/VendorMatch.antt =====
-- apps/api/src/modules/vendorMatch/vendorMatchRequestStore.ts: the table through which a verdict of
-- the enclave comes back. The callback, the matcher that awaits it and their laws are in child
-- modules.
pub mod Callback
pub mod Matcher
pub mod Cells
pub mod Once
pub mod Awaits
mod Tests
use securtxn.Prelude.{
  ℕ, Bool, true, false, Option, none, some, List, [], ◌∷◌, ◌++◌, Text, if◌then◌else◌,
}
use securtxn.Matching.{VendorMatchInput}
use securtxn.Store.Rows.{
  VendorMatchRequest, VendorMatchRequestStatus, pending, completed, failed, Db,
}
use securtxn.Store.Queries.{find, put}

abbrev pub is_pending : VendorMatchRequestStatus → Bool
is_pending pending = true
is_pending _ = false

unfoldable pub create_request : Text → VendorMatchInput → Db → Db
create_request new_id i db = record db {
  vendor_match_requests =
      db.vendor_match_requests
      ++ record {
        id = new_id;
        vendor_id = i.vendor_id;
        wallet_address = i.wallet_address;
        network = i.network;
        status = pending;
        match = none;
        score = none;
        reason_code = none;
        workflow_execution_id = none;
        failure_reason = none;
        completed_at = none;
      }
        ∷ [];
}

unfoldable pub get_request : Text → Db → Option VendorMatchRequest
get_request id db = find (λ r. r.id) id db.vendor_match_requests

unfoldable pub save_request : VendorMatchRequest → Db → Db
save_request r db = record db { vendor_match_requests = put (λ q. q.id) r db.vendor_match_requests }

-- The request of this id, where there is one, is changed.
abbrev pub change_request :
    (VendorMatchRequest → VendorMatchRequest) → Option VendorMatchRequest → Db → Db
change_request f none db = db
change_request f (some r) db = save_request (f r) db

abbrev pub with_execution : Text → VendorMatchRequest → VendorMatchRequest
with_execution execution_id r = record r { workflow_execution_id = some execution_id }

unfoldable pub attach_execution : Text → Text → Db → Db
attach_execution id execution_id db =
    change_request (with_execution execution_id) (get_request id db) db

abbrev pub failed_with : ℕ → Text → VendorMatchRequest → VendorMatchRequest
failed_with now reason r = record r {
  status = failed;
  failure_reason = some reason;
  completed_at = some now;
}

-- `updateMany` where the request is still PENDING.
abbrev pub fail_pending : ℕ → Text → VendorMatchRequest → VendorMatchRequest
fail_pending now reason r = if is_pending r.status then failed_with now reason r else r

unfoldable pub fail_request : ℕ → Text → Text → Db → Db
fail_request now id reason db = change_request (fail_pending now reason) (get_request id db) db
