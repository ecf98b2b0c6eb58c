-- ===== src/VendorMatch/Matcher.antt =====
-- apps/api/src/modules/vendorMatch/CreVendorMatcher.ts: the matcher that queues a workflow and polls
-- for its verdict. What happens to the database between two polls, the clock at each poll and the
-- answer of the gateway are parameters. Polling runs on fuel; without any left there is no outcome.
use securtxn.Prelude.{
  ℕ, zero, suc, ◌+◌, Bool, Option, none, some, Text, codes, leb, Result, ok, err, present, ◌>>=◌,
  internal, match_timeout, match_failed,
}
use securtxn.Matching.{VendorMatchInput}
use securtxn.Store.Rows.{
  VendorMatchRequest, VendorMatchRequestStatus, pending, completed, failed, Db,
}
use securtxn.VendorMatch.{create_request, get_request, attach_execution, fail_request}

-- The reason is a text here, since it is what the callback sent.
pub record Verdict : Type 0 where
  pub match : Bool
  pub reason_code : Text

pub record Awaited : Type 0 where
  pub db : Db
  pub result : Result Verdict

pub record Surroundings : Type 0 where
  -- what the gateway answers: an execution id
  pub invoke : Result Text
  -- the clock when the deadline is set, and at the k-th poll
  pub started : ℕ
  pub now : ℕ → ℕ
  -- the callbacks and other requests that run during the invocation and after the k-th poll
  pub meanwhile : Db → Db
  pub between : ℕ → Db → Db

abbrev pub read_verdict : VendorMatchRequest → Result Verdict
read_verdict r = present r.match internal >>= λ match.
    present r.reason_code internal >>= λ reason. ok (record { match = match; reason_code = reason })

abbrev pub settled_as : VendorMatchRequest → VendorMatchRequestStatus → Option (Result Verdict)
settled_as r pending = none
settled_as r completed = some (read_verdict r)
settled_as r failed = some (err match_failed)

-- What a poll makes of the row that it read; none where it goes on.
abbrev pub settled_by : Option VendorMatchRequest → Option (Result Verdict)
settled_by none = none
settled_by (some r) = settled_as r r.status

abbrev pub give_up_or : Bool → ℕ → Text → Db → Option Awaited → Option Awaited
give_up_or Bool.true now id db later = some (record {
  db = fail_request now id (codes "timed out awaiting verdict") db;
  result = err match_timeout;
})
give_up_or Bool.false now id db later = later

abbrev pub poll_step :
    Option (Result Verdict) → Bool → ℕ → Text → Db → Option Awaited → Option Awaited
poll_step (some result) late now id db later = some (record { db = db; result = result })
poll_step none late now id db later = give_up_or late now id db later

unfoldable pub poll : ℕ → Surroundings → ℕ → ℕ → Text → Db → Option Awaited
poll zero s deadline k id db = none
poll (suc fuel) s deadline k id db =
    poll_step (settled_by (get_request id db)) (leb deadline (s.now k)) (s.now k) id db
      (poll fuel s deadline (k + 1) id (s.between k db))

-- The reason on the row also describes the error.
abbrev pub await : ℕ → Surroundings → ℕ → Text → Db → Result Text → Option Awaited
await fuel s timeout_ms id db (err e) =
    some (record { db = fail_request s.started id (codes "invocation failed") db; result = err e })
await fuel s timeout_ms id db (ok execution_id) =
    poll fuel s (s.started + timeout_ms) 0 id (attach_execution id execution_id db)

unfoldable pub match_vendor : ℕ → Surroundings → ℕ → Text → VendorMatchInput → Db → Option Awaited
match_vendor fuel s timeout_ms new_id i db =
    await fuel s timeout_ms new_id (s.meanwhile (create_request new_id i db)) s.invoke
