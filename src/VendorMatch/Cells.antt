-- ===== src/VendorMatch/Cells.antt =====
-- apps/api/src/modules/vendorMatch: the specification of a request, as a cell that is written once,
-- and the events that can happen to the table.
use securtxn.Prelude.{
  ℕ, Bool, Option, some, List, [], ◌∷◌, Text, text_eq, if◌then◌else◌, Result, ok, err,
}
use mathlib.Core.Option
use securtxn.Store.Rows.{
  VendorMatchRequest, VendorMatchRequestStatus, pending, completed, failed, Db,
}
use securtxn.VendorMatch.{get_request, attach_execution, fail_request}
use securtxn.VendorMatch.Callback.{Body, verdict, failure, request_id_of, Ack, receive}

-- What a caller can learn of a request.
pub data Cell : Type 0 where
  waiting broken : Cell
  answered : (match : Option Bool) (reason_code : Option Text) → Cell

abbrev pub cell_at : Option Bool → Option Text → VendorMatchRequestStatus → Cell
cell_at match reason pending = waiting
cell_at match reason completed = answered match reason
cell_at match reason failed = broken

abbrev pub cell_of : VendorMatchRequest → Cell
cell_of r = cell_at r.match r.reason_code r.status

abbrev pub view : Text → Db → Option Cell
view id db = Option.map cell_of (get_request id db)

-- The specification: a cell that waits takes what is offered, any other stays.
abbrev pub offer : Cell → Cell → Cell
offer waiting c = c
offer broken c = broken
offer (answered match reason) c = answered match reason

-- What can happen to the table.
pub data Event : Type 0 where
  called_back : ℕ → Body → Event
  gave_up : ℕ → Text → Text → Event
  executed : Text → Text → Event

abbrev pub left_by : Result (Ack × Db) → Db → Db
left_by (err e) db = db
left_by (ok (ack, after)) db = after

abbrev pub run : Event → Db → Db
run (called_back now body) db = left_by (receive now body db) db
run (gave_up now id reason) db = fail_request now id reason db
run (executed id execution_id) db = attach_execution id execution_id db

abbrev pub run_all : List Event → Db → Db
run_all [] db = db
run_all (e ∷ es) db = run_all es (run e db)

abbrev pub offered_by : Body → Cell
offered_by (verdict id match score reason) = answered (some match) (some reason)
offered_by (failure id reason) = broken

-- What an event offers to the cell of `id`: nothing, which is `waiting`, where it is about another.
abbrev pub offered : Text → Event → Cell
offered id (called_back now body) =
    if text_eq (request_id_of body) id then offered_by body else waiting
offered id (gave_up now of reason) = if text_eq of id then broken else waiting
offered id (executed of execution_id) = waiting

abbrev pub offer_all : Text → List Event → Cell → Cell
offer_all id [] c = c
offer_all id (e ∷ es) c = offer_all id es (offer c (offered id e))
