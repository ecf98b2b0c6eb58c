-- ===== src/Exceptions.antt =====
-- apps/api/src/modules/exceptions: recovery playbooks and the life of a case. The id of a new case
-- is an argument, as the database chooses it.
pub mod Playbooks
use securtxn.Prelude.{
  ℕ, Bool, true, false, not, ◌&&◌, ◌||◌, Option, none, some, List, [], ◌∷◌, ◌++◌, Text, text_eq,
  if◌then◌else◌, is_some, or_else, Result, ok, err, require, present, ◌>>=◌, ◌>>◌, not_found,
  conflict, unique_violation,
}
use securtxn.Types.{ExceptionType, ExceptionStatus, open_case, in_recovery, resolved, written_off}
use securtxn.Deps.{Deps}
use securtxn.Store.Rows.{PaymentRequest, ExceptionCase, PlaybookStep, Db}
use securtxn.Store.Queries.{first, find_payment, save_payment}
use securtxn.Evidence.Payload.{exception_opened}
use securtxn.Evidence.Service.{append}
use securtxn.Exceptions.Playbooks.{playbook_for}

-- The row that `createWithin` inserts.
abbrev new_case : Text → ExceptionType → ExceptionCase
new_case id type = record {
  id = id;
  type = type;
  status = open_case;
  playbook_steps = playbook_for type;
  resolved_at = none;
}

-- `createWithin`, in the caller's transaction. A second case breaks the unique constraint.
unfoldable pub create_within :
    Deps → ℕ → Text → ExceptionType → Text → PaymentRequest → Result PaymentRequest
create_within deps now new_id type opened_by p = do
  require (not (is_some p.exception_case)) unique_violation
  append deps.platform now (exception_opened type opened_by)
      (record p { exception_case = some (new_case new_id type) })

-- `open`
unfoldable pub open_exception : Deps → ℕ → Text → Text → ExceptionType → Text → Db → Result Db
unfolding create_within
open_exception deps now new_id payment_id type opened_by db = do
  p ← find_payment payment_id db
  require (not (is_some p.exception_case)) conflict
  q ← create_within deps now new_id type opened_by p
  ok (save_payment q db)

abbrev pub is_terminal : ExceptionStatus → Bool
is_terminal resolved = true
is_terminal written_off = true
is_terminal _ = false

pub record UpdateExceptionRequest : Type 0 where
  pub status : Option ExceptionStatus
  pub playbook_steps : Option (List PlaybookStep)

-- The data of the update, `existing` being open.
unfoldable pub updated_case : ℕ → UpdateExceptionRequest → ExceptionCase → ExceptionCase
updated_case now input existing =
    let status = or_else input.status existing.status in
    record existing {
      status = status;
      playbook_steps = or_else input.playbook_steps existing.playbook_steps;
      resolved_at =
          if is_terminal status && not (is_some existing.resolved_at)
          then some now
          else existing.resolved_at;
    }

abbrev case_has_id : Text → PaymentRequest → Bool
case_has_id id p = elim p.exception_case [ none ↦ false | some c ↦ text_eq c.id id ]

-- `exceptionCase.findUnique` by the case's id: the payment that it belongs to.
unfoldable pub find_by_case : Text → List PaymentRequest → Option PaymentRequest
find_by_case id ps = first (case_has_id id) ps

-- `update`
unfoldable pub update_exception :
    ℕ → Text → UpdateExceptionRequest → Db → Result (ExceptionCase × Db)
update_exception now id input db = do
  p ← present (find_by_case id db.payment_requests) not_found
  existing ← present p.exception_case not_found
  require (not (is_terminal existing.status)) conflict
  ok (
    updated_case now input existing,
    save_payment (record p { exception_case = some (updated_case now input existing) }) db,
  )
