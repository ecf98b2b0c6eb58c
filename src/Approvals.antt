-- ===== src/Approvals.antt =====
-- apps/api/src/modules/approvals/service.ts: the queue of proposals, and the report of a send that
-- the approver's machine has signed.
use securtxn.Prelude.{
  ℕ, Bool, true, false, not, Option, none, some, List, [], ◌∷◌, Text, text_eq, filter, is_some,
  Result, ok, require, present, ◌>>=◌, ◌>>◌, conflict, unprocessable, not_found, unique_violation,
}
use securtxn.Types.{awaiting_approval, sent, is_status, DecisionReasonCode, new_or_changed_address}
use securtxn.Deps.{Deps}
use securtxn.Store.Rows.{PaymentRequest, Proposal, Db}
use securtxn.Store.Queries.{first, sorted_by, find_payment, find_wallet, save_payment}
use securtxn.Evidence.Payload.{approval, send}
use securtxn.Evidence.Service.{append}

abbrev is_new_address : Option DecisionReasonCode → Bool
is_new_address (some new_or_changed_address) = true
is_new_address _ = false

-- `selfieCheckProofRef ? … : {}`: an empty reference is none.
abbrev proof_ref : Option Text → Option Text
proof_ref none = none
proof_ref (some []) = none
proof_ref (some (c ∷ t)) = some (c ∷ t)

abbrev new_proposal : ℕ → Text → Text → Option Text → PaymentRequest → Proposal
new_proposal now id proposed_by selfie p = record {
  id = id;
  proposed_by = proposed_by;
  selfie_check_proof_ref = proof_ref selfie;
  is_new_or_changed_address = is_new_address p.decision_reason_code;
  consumed_at = none;
  created_at = now;
}

-- `propose`
unfoldable pub propose : ℕ → Text → Text → Text → Option Text → Db → Result Db
propose now new_id payment_id proposed_by selfie db = do
  p ← find_payment payment_id db
  require (is_status p.status awaiting_approval) unprocessable
  require (not (is_some p.proposal)) conflict
  ok (save_payment (record p { proposal = some (new_proposal now new_id proposed_by selfie p) }) db)

abbrev has_proposal : Text → PaymentRequest → Bool
has_proposal id p = elim p.proposal [ none ↦ false | some q ↦ text_eq q.id id ]

-- `proposal.findUnique` by the proposal's id: the payment that it belongs to.
unfoldable pub find_by_proposal : Text → List PaymentRequest → Option PaymentRequest
find_by_proposal id ps = first (has_proposal id) ps

abbrev is_waiting : PaymentRequest → Bool
is_waiting p = elim p.proposal [ none ↦ false | some q ↦ not (is_some q.consumed_at) ]

abbrev proposed_at : PaymentRequest → ℕ
proposed_at p = elim p.proposal [ none ↦ 0 | some q ↦ q.created_at ]

-- `listPending`: the payments whose proposal is not consumed, the oldest proposal first. The source
-- leaves open how proposals of one time are ordered; here they stand in the order of the table.
unfoldable pub list_pending : List PaymentRequest → List PaymentRequest
list_pending ps = sorted_by proposed_at (filter is_waiting ps)

pub record ReportSentRequest : Type 0 where
  pub approver_id : Text
  pub tx_hash : Text
  pub ledger_confirmed_at : ℕ

abbrev pub reported : ℕ → ReportSentRequest → Proposal → PaymentRequest → PaymentRequest
reported now input q p = record p {
  status = sent;
  tx_hash = some input.tx_hash;
  approval_event = some (record {
    approver_id = input.approver_id;
    selfie_check_verified = is_some q.selfie_check_proof_ref;
    selfie_check_proof_ref = q.selfie_check_proof_ref;
    ledger_confirmed = true;
    ledger_confirmed_at = some input.ledger_confirmed_at;
  });
  proposal = some (record q { consumed_at = some now });
}

-- `reportSent`. The schema makes the approval event unique for a payment.
unfoldable pub report_sent : Deps → ℕ → Text → ReportSentRequest → Db → Result Db
report_sent deps now proposal_id input db = do
  p ← present (find_by_proposal proposal_id db.payment_requests) not_found
  q ← present p.proposal not_found
  wallet ← find_wallet p.vendor_wallet_id db
  require (not (is_some q.consumed_at)) conflict
  require (is_status p.status awaiting_approval) conflict
  require (not (is_some p.approval_event)) unique_violation
  r ←
      append deps.platform now (approval input.approver_id (is_some q.selfie_check_proof_ref) true)
        (reported now input q p)
  s ←
      append deps.platform now
        (send input.tx_hash p.network wallet.address (deps.platform.decimal_text p.amount) p.token)
        r
  ok (save_payment s db)
