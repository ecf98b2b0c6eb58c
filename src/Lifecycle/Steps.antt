-- ===== src/Lifecycle/Steps.antt =====
-- Every operation that changes a payment, as a step of the database, and the databases that they
-- reach from one with no payments. Times, texts, secrets and what the other services answer are
-- arbitrary at each step. A broadcast whose recording fails is no step, since no row changes.
use securtxn.Prelude.{ℕ, ◌≡◌, Option, [], Text, ok, Returns-ok}
use securtxn.Types.{ExceptionType, SettlementMode}
use securtxn.Deps.{Deps}
use securtxn.Decision.{Decision}
use securtxn.Challenge.{ChallengeAssessment}
use securtxn.Store.Rows.{PaymentRequest, ExceptionCase, Db}
use securtxn.Payments.{create, CreatePaymentRequest}
use securtxn.Payments.Decide.{run_decision, Gatherers}
use securtxn.Payments.Acknowledge.{acknowledge, AcknowledgmentRequest}
use securtxn.Consent.{request, decide_consent, PayeeConsentRequest}
use securtxn.Exceptions.{open_exception, update_exception, UpdateExceptionRequest}
use securtxn.Approvals.{propose, report_sent, ReportSentRequest}
use securtxn.Settlement.{record_claim, RecordClaimRequest, record_refund}
use securtxn.Settlement.Record.{record_lock, RecordLockRequest}
use securtxn.Settle.{ChainGateway}
use securtxn.Settle.Escrow.{settle}
use securtxn.Settle.Recover.{release_secret, execute_refund, sweep_refunds}
use securtxn.Evidence.Service.{record_access}
use securtxn.Lifecycle.{AllGood}
use securtxn.Lifecycle.Parties.{request-AllGood, decide_consent-AllGood}
use securtxn.Lifecycle.Access.{record_access-AllGood}
use securtxn.Lifecycle.Decisions.{
  create-AllGood, run_decision-AllGood, open_exception-AllGood, update_exception-AllGood,
}
use securtxn.Lifecycle.Release.{propose-AllGood, report_sent-AllGood}
use securtxn.Lifecycle.Escrows.{acknowledge-AllGood, record_claim-AllGood, record_refund-AllGood}
use securtxn.Lifecycle.Locks.{record_lock-AllGood}
use securtxn.Lifecycle.Funds.{
  settle-AllGood, release_secret-AllGood, execute_refund-AllGood, sweep_refunds-AllGood,
}

pub data Step (deps : Deps) : Db → Db → Type 0 where
  created :
      {db db' : Db} {p : PaymentRequest} (id : Text) (i : CreatePaymentRequest)
      → create deps.platform id i db ≡ ok (p, db')
      → Step deps db db'
  requested :
      {db db' : Db} {c : ChallengeAssessment} (now : ℕ) (id : Text)
      → request deps now id db ≡ ok (c, db')
      → Step deps db db'
  answered :
      {db db' : Db} (now : ℕ) (id : Text) (i : PayeeConsentRequest)
      → decide_consent deps now id i db ≡ ok db'
      → Step deps db db'
  decided :
      {db db' : Db} {v : Decision} {m : SettlementMode} (g : Gatherers) (now : ℕ)
      (case_id id : Text)
      → run_decision deps g now case_id id db ≡ ok (v, m, db')
      → Step deps db db'
  proposed :
      {db db' : Db} (now : ℕ) (new_id id by : Text) (selfie : Option Text)
      → propose now new_id id by selfie db ≡ ok db'
      → Step deps db db'
  reported :
      {db db' : Db} (now : ℕ) (id : Text) (i : ReportSentRequest)
      → report_sent deps now id i db ≡ ok db'
      → Step deps db db'
  settled :
      {db db' : Db} (chain : ChainGateway) (now : ℕ) (preimage : Text) (seconds : Option ℕ)
      (approver id : Text)
      → (settle deps chain now preimage seconds approver id db).result ≡ ok db'
      → Step deps db db'
  lock_recorded :
      {db db' : Db} (now : ℕ) (id : Text) (i : RecordLockRequest)
      → record_lock deps now id i db ≡ ok db'
      → Step deps db db'
  secret_released :
      {db db' : Db} {secret : Text} (now : ℕ) (id signature : Text)
      → release_secret deps now id signature db ≡ ok (secret, db')
      → Step deps db db'
  claim_recorded :
      {db db' : Db} (now : ℕ) (id : Text) (i : RecordClaimRequest)
      → record_claim deps now id i db ≡ ok db'
      → Step deps db db'
  refund_recorded :
      {db db' : Db} (now : ℕ) (case_id id tx : Text)
      → record_refund deps now case_id id tx db ≡ ok db'
      → Step deps db db'
  refund_executed :
      {db db' : Db} (chain : ChainGateway) (now : ℕ) (case_id id actor : Text)
      → (execute_refund deps chain now case_id id actor db).result ≡ ok db'
      → Step deps db db'
  refunds_swept :
      {db : Db} (chain : ChainGateway) (now : ℕ) (actor : Text) (case_id : Text → Text)
      → Step deps db (sweep_refunds deps chain now actor case_id db).db
  receipted :
      {db db' : Db} (now : ℕ) (id : Text) (i : AcknowledgmentRequest)
      → acknowledge deps now id i db ≡ ok db'
      → Step deps db db'
  case_opened :
      {db db' : Db} (now : ℕ) (new_id id : Text) (type : ExceptionType) (by : Text)
      → open_exception deps now new_id id type by db ≡ ok db'
      → Step deps db db'
  case_updated :
      {db db' : Db} {c : ExceptionCase} (now : ℕ) (id : Text) (i : UpdateExceptionRequest)
      → update_exception now id i db ≡ ok (c, db')
      → Step deps db db'
  accessed :
      {db db' : Db} (now : ℕ) (id actor role : Text)
      → record_access deps.platform now id actor role db [] ≡ ok db'
      → Step deps db db'
  others : {db db' : Db} → db'.payment_requests ≡ db.payment_requests → Step deps db db'

pub data Reached (deps : Deps) : Db → Type 0 where
  at_first : {db : Db} → db.payment_requests ≡ [] → Reached deps db
  then_by : {db db' : Db} → Reached deps db → Step deps db db' → Reached deps db'

Step-AllGood :
    (deps : Deps) (db db' : Db)
    → Step deps db db'
    → AllGood deps.platform db
    → AllGood deps.platform db'
Step-AllGood deps db db' (created id i h) g =
    Returns-ok (λ r. AllGood deps.platform r.1) _ _ (create-AllGood deps.platform id i db g) h
Step-AllGood deps db db' (requested now id h) g =
    Returns-ok (λ r. AllGood deps.platform r.1) _ _ (request-AllGood deps now id db g) h
Step-AllGood deps db db' (answered now id i h) g =
    Returns-ok _ _ _ (decide_consent-AllGood deps now id i db g) h
Step-AllGood deps db db' (decided gs now case_id id h) g =
    Returns-ok (λ r. AllGood deps.platform r.2) _ _
      (run_decision-AllGood deps gs now case_id id db g) h
Step-AllGood deps db db' (proposed now new_id id by selfie h) g =
    Returns-ok _ _ _ (propose-AllGood deps.platform now new_id id by selfie db g) h
Step-AllGood deps db db' (reported now id i h) g =
    Returns-ok _ _ _ (report_sent-AllGood deps now id i db g) h
Step-AllGood deps db db' (settled chain now preimage seconds approver id h) g =
    Returns-ok _ _ _ (settle-AllGood deps chain now preimage seconds approver id db g) h
Step-AllGood deps db db' (lock_recorded now id i h) g =
    Returns-ok _ _ _ (record_lock-AllGood deps now id i db g) h
Step-AllGood deps db db' (secret_released now id signature h) g =
    Returns-ok (λ r. AllGood deps.platform r.1) _ _
      (release_secret-AllGood deps now id signature db g) h
Step-AllGood deps db db' (claim_recorded now id i h) g =
    Returns-ok _ _ _ (record_claim-AllGood deps now id i db g) h
Step-AllGood deps db db' (refund_recorded now case_id id tx h) g =
    Returns-ok _ _ _ (record_refund-AllGood deps now case_id id tx db g) h
Step-AllGood deps db db' (refund_executed chain now case_id id actor h) g =
    Returns-ok _ _ _ (execute_refund-AllGood deps chain now case_id id actor db g) h
Step-AllGood deps db db' (refunds_swept chain now actor case_id) g =
    sweep_refunds-AllGood deps chain now actor case_id db g
Step-AllGood deps db db' (receipted now id i h) g =
    Returns-ok _ _ _ (acknowledge-AllGood deps now id i db g) h
Step-AllGood deps db db' (case_opened now new_id id type by h) g =
    Returns-ok _ _ _ (open_exception-AllGood deps now new_id id type by db g) h
Step-AllGood deps db db' (case_updated now id i h) g =
    Returns-ok (λ r. AllGood deps.platform r.1) _ _
      (update_exception-AllGood deps.platform now id i db g) h
Step-AllGood deps db db' (accessed now id actor role h) g =
    Returns-ok _ _ _ (record_access-AllGood deps.platform now id actor role db g) h
Step-AllGood deps db db' (others h) g = rw h g

pub Reached-AllGood : (deps : Deps) (db : Db) → Reached deps db → AllGood deps.platform db
Reached-AllGood deps db (at_first h) = rw h tt
Reached-AllGood deps db (then_by {db = before} r s) =
    Step-AllGood deps before db s (Reached-AllGood deps before r)
