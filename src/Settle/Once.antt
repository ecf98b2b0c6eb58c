-- ===== src/Settle/Once.antt =====
-- apps/api/src/modules/payments/settle.ts: settle called again.
use securtxn.Prelude.{
  true-not-false, ℕ, Bool, true, false, not, ◌&&◌, ◌≡◌, refl, sym, ap, ◌∙◌, Text, text_eq_iff,
  Option, none, some, [], Result, ok, err, Returns, Returns-bind, Returns-require, Returns-eq,
  Returns-ok, conflict, unprocessable, unique_violation, not_found, is_some, present, present-eq-ok,
  if◌then◌else◌,
}
use securtxn.Types.{is_status, awaiting_approval, sent, is_htlc}
use securtxn.Platform.{Platform}
use securtxn.Deps.{Deps}
use securtxn.Htlc.{hashlock_for}
use securtxn.Evidence.Payload.{EvidenceEvent}
use securtxn.Evidence.Service.{append}
use securtxn.Evidence.Service.Laws.{append-Appended}
use securtxn.Store.Rows.{PaymentRequest, Db}
use securtxn.Store.Queries.{find, find-key, find-put, find_payment, find_wallet, save_payment}
use securtxn.Settlement.Record.{RecordLockRequest, lock_taken, write_lock_record}
use securtxn.Settle.{
  attempt, ChainGateway, Outcome, Plan, LockOutput, plan_settlement, resolve_token, treasury_covers,
  sent_with, write_sent, settle_directly,
}
use securtxn.Settle.Units.{to_base_units}
use securtxn.Settle.Escrow.{
  record_escrow, lock_request, lock_input, timelock_of, settle_through_escrow, payer_address_for,
  prepare_escrow_for_payer, carry_out, settle,
}
use securtxn.Lifecycle.Funds.{Returns-attempt, Returns-submit, ite-Outcome}

-- The payment, where there is one, does not wait for approval.
abbrev pub Gone : Text → Db → Type 0
Gone id db = Returns (λ p. is_status p.status awaiting_approval ≡ false) (find_payment id db)

find_payment-id : (id : Text) (db : Db) → Returns (λ p. p.id ≡ id) (find_payment id db)
unfolding find_payment
find_payment-id id db =
    Returns-eq _ (present (find (λ p. p.id) id db.payment_requests) not_found)
      λ p h. find-key (λ p. p.id) id db.payment_requests p (present-eq-ok _ not_found h)

kept :
    (q : PaymentRequest) (b : Bool)
    → Returns (λ r. r ≡ q) (present (if b then some q else none) not_found)
kept q true = refl
kept q false = tt

-- What is saved under an id is what is found under it.
find_payment-save_payment :
    (q : PaymentRequest) (db : Db) → Returns (λ r. r ≡ q) (find_payment q.id (save_payment q db))
unfolding find_payment save_payment
find_payment-save_payment q db =
    rw (find-put (λ p. p.id) q q.id db.payment_requests, (text_eq_iff q.id q.id).1 refl)
      (kept q (is_some (find (λ p. p.id) q.id db.payment_requests)))

save_payment-Gone :
    (id : Text) (q : PaymentRequest) (db : Db)
    → q.id ≡ id
    → is_status q.status awaiting_approval ≡ false
    → Gone id (save_payment q db)
save_payment-Gone id q db i s = rw (sym i) (
    Returns-eq _ (find_payment q.id (save_payment q db))
      λ r h. rw (Returns-ok (λ r. r ≡ q) _ r (find_payment-save_payment q db) h) s)

-- Appending changes neither the id nor the status.
pub append-keeps :
    (pf : Platform) (now : ℕ) (event : EvidenceEvent) (p q : PaymentRequest)
    → append pf now event p ≡ ok q
    → (q.id ≡ p.id) × (q.status ≡ p.status)
append-keeps pf now event p q h =
    let e = (append-Appended pf now event p q h).result in (ap (λ r. r.id) e, ap (λ r. r.status) e)

plan_settlement-id :
    (deps : Deps) (chain : ChainGateway) (id : Text) (db : Db)
    → Returns (λ plan. (plan.payment).id ≡ id) (plan_settlement deps chain id db)
unfolding plan_settlement
plan_settlement-id deps chain id db = Returns-bind _ (find_payment id db) _ λ p found.
    Returns-bind _ (find_wallet p.vendor_wallet_id db) _ λ w _.
      Returns-require _ (is_status p.status awaiting_approval) conflict _ λ waiting.
        Returns-require _ (not (is_some p.htlc_settlement)) conflict _ λ _.
          Returns-bind _ (resolve_token deps p.token w.token_contract db) _ λ token _.
            Returns-bind _ (chain.decimals token) _ λ decimals _.
              Returns-bind _ (to_base_units (deps.platform.decimal_text p.amount) decimals) _
                λ units _. Returns-bind _ (treasury_covers chain token units) _ λ covered _.
                  Returns-require _ covered unprocessable _ λ _.
                    Returns-ok (λ p. p.id ≡ id) (find_payment id db) p (find_payment-id id db) found

write_sent-sent :
    (deps : Deps) (now : ℕ) (tx approver payee : Text) (p : PaymentRequest)
    → Returns (λ q. (q.id ≡ p.id) × (q.status ≡ sent)) (write_sent deps now tx approver payee p)
unfolding write_sent
write_sent-sent deps now tx approver payee p =
    Returns-require _ (not (is_some p.approval_event)) unique_violation _ λ _.
      Returns-bind _ (append deps.platform now _ (sent_with now tx approver p)) _ λ q h.
        Returns-eq (λ r. (r.id ≡ p.id) × (r.status ≡ sent)) _
          λ r k.
            let (i, s) = append-keeps deps.platform now _ _ q h in
            let (j, t) = append-keeps deps.platform now _ q r k in (j ∙ i, t ∙ s)

write_lock_record-id :
    (deps : Deps) (now : ℕ) (db : Db) (payee : Text) (blob : Option Text) (i : RecordLockRequest)
    (p : PaymentRequest)
    → Returns (λ q. q.id ≡ p.id) (write_lock_record deps now db payee blob i p)
unfolding write_lock_record
write_lock_record-id deps now db payee blob i p =
    Returns-require _ (not (is_some p.htlc_settlement)) unique_violation _ λ _.
      Returns-require _ (not (lock_taken i.lock_id db)) unique_violation _
        λ _. Returns-eq (λ q. q.id ≡ p.id) _ λ q h. (append-keeps deps.platform now _ _ q h).0

record_escrow-sent :
    (deps : Deps) (now : ℕ) (db : Db) (preimage hashlock : Text) (timelock : ℕ) (out : LockOutput)
    (approver : Text) (plan : Plan)
    → Returns
        (λ q. (q.id ≡ (plan.payment).id) × (q.status ≡ sent))
        (record_escrow deps now db preimage hashlock timelock out approver plan)
unfolding record_escrow
record_escrow-sent deps now db preimage hashlock timelock out approver plan =
    Returns-bind _
      (write_lock_record deps now db plan.payee (some preimage)
        (lock_request deps plan hashlock timelock out) plan.payment)
      _
      λ q h.
        Returns-eq (λ r. (r.id ≡ (plan.payment).id) × (r.status ≡ sent)) _
          λ r k.
            let (j, t) =
              Returns-ok (λ r. (r.id ≡ q.id) × (r.status ≡ sent)) _ r
                (write_sent-sent deps now out.lock_tx_hash approver plan.payee q) k in
            let i =
              Returns-ok _ _ q
                (write_lock_record-id deps now db plan.payee (some preimage)
                  (lock_request deps plan hashlock timelock out) plan.payment)
                h in
            (j ∙ i, t)

-- A payment that is sent is gone.
sent-Gone :
    (id : Text) (q p : PaymentRequest) (db : Db)
    → p.id ≡ id
    → (q.id ≡ p.id) × (q.status ≡ sent)
    → Gone id (save_payment q db)
unfolding is_status
sent-Gone id q p db i f =
    save_payment-Gone id q db (f.0 ∙ i) (ap (λ s. is_status s awaiting_approval) f.1)

carry_out-Gone :
    (deps : Deps) (chain : ChainGateway) (now : ℕ) (preimage : Text) (seconds : Option ℕ)
    (approver id : Text) (plan : Plan) (db : Db)
    → (plan.payment).id ≡ id
    → Returns (Gone id) (carry_out deps chain now preimage seconds approver plan db).result
unfolding carry_out settle_directly settle_through_escrow prepare_escrow_for_payer is_status
carry_out-Gone deps chain now preimage seconds approver id plan db i =
    let hashlock = hashlock_for deps.platform preimage in
    let timelock = timelock_of deps now seconds in
    ite-Outcome _ (not (is_htlc plan.payment.settlement_mode)) _ _
      (Returns-submit _ chain _ (chain.transfer plan.token plan.payee plan.base_units) _ λ tx _.
        Returns-bind _ (write_sent deps now tx approver plan.payee plan.payment) _ λ q h.
          sent-Gone id q plan.payment db i
            (Returns-ok _ _ q (write_sent-sent deps now tx approver plan.payee plan.payment) h))
      (ite-Outcome _ (deps.settlement_funding_payer && chain.broadcasts) _ _
        (Returns-bind _ (payer_address_for plan.payment.payer_vendor_id db) _ λ payer _.
          Returns-require _ (not (is_some plan.payment.htlc_settlement)) unique_violation _ λ _.
            Returns-require _ (not (lock_taken _ db)) unique_violation _
              λ _. save_payment-Gone id _ db i refl)
        (Returns-submit _ chain _ (chain.lock (lock_input plan hashlock timelock)) _ λ out _.
          Returns-bind _ (record_escrow deps now db preimage hashlock timelock out approver plan) _
            λ q h. sent-Gone id q plan.payment db i (
              Returns-ok _ _ q
                (record_escrow-sent deps now db preimage hashlock timelock out approver plan) h)))

settle-Gone :
    (deps : Deps) (chain : ChainGateway) (now : ℕ) (preimage : Text) (seconds : Option ℕ)
    (approver id : Text) (db : Db)
    → Returns (Gone id) (settle deps chain now preimage seconds approver id db).result
unfolding settle
settle-Gone deps chain now preimage seconds approver id db =
    Returns-attempt _ (plan_settlement deps chain id db) _ λ plan h.
      carry_out-Gone deps chain now preimage seconds approver id plan db
        (Returns-ok _ _ plan (plan_settlement-id deps chain id db) h)

-- No plan is made for a payment that is gone.
Gone-no_plan :
    (deps : Deps) (chain : ChainGateway) (id : Text) (db : Db)
    → Gone id db
    → Returns (λ _. ⊥) (plan_settlement deps chain id db)
unfolding plan_settlement
Gone-no_plan deps chain id db g = Returns-bind _ (find_payment id db) _ λ p found.
    Returns-bind _ (find_wallet p.vendor_wallet_id db) _ λ w _.
      Returns-require _ (is_status p.status awaiting_approval) conflict _ λ waiting. absurd (
        true-not-false (
          sym waiting
          ∙ Returns-ok (λ p. is_status p.status awaiting_approval ≡ false) (find_payment id db) p g
              found))

attempt-none :
    {A : Type 0} (m : Result A) (k : A → Outcome)
    → Returns (λ _. ⊥) m
    → (attempt m k).broadcast ≡ []
attempt-none (ok a) k h = absurd h
attempt-none (err e) k h = refl

-- On the database that a recorded release leaves, a call of `settle` for the payment broadcasts
-- nothing, with whatever gateway, time, secret and approver.
pub settle-once :
    (deps : Deps) (chain chain' : ChainGateway) (now now' : ℕ) (preimage preimage' : Text)
    (seconds seconds' : Option ℕ) (approver approver' id : Text) (db db' : Db)
    → (settle deps chain now preimage seconds approver id db).result ≡ ok db'
    → (settle deps chain' now' preimage' seconds' approver' id db').broadcast ≡ []
unfolding settle
settle-once deps chain chain' now now' preimage preimage' seconds seconds' approver approver' id db
      db' h =
    attempt-none (plan_settlement deps chain' id db') _ (
      Gone-no_plan deps chain' id db'
        (Returns-ok (Gone id) _ db' (settle-Gone deps chain now preimage seconds approver id db) h))
