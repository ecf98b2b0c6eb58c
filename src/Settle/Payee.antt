-- ===== src/Settle/Payee.antt =====
-- apps/api/src/modules/payments/settle.ts: whom settle pays, how much, and on whose authority.
use securtxn.Prelude.{
  ℕ, Bool, true, false, not, not-true, ◌&&◌, ◌≡◌, refl, sym, ap, ◌∙◌, Text, Option, List, [], ◌∷◌,
  Result, ok, err, Returns, Returns-bind, Returns-require, Returns-ok, conflict, unprocessable,
  is_some, if◌then◌else◌,
}
use securtxn.Types.{is_status, awaiting_approval, is_htlc}
use securtxn.Deps.{Deps}
use securtxn.Htlc.{hashlock_for}
use securtxn.Store.Rows.{VendorWallet, Db}
use securtxn.Store.Queries.{find_payment, find_wallet}
use securtxn.Settle.{
  attempt, submit, sent_by_failure, Broadcast, transferred, funds_locked, funds_returned,
  ChainGateway, Outcome, Plan, plan_settlement, resolve_token, treasury_covers, settle_directly,
}
use securtxn.Settle.Units.{to_base_units}
use securtxn.Settle.Escrow.{lock_input, timelock_of, settle_through_escrow, carry_out, settle}
use securtxn.Lifecycle.{has_agreed, has_verdict, is_released}
use securtxn.Types.Laws.{is_status-eq}
use securtxn.Lifecycle.Steps.{Reached}
use securtxn.Lifecycle.Promises.{Reached-authorised}

-- The broadcast moves what the plan says, to the plan's payee.
abbrev pub Pays : Plan → Broadcast → Type 0
Pays plan (transferred token payee amount) =
    (token ≡ plan.token) × (payee ≡ plan.payee) × (amount ≡ plan.base_units)
Pays plan (funds_locked i) =
    (i.token ≡ plan.token) × (i.payee ≡ plan.payee) × (i.amount ≡ plan.base_units)
Pays plan (funds_returned lock_id) = ⊥

-- At most one broadcast, and one that pays by the plan.
unfoldable pub PaysOnce : Plan → List Broadcast → Type 0
PaysOnce plan [] = Unit
PaysOnce plan (b ∷ []) = Pays plan b
PaysOnce plan (b ∷ c ∷ bs) = ⊥

-- What a plan rests on.
pub record Payable (deps : Deps) (chain : ChainGateway) (id : Text) (db : Db) (plan : Plan)
    : Type 0 where
  pub found : find_payment id db ≡ ok plan.payment
  pub waiting : is_status (plan.payment).status awaiting_approval ≡ true
  pub no_escrow : is_some (plan.payment).htlc_settlement ≡ false
  pub wallet : VendorWallet
  pub wallet_found : find_wallet (plan.payment).vendor_wallet_id db ≡ ok wallet
  pub to_wallet : plan.payee ≡ wallet.address
  pub own_token : resolve_token deps (plan.payment).token wallet.token_contract db ≡ ok plan.token
  pub own_decimals : chain.decimals plan.token ≡ ok plan.decimals
  pub whole_amount :
      to_base_units (deps.platform.decimal_text (plan.payment).amount) plan.decimals
      ≡ ok plan.base_units
  pub covered : treasury_covers chain plan.token plan.base_units ≡ ok true

plan_settlement-Payable :
    (deps : Deps) (chain : ChainGateway) (id : Text) (db : Db)
    → Returns (Payable deps chain id db) (plan_settlement deps chain id db)
unfolding plan_settlement
plan_settlement-Payable deps chain id db = Returns-bind _ (find_payment id db) _ λ p found.
    Returns-bind _ (find_wallet p.vendor_wallet_id db) _ λ w here.
      Returns-require _ (is_status p.status awaiting_approval) conflict _ λ waiting.
        Returns-require _ (not (is_some p.htlc_settlement)) conflict _ λ free.
          Returns-bind _ (resolve_token deps p.token w.token_contract db) _ λ token resolved.
            Returns-bind _ (chain.decimals token) _ λ decimals known.
              Returns-bind _ (to_base_units (deps.platform.decimal_text p.amount) decimals) _
                λ units counted.
                  Returns-bind _ (treasury_covers chain token units) _ λ covered asked.
                    Returns-require _ covered unprocessable _ λ enough. record {
                      found = found;
                      waiting = waiting;
                      no_escrow = not-true (is_some p.htlc_settlement) free;
                      wallet = w;
                      wallet_found = here;
                      to_wallet = refl;
                      own_token = resolved;
                      own_decimals = known;
                      whole_amount = counted;
                      covered = asked ∙ ap ok enough;
                    }

sent-PaysOnce :
    (plan : Plan) (b : Broadcast) (c : Bool) → Pays plan b → PaysOnce plan (sent_by_failure b c)
unfolding PaysOnce
sent-PaysOnce plan b true p = p
sent-PaysOnce plan b false p = tt

submit-PaysOnce :
    {A : Type 0} (plan : Plan) (chain : ChainGateway) (b : Broadcast) (m : Result A)
    (k : A → Outcome)
    → Pays plan b
    → ((a : A) → PaysOnce plan (k a).broadcast)
    → PaysOnce plan (submit chain b m k).broadcast
submit-PaysOnce plan chain b (ok a) k p h = h a
submit-PaysOnce plan chain b (err e) k p h = sent-PaysOnce plan b (chain.sent_on_failure b) p

ite-PaysOnce :
    (plan : Plan) (c : Bool) (o u : Outcome)
    → PaysOnce plan o.broadcast
    → PaysOnce plan u.broadcast
    → PaysOnce plan (if c then o else u).broadcast
ite-PaysOnce plan true o u h k = h
ite-PaysOnce plan false o u h k = k

carry_out-PaysOnce :
    (deps : Deps) (chain : ChainGateway) (now : ℕ) (preimage : Text) (seconds : Option ℕ)
    (approver : Text) (plan : Plan) (db : Db)
    → PaysOnce plan (carry_out deps chain now preimage seconds approver plan db).broadcast
unfolding PaysOnce carry_out settle_directly settle_through_escrow
carry_out-PaysOnce deps chain now preimage seconds approver plan db =
    ite-PaysOnce plan (not (is_htlc plan.payment.settlement_mode)) _ _
      (submit-PaysOnce plan chain (transferred plan.token plan.payee plan.base_units)
        (chain.transfer plan.token plan.payee plan.base_units) _ (refl, refl, refl)
        λ tx. (refl, refl, refl))
      (ite-PaysOnce plan (deps.settlement_funding_payer && chain.broadcasts) _ _ tt (
        let input =
          lock_input plan (hashlock_for deps.platform preimage) (timelock_of deps now seconds) in
        submit-PaysOnce plan chain (funds_locked input) (chain.lock input) _ (refl, refl, refl)
          λ out. (refl, refl, refl)))

-- What stands behind whatever `settle` has broadcast.
pub record Authority (deps : Deps) (chain : ChainGateway) (id : Text) (db : Db)
    (bs : List Broadcast) : Type 0 where
  pub plan : Plan
  pub payable : Payable deps chain id db plan
  pub pays : PaysOnce plan bs
  pub agreed : has_agreed (plan.payment).payee_consent ≡ true
  pub verdict : has_verdict (plan.payment).decision ≡ true

attempt-some :
    {A : Type 0} (m : Result A) (k : A → Outcome) (b : Broadcast) (bs : List Broadcast)
    → (attempt m k).broadcast ≡ b ∷ bs
    → (a : A) × (m ≡ ok a) × ((attempt m k).broadcast ≡ (k a).broadcast)
attempt-some (ok a) k b bs h = (a, refl, refl)
attempt-some (err e) k b bs h = cc

-- In a reached database, what `settle` broadcasts, whether it then fails or not, is one transfer or
-- lock of the payment's whole amount, counted in the decimals of the token that the payment
-- resolves to, to the wallet that the payment names; the payment waits for approval and has no escrow,
-- its payee has accepted and its decision lets it proceed; and where the gateway broadcasts, the
-- treasury holds the sum.
pub settle-Authority :
    (deps : Deps) (chain : ChainGateway) (now : ℕ) (preimage : Text) (seconds : Option ℕ)
    (approver id : Text) (db : Db) (b : Broadcast) (bs : List Broadcast)
    → Reached deps db
    → (settle deps chain now preimage seconds approver id db).broadcast ≡ b ∷ bs
    → Authority deps chain id db (b ∷ bs)
unfolding settle
settle-Authority deps chain now preimage seconds approver id db b bs reached h =
    let (plan, planned, same) = attempt-some (plan_settlement deps chain id db) _ b bs h in
    let p =
      Returns-ok (Payable deps chain id db) _ plan (plan_settlement-Payable deps chain id db)
        planned in
    let (agreed, verdict) =
      Reached-authorised deps db id plan.payment reached p.found
        (ap is_released (is_status-eq (plan.payment).status awaiting_approval p.waiting)) in
    record {
      plan = plan;
      payable = p;
      pays =
          rw (sym h ∙ same) (carry_out-PaysOnce deps chain now preimage seconds approver plan db);
      agreed = agreed;
      verdict = verdict;
    }
