-- ===== src/Lifecycle/Promises.antt =====
-- The payment services of apps/api/src/modules, over every database that they reach.
use securtxn.Prelude.{true, ◌≡◌, sym, ap, ◌∙◌, Text, some, ok, is_some, arith}
use securtxn.Types.{claimed}
use securtxn.Deps.{Deps}
use securtxn.Store.Rows.{PaymentRequest, HtlcSettlement, Db}
use securtxn.Store.Queries.{find_payment}
use securtxn.Consent.Checks.{is_settled}
use securtxn.Lifecycle.{
  Good, authorised, has_agreed, has_verdict, is_released, escrow_fits, fits_by, opens,
}
use securtxn.Lifecycle.Appends.{find_payment-Good}
use securtxn.Lifecycle.Steps.{Reached, Reached-AllGood}

module _ (deps : Deps) (db : Db) (reached : Reached deps db) where
  found-Good : (id : Text) (p : PaymentRequest) → find_payment id db ≡ ok p → Good deps.platform p
  found-Good id p found =
      find_payment-Good deps.platform id db p found (Reached-AllGood deps db reached)

-- In every database that the operations reach, a payment that waits for approval, is approved, sent
-- or confirmed has the payee's acceptance and a decision that lets it proceed.
pub Reached-authorised :
    (deps : Deps) (db : Db) (id : Text) (p : PaymentRequest)
    → Reached deps db
    → find_payment id db ≡ ok p
    → is_released p.status ≡ true
    → (has_agreed p.payee_consent ≡ true) × (has_verdict p.decision ≡ true)
unfolding authorised
Reached-authorised deps db id p reached found released =
    let a = (found-Good deps db reached id p found).allowed in (ground arith, ground arith)

-- In every database that the operations reach, an escrow that is claimed belongs to a payment that
-- has settled, whose receipt is recorded, and the recorded secret hashes to the escrow's hashlock.
pub Reached-claimed :
    (deps : Deps) (db : Db) (id : Text) (p : PaymentRequest) (s : HtlcSettlement)
    → Reached deps db
    → find_payment id db ≡ ok p
    → p.htlc_settlement ≡ some s
    → s.status ≡ claimed
    → (is_settled p.status ≡ true)
      × (is_some p.recipient_ack ≡ true)
      × (opens deps.platform s s.preimage ≡ true)
unfolding escrow_fits
Reached-claimed deps db id p s reached found there c =
    let e : fits_by deps.platform p.status p.recipient_ack s claimed ≡ true =
      sym (ap (fits_by deps.platform p.status p.recipient_ack s) c)
      ∙ sym (ap (escrow_fits deps.platform p.status p.recipient_ack) there)
      ∙ (found-Good deps db reached id p found).escrow in
    (ground arith, ground arith, ground arith)
