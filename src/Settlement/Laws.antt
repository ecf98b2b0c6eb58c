-- ===== src/Settlement/Laws.antt =====
-- apps/api/src/modules/payments/settlement.ts: the end of an escrow.
use securtxn.Prelude.{
  ℕ, false, not, ◌≡◌, refl, ap, ◌∙◌, Text, text_eq, lower, some, ok, err, conflict, unprocessable,
  Returns, Returns-bind, Returns-require, Returns-eq, Returns-ok, is_some, unique_violation,
}
use securtxn.Types.{is_locked, ExceptionType}
use securtxn.Deps.{Deps}
use securtxn.Htlc.{hashlock_for}
use securtxn.Platform.{Platform}
use securtxn.Evidence.Payload.{EvidenceEvent}
use securtxn.Evidence.Service.{append}
use securtxn.Evidence.Service.Laws.{append-Appended}
use securtxn.Exceptions.{create_within}
use securtxn.Store.Rows.{PaymentRequest, HtlcSettlement, Db}
use securtxn.Store.Queries.{find_payment, find_payment-save_payment, find_payment-id, save_payment}
use securtxn.Settlement.{
  load_settlement, record_claim, RecordClaimRequest, claimed_with, record_refund, refunded_with,
  is_expired,
}
use securtxn.Settle.Recover.{release_secret}
use securtxn.Settle.Recover.Laws.{load_settlement-found}

-- The payment's escrow is there and is not locked.
pub record Closed (id : Text) (db : Db) : Type 0 where
  pub payment : PaymentRequest
  pub escrow : HtlcSettlement
  pub loaded : load_settlement id db ≡ ok (payment, escrow)
  pub ended : is_locked escrow.status ≡ false

append-escrow :
    (pf : Platform) (now : ℕ) (event : EvidenceEvent) (p q : PaymentRequest)
    → append pf now event p ≡ ok q
    → (q.id ≡ p.id) × (q.htlc_settlement ≡ p.htlc_settlement)
append-escrow pf now event p q h =
    let e = (append-Appended pf now event p q h).result in
    (ap (λ r. r.id) e, ap (λ r. r.htlc_settlement) e)

saved-Closed :
    (id : Text) (p q : PaymentRequest) (s : HtlcSettlement) (db : Db)
    → find_payment id db ≡ ok p
    → q.id ≡ p.id
    → q.htlc_settlement ≡ some s
    → is_locked s.status ≡ false
    → Closed id (save_payment q db)
unfolding load_settlement
saved-Closed id p q s db found i e l = record {
  payment = q;
  escrow = s;
  loaded =
      rw (find_payment-save_payment id p q db found (i ∙ find_payment-id id db p found), e) refl;
  ended = l;
}

record_claim-Closed :
    (deps : Deps) (now : ℕ) (id : Text) (i : RecordClaimRequest) (db : Db)
    → Returns (Closed id) (record_claim deps now id i db)
unfolding record_claim claimed_with
record_claim-Closed deps now id i db = Returns-bind _ (load_settlement id db) _ λ found loaded.
    Returns-require _ (is_locked (found.1).status) conflict _ λ _.
      Returns-require _
        (text_eq (lower (hashlock_for deps.platform i.preimage)) (lower (found.1).hashlock))
        unprocessable _
        λ _.
          Returns-bind _ (append deps.platform now _ (claimed_with now i found.1 found.0)) _ λ q a.
            Returns-bind _ (append deps.platform now _ q) _ λ r b.
              let (j, e) = append-escrow deps.platform now _ _ q a in
              let (k, f) = append-escrow deps.platform now _ q r b in
              saved-Closed id found.0 r _ db (load_settlement-found id db found loaded).0 (k ∙ j)
                (f ∙ e) refl

create_within-escrow :
    (deps : Deps) (now : ℕ) (case_id : Text) (type : ExceptionType) (by : Text) (p : PaymentRequest)
    → Returns
        (λ q. (q.id ≡ p.id) × (q.htlc_settlement ≡ p.htlc_settlement))
        (create_within deps now case_id type by p)
unfolding create_within
create_within-escrow deps now case_id type by p =
    Returns-require _ (not (is_some p.exception_case)) unique_violation _ λ _.
      Returns-eq (λ q. (q.id ≡ p.id) × (q.htlc_settlement ≡ p.htlc_settlement)) _
        λ q h. append-escrow deps.platform now _ _ q h

record_refund-Closed :
    (deps : Deps) (now : ℕ) (case_id id tx : Text) (db : Db)
    → Returns (Closed id) (record_refund deps now case_id id tx db)
unfolding record_refund refunded_with
record_refund-Closed deps now case_id id tx db =
    Returns-bind _ (load_settlement id db) _ λ found loaded.
      Returns-require _ (is_locked (found.1).status) conflict _ λ _.
        Returns-require _ (is_expired now found.1) unprocessable _ λ _.
          Returns-bind _ (append deps.platform now _ (refunded_with now tx found.1 found.0)) _
            λ q a.
              Returns-bind _ (create_within deps now case_id ExceptionType.misdirect _ q) _ λ r b.
                let (j, e) = append-escrow deps.platform now _ _ q a in
                let (k, f) =
                  Returns-ok (λ r. (r.id ≡ q.id) × (r.htlc_settlement ≡ q.htlc_settlement)) _ r
                    (create_within-escrow deps now case_id ExceptionType.misdirect _ q) b in
                saved-Closed id found.0 r _ db (load_settlement-found id db found loaded).0 (k ∙ j)
                  (f ∙ e) refl

-- What is refused once the escrow is closed.
abbrev pub Refuses : Deps → Text → Db → Type 0
Refuses deps id db =
    ((now : ℕ) (i : RecordClaimRequest) → record_claim deps now id i db ≡ err conflict)
    × ((now : ℕ) (case_id tx : Text) → record_refund deps now case_id id tx db ≡ err conflict)
    × ((now : ℕ) (signature : Text) → release_secret deps now id signature db ≡ err conflict)

Closed-Refuses : (deps : Deps) (id : Text) (db : Db) → Closed id db → Refuses deps id db
unfolding record_claim record_refund release_secret
Closed-Refuses deps id db c = (
  λ now i. rw (c.loaded, c.ended) refl,
  λ now case_id tx. rw (c.loaded, c.ended) refl,
  λ now signature. rw (c.loaded, c.ended) refl,
)

-- On the database that a recorded claim leaves, another claim, a refund and the release of the
-- secret are all refused as conflicts, at any time.
pub record_claim-Refuses :
    (deps : Deps) (now : ℕ) (id : Text) (i : RecordClaimRequest) (db db' : Db)
    → record_claim deps now id i db ≡ ok db'
    → Refuses deps id db'
record_claim-Refuses deps now id i db db' h =
    Closed-Refuses deps id db'
      (Returns-ok (Closed id) _ db' (record_claim-Closed deps now id i db) h)

-- On the database that a recorded refund leaves, another refund, a claim and the release of the
-- secret are all refused as conflicts, at any time.
pub record_refund-Refuses :
    (deps : Deps) (now : ℕ) (case_id id tx : Text) (db db' : Db)
    → record_refund deps now case_id id tx db ≡ ok db'
    → Refuses deps id db'
record_refund-Refuses deps now case_id id tx db db' h =
    Closed-Refuses deps id db'
      (Returns-ok (Closed id) _ db' (record_refund-Closed deps now case_id id tx db) h)
