-- ===== src/Lifecycle/Appends.antt =====
-- apps/api/src/modules/evidence/service.ts: the invariant through reads, writes and append.
use securtxn.Prelude.{
  ℕ, ◌≡◌, ap, ◌∙◌, Text, true, false, refl, Option, some, ok, present-eq-ok, not_found, Bool, none,
  arith,
}
use securtxn.Types.Laws.{is_status-eq}
use securtxn.Platform.{Platform}
use securtxn.Evidence.Payload.{EvidenceEvent}
use securtxn.Evidence.Service.{append}
use securtxn.Evidence.Service.Laws.{append-Appended, append-HasChain}
use securtxn.Store.Rows.{PaymentRequest, Db}
use securtxn.Store.Queries.{find, find-All, put-All, find_payment, save_payment}
use securtxn.Types.{
  PaymentStatus, is_status, draft, awaiting_payee_consent, decision_pending, awaiting_approval,
  HtlcStatus, pending_lock, locked, claimed, refunded, approved, sent, confirmed_on_chain,
  exception,
}
use securtxn.Store.Rows.{HtlcSettlement, RecipientAcknowledgment}
use securtxn.Lifecycle.{Good, AllGood, authorised, escrow_fits, fits_by}
use securtxn.Consent.Checks.{is_settled}

pub append-Good :
    (pf : Platform) (now : ℕ) (event : EvidenceEvent) (p q : PaymentRequest)
    → append pf now event p ≡ ok q
    → Good pf p
    → Good pf q
append-Good pf now event p q h g =
    let e = (append-Appended pf now event p q h).result in
    record {
      chain = append-HasChain pf now event p q h g.chain;
      allowed = ap (λ r. authorised r.status r.payee_consent r.decision) e ∙ g.allowed;
      escrow = ap (λ r. escrow_fits pf r.status r.recipient_ack r.htlc_settlement) e ∙ g.escrow;
    }

pub find_payment-Good :
    (pf : Platform) (id : Text) (db : Db) (p : PaymentRequest)
    → find_payment id db ≡ ok p
    → AllGood pf db
    → Good pf p
unfolding find_payment
find_payment-Good pf id db p h g =
    find-All (Good pf) (λ q. q.id) id db.payment_requests p g
      (present-eq-ok (find (λ q. q.id) id db.payment_requests) not_found h)

pub save_payment-AllGood :
    (pf : Platform) (q : PaymentRequest) (db : Db)
    → AllGood pf db
    → Good pf q
    → AllGood pf (save_payment q db)
unfolding save_payment
save_payment-AllGood pf q db g h = put-All (Good pf) (λ r. r.id) q db.payment_requests g h

-- A status before approval, at which no escrow can exist.
abbrev pub is_early : PaymentStatus → Bool
is_early draft = Bool.true
is_early awaiting_payee_consent = Bool.true
is_early decision_pending = Bool.true
is_early awaiting_approval = Bool.true
is_early _ = Bool.false

is_early-others :
    (st : PaymentStatus)
    → is_early st ≡ true
    → (is_status st approved ≡ false) × (is_settled st ≡ false) × (is_status st exception ≡ false)
unfolding is_status
is_early-others draft e = (refl, refl, refl)
is_early-others awaiting_payee_consent e = (refl, refl, refl)
is_early-others decision_pending e = (refl, refl, refl)
is_early-others awaiting_approval e = (refl, refl, refl)
is_early-others approved e = cc
is_early-others sent e = cc
is_early-others confirmed_on_chain e = cc
is_early-others exception e = cc

fits_by-early :
    (pf : Platform) (st : PaymentStatus) (a : Option RecipientAcknowledgment) (s : HtlcSettlement)
    (h : HtlcStatus)
    → is_early st ≡ true
    → fits_by pf st a s h ≡ true
    → ⊥
fits_by-early pf st a s pending_lock e f = let o = is_early-others st e in cc
fits_by-early pf st a s locked e f = let o = is_early-others st e in cc
fits_by-early pf st a s claimed e f = let o = is_early-others st e in ground arith
fits_by-early pf st a s refunded e f = let o = is_early-others st e in cc

-- No escrow before approval.
pub no_escrow-is_early :
    (pf : Platform) (st : PaymentStatus) (a : Option RecipientAcknowledgment)
    (h : Option HtlcSettlement)
    → is_early st ≡ true
    → escrow_fits pf st a h ≡ true
    → h ≡ none
unfolding escrow_fits
no_escrow-is_early pf st a none e f = cc
no_escrow-is_early pf st a (some s) e f = absurd (fits_by-early pf st a s s.status e f)

-- A payment that is still early stays good when it changes status within the rules: nothing is
-- asked of an escrow, since it has none.
pub early-Good :
    (pf : Platform) (p q : PaymentRequest)
    → Good pf p
    → is_early p.status ≡ true
    → q.evidence_records ≡ p.evidence_records
    → q.htlc_settlement ≡ p.htlc_settlement
    → authorised q.status q.payee_consent q.decision ≡ true
    → Good pf q
unfolding escrow_fits
early-Good pf p q g e r h a =
    let none_there =
      h ∙ no_escrow-is_early pf p.status p.recipient_ack p.htlc_settlement e g.escrow in
    record { chain = rw r g.chain; allowed = a; escrow = rw none_there refl }

-- A payment whose status, agreement, verdict, receipt and escrow stay is still good.
pub same-Good :
    (pf : Platform) (p q : PaymentRequest)
    → Good pf p
    → q.evidence_records ≡ p.evidence_records
    → q.status ≡ p.status
    → q.payee_consent ≡ p.payee_consent
    → q.decision ≡ p.decision
    → escrow_fits pf q.status q.recipient_ack q.htlc_settlement ≡ true
    → Good pf q
same-Good pf p q g r s c d e = record {
  chain = rw r g.chain;
  allowed = rw (s, c, d) g.allowed;
  escrow = e;
}

pub is_early-is_status :
    (s t : PaymentStatus) → is_status s t ≡ true → is_early t ≡ true → is_early s ≡ true
is_early-is_status s t h e = ap is_early (is_status-eq s t h) ∙ e
