-- ===== src/Evidence/Service/Laws.antt =====
-- apps/api/src/modules/evidence/service.ts: what append does to a payment.
use securtxn.Prelude.{
  ℕ, ◌≤◌, true, some, All, arith, ◌≡◌, refl, sym, ◌∙◌, List, [], ◌∷◌, ◌++◌, ok, ok-injective,
  >>=-split, require, not, invalid_value, unique_violation,
}
use securtxn.Platform.{Platform}
use securtxn.Store.Rows.{PaymentRequest}
use securtxn.Evidence.Payload.{EvidenceEvent, EvidencePayload, payload_ok}
use securtxn.Evidence.Chain.{ChainRecord, genesis_previous_hash, compute_record_hash}
use securtxn.Evidence.Chain.Laws.{tip, Holds, Holds-snoc}
use securtxn.Evidence.Service.{
  comes_first, latest, insert_record, by_time, previous_hash, links_to, append,
}

-- The records were written in the order of their times, and ties are returned as they were written.
abbrev pub Ascending : List ChainRecord → Type 0
Ascending [] = Unit
Ascending (r ∷ rs) = All (λ s. r.created_at ≤ s.created_at) rs × Ascending rs

abbrev pub InOrder : Platform → List ChainRecord → Type 0
InOrder pf rs = (pf.ties_as_written ≡ true) × Ascending rs

-- The records hold from genesis, where they stand in order.
pub record ChainHolds (pf : Platform) (rs : List ChainRecord) : Type 0 where
  pub chained : InOrder pf rs → Holds pf genesis_previous_hash rs

abbrev pub HasChain : Platform → PaymentRequest → Type 0
HasChain pf p = ChainHolds pf p.evidence_records

pub empty-HasChain : (pf : Platform) → ChainHolds pf []
empty-HasChain pf = record { chained = λ _. tt }

comes_first-le :
    (pf : Platform) (r s : ChainRecord)
    → pf.ties_as_written ≡ true
    → r.created_at ≤ s.created_at
    → comes_first pf r s ≡ true
unfolding comes_first
comes_first-le pf r s ties h = ground arith

All-before : (P : ChainRecord → Type 0) (rs ss : List ChainRecord) → All P (rs ++ ss) → All P rs
All-before P [] ss h = tt
All-before P (r ∷ rs) ss h = (h.0, All-before P rs ss h.1)

before-Ascending : (rs ss : List ChainRecord) → Ascending (rs ++ ss) → Ascending rs
before-Ascending [] ss h = tt
before-Ascending (s ∷ rs) ss h =
    (All-before (λ x. s.created_at ≤ x.created_at) rs ss h.0, before-Ascending rs ss h.1)

-- What `findFirst` returns on records in order.
abbrev Latest : Platform → ChainRecord → List ChainRecord → Type 0
Latest pf r rs =
    (s : ChainRecord) × (latest pf (r ∷ rs) ≡ some s)
    × (s.payload_hash ≡ tip r.payload_hash rs)
    × (r.created_at ≤ s.created_at)

latest_lem :
    (pf : Platform) (r : ChainRecord) (rs : List ChainRecord) → InOrder pf (r ∷ rs) → Latest pf r rs
unfolding latest
latest_lem pf r [] h = (r, refl, refl, omega arith)
latest_lem pf r (t ∷ ts) (ties, (first, rest)) =
    let (s, found, hash, after) = latest_lem pf t ts (ties, rest) in
    let up : r.created_at ≤ s.created_at = omega (arith, first.0, after) in
    (s, rw (found, comes_first-le pf r s ties up) refl, hash, up)

previous_hash-eq-tip :
    (pf : Platform) (rs : List ChainRecord)
    → InOrder pf rs
    → previous_hash pf rs ≡ tip genesis_previous_hash rs
unfolding previous_hash latest
previous_hash-eq-tip pf [] h = refl
previous_hash-eq-tip pf (r ∷ rs) h = let (s, found, hash, _) = latest_lem pf r rs h in rw found hash

insert_record-cons :
    (pf : Platform) (r : ChainRecord) (rs : List ChainRecord)
    → pf.ties_as_written ≡ true
    → All (λ s. r.created_at ≤ s.created_at) rs
    → insert_record pf r rs ≡ r ∷ rs
insert_record-cons pf r [] ties h = refl
insert_record-cons pf r (s ∷ ss) ties h = rw (comes_first-le pf r s ties h.0) refl

-- Records that stand in order are read in that order.
pub by_time-id : (pf : Platform) (rs : List ChainRecord) → InOrder pf rs → by_time pf rs ≡ rs
unfolding by_time
by_time-id pf [] h = refl
by_time-id pf (r ∷ rs) (ties, (first, rest)) =
    rw (by_time-id pf rs (ties, rest)) (insert_record-cons pf r rs ties first)

-- What a successful append has done.
pub record Appended (pf : Platform) (p q : PaymentRequest) : Type 0 where
  pub new_record : ChainRecord
  pub result : q ≡ record p { evidence_records = p.evidence_records ++ new_record ∷ [] }
  pub linked : new_record.previous_record_hash ≡ previous_hash pf p.evidence_records
  pub hashed :
      compute_record_hash pf new_record.payload new_record.previous_record_hash
      ≡ ok new_record.payload_hash

pub append-Appended :
    (pf : Platform) (now : ℕ) (event : EvidenceEvent) (p q : PaymentRequest)
    → append pf now event p ≡ ok q
    → Appended pf p q
unfolding append
append-Appended pf now event p q h =
    let payload : EvidencePayload = record {
      payment_request_id = p.id;
      timestamp = pf.to_iso_string now;
      event = event;
    } in
    let previous = previous_hash pf p.evidence_records in
    let (_, h₁, _) = >>=-split _ (require (payload_ok pf payload) invalid_value) h in
    let (hash, h₂, hashed) = >>=-split _ (compute_record_hash pf payload previous) h₁ in
    let (_, h₃, _) =
      >>=-split _ (require (not (links_to previous p.evidence_records)) unique_violation) h₂ in
    record {
      new_record = record {
        payload = payload;
        payload_hash = hash;
        previous_record_hash = previous;
        created_at = now;
      };
      result = sym (ok-injective h₃);
      linked = refl;
      hashed = hashed;
    }

pub append-HasChain :
    (pf : Platform) (now : ℕ) (event : EvidenceEvent) (p q : PaymentRequest)
    → append pf now event p ≡ ok q
    → HasChain pf p
    → HasChain pf q
append-HasChain pf now event p q h c =
    let a = append-Appended pf now event p q h in
    rw a.result (record {
      chained = λ (ties, up).
          let before : InOrder pf p.evidence_records =
            (ties, before-Ascending p.evidence_records (a.new_record ∷ []) up) in
          Holds-snoc pf genesis_previous_hash p.evidence_records a.new_record (c.chained before)
            (a.linked ∙ previous_hash-eq-tip pf p.evidence_records before) a.hashed;
    })
