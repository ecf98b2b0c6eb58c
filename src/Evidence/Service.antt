-- ===== src/Evidence/Service.antt =====
-- apps/api/src/modules/evidence/service.ts: appending to a payment's chain, and reading it.
pub mod Laws
use securtxn.Prelude.{
  ℕ, zero, suc, Bool, not, List, [], ◌∷◌, ◌++◌, Text, text_eq, any, Option, some, none,
  if◌then◌else◌, Result, ok, err, Error, require, invalid_value, unique_violation, ◌>>=◌, ◌>>◌,
  or_else, true, false, ltb, ◌==◌, ◌&&◌, ◌||◌,
}
use securtxn.Platform.{Platform}
use securtxn.Store.Rows.{PaymentRequest, Db}
use securtxn.Store.Queries.{find_payment, save_payment}
use securtxn.Evidence.Payload.{EvidenceEvent, evidence_accessed, EvidencePayload, payload_ok}
use securtxn.Evidence.Chain.{
  ChainRecord, ChainVerification, verify_chain, compute_record_hash, genesis_previous_hash,
}

-- Whether a record comes before one that was written later, by `createdAt` and then as ties go.
unfoldable pub comes_first : Platform → ChainRecord → ChainRecord → Bool
comes_first pf r later =
    ltb r.created_at later.created_at || (r.created_at == later.created_at && pf.ties_as_written)

-- `findFirst` in descending order. The list holds the records in the order of their insertion.
unfoldable pub latest : Platform → List ChainRecord → Option ChainRecord
latest pf [] = none
latest pf (r ∷ rs) = elim (latest pf rs) [
  | none ↦ some r
  | some s ↦ if comes_first pf r s then some s else some r
]

abbrev pub insert_record : Platform → ChainRecord → List ChainRecord → List ChainRecord
insert_record pf r [] = r ∷ []
insert_record pf r (s ∷ ss) =
    let later = insert_record pf r ss in if comes_first pf r s then r ∷ s ∷ ss else s ∷ later

-- `findMany` in ascending order.
unfoldable pub by_time : Platform → List ChainRecord → List ChainRecord
by_time pf [] = []
by_time pf (r ∷ rs) = insert_record pf r (by_time pf rs)

abbrev pub hash_of : Option ChainRecord → Text
hash_of none = genesis_previous_hash
hash_of (some r) = r.payload_hash

-- `tip?.payloadHash ?? GENESIS_PREVIOUS_HASH`
unfoldable pub previous_hash : Platform → List ChainRecord → Text
previous_hash pf rs = hash_of (latest pf rs)

-- The unique constraint on (paymentRequestId, previousRecordHash).
unfoldable pub links_to : Text → List ChainRecord → Bool
links_to h rs = any (λ r. text_eq r.previous_record_hash h) rs

abbrev payload_at : Platform → ℕ → Text → EvidenceEvent → EvidencePayload
payload_at pf now id event = record {
  payment_request_id = id;
  timestamp = pf.to_iso_string now;
  event = event;
}

-- Inside the caller's transaction: a refusal makes all of it fail.
unfoldable pub append : Platform → ℕ → EvidenceEvent → PaymentRequest → Result PaymentRequest
append pf now event p = do
  require (payload_ok pf (payload_at pf now p.id event)) invalid_value
  hash ← compute_record_hash pf (payload_at pf now p.id event) (previous_hash pf p.evidence_records)
  require (not (links_to (previous_hash pf p.evidence_records) p.evidence_records)) unique_violation
  ok (record p {
    evidence_records =
        p.evidence_records
        ++ record {
          payload = payload_at pf now p.id event;
          payload_hash = hash;
          previous_record_hash = previous_hash pf p.evidence_records;
          created_at = now;
        }
          ∷ [];
  })

-- `getChain`, without the list of records that it also returns.
unfoldable pub get_chain : Platform → Text → Db → Result ChainVerification
get_chain pf id db = do p ← find_payment id db; ok (verify_chain pf (by_time pf p.evidence_records))

abbrev pub max_append_attempts : ℕ
max_append_attempts = 3

-- `if (!isFork || attempt === MAX_APPEND_ATTEMPTS) throw err`
abbrev pub retry_or_throw : Error → ℕ → (Db → List Db → Result Db) → Db → List Db → Result Db
retry_or_throw unique_violation (suc left) again db (view ∷ views) = again view views
retry_or_throw unique_violation (suc left) again db [] = again db []
retry_or_throw e left again db views = err e

-- `appendStandalone`: each attempt runs on the database as other requests have left it, since a
-- lost race is what it retries. `views` holds what the attempts after the first will find.
unfoldable pub append_standalone : ℕ → (Db → Result Db) → Db → List Db → Result Db
append_standalone zero attempt db views = err unique_violation
append_standalone (suc left) attempt db views = elim (attempt db) [
  | ok db' ↦ ok db'
  | err e ↦ retry_or_throw e left (append_standalone left attempt) db views
]

-- One attempt of `recordAccess`.
unfoldable pub access_once : Platform → ℕ → Text → Text → Text → Db → Result Db
access_once pf now id actor_id actor_role db = do
  p ← find_payment id db
  q ← append pf now (evidence_accessed actor_id actor_role) p
  ok (save_payment q db)

-- `recordAccess`
unfoldable pub record_access : Platform → ℕ → Text → Text → Text → Db → List Db → Result Db
record_access pf now id actor_id actor_role =
    append_standalone max_append_attempts (access_once pf now id actor_id actor_role)
