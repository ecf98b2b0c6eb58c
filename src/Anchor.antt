-- ===== src/Anchor.antt =====
-- apps/api/src/modules/evidence/anchor.ts: the publication of Merkle roots and the proofs of
-- inclusion. The tables hold the columns that the service reads; the evidence of all payments is
-- one table here. What the topic answers to `publish` and `fetch` is a parameter.
pub mod Message
pub mod Publish
pub mod Laws
pub mod Verified
pub mod Runs
mod Tests
use securtxn.Prelude.{
  ℕ, suc, ◌==◌, Bool, not, ◌&&◌, ◌||◌, true, false, filled, Option, none, some, List, [], ◌∷◌, map,
  Text, text_eq, text_lt, lower, ltb, if◌then◌else◌, filter, Result, ok, err, present, require,
  ◌>>=◌, ◌>>◌, not_found, conflict, unprocessable,
}
use mathlib.Core.Option
use securtxn.Platform.{Platform}
use securtxn.Store.Queries.{find, put}
use securtxn.Eip712.{with_prefix}
use securtxn.Merkle.{MerkleProof, MerkleProofStep, merkle_proof, verify_merkle_proof}
use securtxn.Anchor.Message.{AnchorMessage, Contents, read_message}

pub record EvidenceRow : Type 0 where
  pub id : Text
  pub payment_request_id : Text
  pub payload_hash : Text
  pub created_at : ℕ
  pub anchor_id : Option Text
  pub hcs_anchor_tx_id : Option Text

pub record AnchorRow : Type 0 where
  pub id : Text
  pub merkle_root : Text
  pub record_count : ℕ
  pub topic_id : Text
  pub sequence_number : ℕ
  pub consensus_timestamp : Text
  pub transaction_id : Text
  pub message_url : Text
  pub verified : Bool
  pub verified_at : Option ℕ
  pub created_at : ℕ

pub record AnchorDb : Type 0 where
  pub evidence_records : List EvidenceRow
  pub evidence_anchors : List AnchorRow

pub record AnchorSummary : Type 0 where
  pub id : Text
  pub merkle_root : Text
  pub record_count : ℕ
  pub topic_id : Text
  pub sequence_number : ℕ
  pub consensus_timestamp : Text
  pub transaction_id : Text
  pub message_url : Option Text
  pub verified : Bool
  pub created_at : Text

abbrev pub url_of : Text → Option Text
url_of [] = none
url_of (c ∷ t) = some (c ∷ t)

unfoldable pub to_anchor_summary : Platform → AnchorRow → AnchorSummary
to_anchor_summary pf r = record {
  id = r.id;
  merkle_root = r.merkle_root;
  record_count = r.record_count;
  topic_id = r.topic_id;
  sequence_number = r.sequence_number;
  consensus_timestamp = r.consensus_timestamp;
  transaction_id = r.transaction_id;
  message_url = url_of r.message_url;
  verified = r.verified;
  created_at = pf.to_iso_string r.created_at;
}

-- `orderBy: [{ createdAt: "asc" }, { id: "asc" }]`
abbrev pub before : EvidenceRow → EvidenceRow → Bool
before a b = ltb a.created_at b.created_at || (a.created_at == b.created_at && text_lt a.id b.id)

abbrev pub insert_record : EvidenceRow → List EvidenceRow → List EvidenceRow
insert_record a [] = a ∷ []
insert_record a (x ∷ xs) = if before x a then x ∷ insert_record a xs else a ∷ x ∷ xs

unfoldable pub in_order : List EvidenceRow → List EvidenceRow
in_order [] = []
in_order (x ∷ xs) = insert_record x (in_order xs)

abbrev pub is_in : Text → Option Text → Bool
is_in k none = false
is_in k (some a) = text_eq a k

-- The records of an anchor, in the order in which its tree was built.
unfoldable pub batch_of : Text → AnchorDb → List EvidenceRow
batch_of anchor_id db = in_order (filter (λ r. is_in anchor_id r.anchor_id) db.evidence_records)

unfoldable pub find_index : Text → List EvidenceRow → Option ℕ
find_index k [] = none
find_index k (r ∷ rs) = if text_eq r.id k then some 0 else Option.map suc (find_index k rs)

unfoldable pub load : Text → AnchorDb → Result AnchorRow
load k db = present (find (λ a. a.id) k db.evidence_anchors) not_found

pub record InclusionProof : Type 0 where
  pub evidence_record_id : Text
  pub payment_request_id : Text
  pub leaf : Text
  pub index : ℕ
  pub steps : List MerkleProofStep
  pub root : Text
  pub anchor : AnchorSummary

abbrev pub leaf_of : EvidenceRow → Text
leaf_of r = with_prefix r.payload_hash

abbrev pub inclusion_proof : Platform → EvidenceRow → AnchorRow → MerkleProof → InclusionProof
inclusion_proof pf r anchor p = record {
  evidence_record_id = r.id;
  payment_request_id = r.payment_request_id;
  leaf = p.leaf;
  index = p.index;
  steps = p.steps;
  root = p.root;
  anchor = to_anchor_summary pf anchor;
}

-- The algorithm, which the answer also states, is a constant and left out.
unfoldable pub proof_for : Platform → Text → AnchorDb → Result InclusionProof
proof_for pf k db = present (find (λ r. r.id) k db.evidence_records) not_found >>= λ r.
    present (filled r.anchor_id) conflict >>= λ anchor_id. load anchor_id db >>= λ anchor.
    present (find_index r.id (batch_of anchor_id db)) not_found >>= λ index.
    merkle_proof pf (map leaf_of (batch_of anchor_id db)) index >>= λ p.
    require (verify_merkle_proof pf p && text_eq (lower p.root) (lower anchor.merkle_root))
      unprocessable
    >> ok (inclusion_proof pf r anchor p)

pub record Served : Type 0 where
  pub contents : Contents
  pub consensus_timestamp : Text

-- What `gateway.fetch` answers for a sequence number; none where the mirror has not served it.
abbrev pub Fetch : Type 0
Fetch = ℕ → Result (Option Served)

abbrev pub served_with : ℕ → Served → AnchorRow → AnchorRow
served_with now m a = record a {
  verified = true;
  verified_at = some now;
  consensus_timestamp = m.consensus_timestamp;
}

abbrev pub save_anchor : AnchorRow → AnchorDb → AnchorDb
save_anchor a db = record db { evidence_anchors = put (λ x. x.id) a db.evidence_anchors }

unfoldable pub verify_loaded :
    Platform → Fetch → ℕ → AnchorRow → AnchorDb → Result (AnchorSummary × AnchorDb)
verify_loaded pf fetch now anchor db = fetch anchor.sequence_number >>= λ answer.
    present answer conflict >>= λ m. read_message pf m.contents >>= λ published.
    require (text_eq (lower published.root) (lower anchor.merkle_root)) unprocessable
    >> (let updated = served_with now m anchor in
        ok (to_anchor_summary pf updated, save_anchor updated db))

-- `verify`
unfoldable pub verify_anchor :
    Platform → Fetch → ℕ → Text → AnchorDb → Result (AnchorSummary × AnchorDb)
verify_anchor pf fetch now k db = load k db >>= λ anchor.
    if anchor.verified
    then ok (to_anchor_summary pf anchor, db)
    else verify_loaded pf fetch now anchor db
