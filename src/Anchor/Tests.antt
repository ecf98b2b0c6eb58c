-- ===== src/Anchor/Tests.antt =====
-- Two records, anchored in one batch; the mirror serves the message back at the second attempt.
use securtxn.Prelude.{
  ℕ, zero, suc, ◌≡◌, refl, Bool, true, false, none, some, [], ◌∷◌, Text, text_eq, text_lt, to_lower,
  codes, Result, ok, err, ◌++◌, ◌+◌,
}
use securtxn.Sample.{platform}
use securtxn.Merkle.{
  build_tree, top_of, levels_from, next_level, hash_node, hash_leaf, strip, apply_step,
  merkle_proof, run_steps, sibling, steps_from, verify_merkle_proof,
}
use securtxn.Evidence.Payload.{is_bytes32}
use securtxn.Store.Queries.{find, put}
use securtxn.Eip712.{with_prefix}
use securtxn.Anchor.Message.{is_positive_int, parse_message, read_message}
use securtxn.Platform.{Platform}
use securtxn.Json.{JsValue, string, number, object, field, end}
use securtxn.Anchor.{
  EvidenceRow, in_order, to_anchor_summary, verify_loaded, batch_of, find_index, AnchorDb,
  AnchorSummary, InclusionProof, proof_for, Served, Fetch, verify_anchor, load,
}
use securtxn.Anchor.Publish.{
  message_for, create_anchor, verify_with_retry, merkle_root, AnchorGateway, AnchorRun,
  AnchorRunResult, run, pending,
}
use securtxn.Anchor.Laws.{IdsUnique, Proves, proof_for-Proves}
use securtxn.Anchor.Verified.{Checked, verify_anchor-Checked}

-- Hashes of the right shape, one of few.
abbrev zeros : ℕ → Text
zeros zero = []
zeros (suc n) = b'0' ∷ zeros n

abbrev hashing : Platform
hashing = record platform { keccak256 = λ t. codes "0x" ++ zeros 64 }

abbrev record_of : Text → ℕ → EvidenceRow
record_of id t = record {
  id = id;
  payment_request_id = codes "p";
  payload_hash = codes "ab";
  created_at = t;
  anchor_id = none;
  hcs_anchor_tx_id = none;
}

abbrev before_run : AnchorDb
before_run = record {
  evidence_records = record_of (codes "e2") 7 ∷ record_of (codes "e1") 7 ∷ [];
  evidence_anchors = [];
}

abbrev printed : JsValue
printed = object (
    field (codes "v") (number (some (codes "1"))) (
      field (codes "kind") (string (codes "evidence-anchor")) (
        field (codes "root") (string (codes "0x" ++ zeros 64)) (
          field (codes "count") (number (some (codes "2")))
            (field (codes "submittedAt") (string (codes "2026-01-01T00:00:00.000Z")) end)))))

abbrev message : Served
message = record { contents = some printed; consensus_timestamp = codes "1700000000.5" }

abbrev served : Fetch
served _ = ok (some message)

abbrev fetched : ℕ → Fetch
fetched zero _ = ok none
fetched (suc i) k = served k

abbrev gateway : AnchorGateway
gateway = record {
  publish = λ m. ok (record {
    topic_id = codes "0.0.9";
    sequence_number = 4;
    consensus_timestamp = codes "1700000000.1";
    transaction_id = codes "tx";
    message_url = none;
  });
  sent_on_failure = λ m. false;
  read_at = λ i. 100 + i;
  fetch_at = fetched;
  broadcasts = true;
}

abbrev ran : AnchorRun
ran = run hashing gateway 50 (codes "a1") before_run

abbrev summary_of : Result AnchorRunResult → Bool
summary_of (ok r) = elim (r.anchor) [ none ↦ false | some s ↦ s.verified ]
summary_of (err e) = false

ran_verified : summary_of ran.result ≡ true
unfolding run pending in_order text_lt message_for merkle_root build_tree is_bytes32 top_of
    levels_from next_level hash_node create_anchor verify_with_retry verify_anchor load find text_eq
    is_positive_int parse_message read_message to_anchor_summary verify_loaded with_prefix hash_leaf
    strip to_lower put
ran_verified = refl

abbrev no_proof : InclusionProof
no_proof = record {
  evidence_record_id = [];
  payment_request_id = [];
  leaf = [];
  index = 0;
  steps = [];
  root = [];
  anchor = record {
    id = [];
    merkle_root = [];
    record_count = 0;
    topic_id = [];
    sequence_number = 0;
    consensus_timestamp = [];
    transaction_id = [];
    message_url = none;
    verified = false;
    created_at = [];
  };
}

abbrev proof_in : Result InclusionProof → InclusionProof
proof_in (ok p) = p
proof_in (err e) = no_proof

abbrev shown : InclusionProof
shown = proof_in (proof_for hashing (codes "e2") ran.db)

shown_given : proof_for hashing (codes "e2") ran.db ≡ ok shown
unfolding run pending in_order text_lt message_for merkle_root build_tree is_bytes32 top_of
    levels_from next_level hash_node create_anchor verify_with_retry verify_anchor load find text_eq
    is_positive_int parse_message read_message to_anchor_summary verify_loaded with_prefix hash_leaf
    strip to_lower put proof_for batch_of find_index apply_step merkle_proof run_steps sibling
    steps_from verify_merkle_proof
shown_given = refl

shown_second : shown.index ≡ 1
unfolding run pending in_order text_lt message_for merkle_root build_tree is_bytes32 top_of
    levels_from next_level hash_node create_anchor verify_with_retry verify_anchor load find text_eq
    is_positive_int parse_message read_message to_anchor_summary verify_loaded with_prefix hash_leaf
    strip to_lower put proof_for batch_of find_index apply_step merkle_proof run_steps sibling
    steps_from verify_merkle_proof
shown_second = refl

ran_unique : IdsUnique ran.db
unfolding run pending in_order text_lt message_for merkle_root build_tree is_bytes32 top_of
    levels_from next_level hash_node create_anchor verify_with_retry verify_anchor load find text_eq
    is_positive_int parse_message read_message to_anchor_summary verify_loaded with_prefix hash_leaf
    strip to_lower put
ran_unique = (refl, (refl, tt))

proof_for-Proves_example : Proves hashing ran.db (codes "e2") shown
proof_for-Proves_example = proof_for-Proves hashing ran.db (codes "e2") shown ran_unique shown_given

-- The same run, with a mirror that has not served the message yet.
abbrev unread : AnchorRun
unread = run hashing (record gateway { fetch_at = λ _ _. ok none }) 50 (codes "a1") before_run

abbrev checked_in : Result (AnchorSummary × AnchorDb) → AnchorSummary × AnchorDb
checked_in (ok out) = out
checked_in (err e) = (no_proof.anchor, before_run)

abbrev checked : AnchorSummary × AnchorDb
checked = checked_in (verify_anchor hashing served 100 (codes "a1") unread.db)

checked_given : verify_anchor hashing served 100 (codes "a1") unread.db ≡ ok checked
unfolding run pending in_order text_lt message_for merkle_root build_tree is_bytes32 top_of
    levels_from next_level hash_node create_anchor verify_with_retry verify_anchor load find text_eq
    is_positive_int parse_message read_message to_anchor_summary verify_loaded with_prefix hash_leaf
    strip to_lower put
checked_given = refl

verify_anchor-Checked_example : Checked hashing served 100 (codes "a1") unread.db checked
verify_anchor-Checked_example =
    verify_anchor-Checked hashing served 100 (codes "a1") unread.db checked checked_given
