-- ===== src/Anchor/Publish.antt =====
-- apps/api/src/modules/evidence/anchor.ts: `run` and `verifyWithRetry`. The root is published before
-- the database is touched, so an outcome says what was published and which database is left.
use securtxn.Prelude.{
  ℕ, zero, suc, ◌+◌, ◌==◌, Bool, true, false, not, ◌&&◌, ◌||◌, Option, none, some, List, [], ◌∷◌,
  ◌++◌, map, Text, text_eq, any, filter, length, if◌then◌else◌, Result, ok, err, require, ◌>>=◌,
  ◌>>◌, Error, unprocessable, unique_violation, invalid_value, is_some, or_else,
}
use securtxn.Platform.{Platform}
use securtxn.Evidence.Payload.{is_bytes32}
use securtxn.Merkle.{build_tree, top_of}
use securtxn.Anchor.{
  EvidenceRow, AnchorRow, AnchorDb, AnchorSummary, to_anchor_summary, in_order, leaf_of, Fetch,
  verify_anchor,
}

abbrev pub take : ℕ → List EvidenceRow → List EvidenceRow
take zero xs = []
take (suc n) [] = []
take (suc n) (x ∷ xs) = x ∷ take n xs

abbrev pub max_batch : ℕ
max_batch = 5000

-- The records that are not anchored, the oldest first, as many as a batch holds.
unfoldable pub pending : AnchorDb → List EvidenceRow
pending db = take max_batch (in_order (filter (λ r. not (is_some r.anchor_id)) db.evidence_records))

-- The message before it is printed; its version and kind are constants.
pub record Message : Type 0 where
  pub root : Text
  pub count : ℕ
  pub submitted_at : Text

unfoldable pub merkle_root : Platform → List Text → Result Text
merkle_root pf leaves = build_tree pf leaves >>= λ levels. ok (top_of levels)

-- `AnchorMessage.parse` on what `run` puts together; the count is that of a batch with a record.
unfoldable pub message_for : Platform → ℕ → List EvidenceRow → Result Message
message_for pf now batch = merkle_root pf (map leaf_of batch) >>= λ root.
    require (is_bytes32 root && pf.is_datetime (pf.to_iso_string now)) invalid_value
    >> ok (record { root = root; count = length batch; submitted_at = pf.to_iso_string now })

pub record AnchorReceipt : Type 0 where
  pub topic_id : Text
  pub sequence_number : ℕ
  pub consensus_timestamp : Text
  pub transaction_id : Text
  pub message_url : Option Text

pub record AnchorGateway : Type 0 where
  pub publish : Message → Result AnchorReceipt
  -- whether `publish` had submitted the message to the topic before it threw
  pub sent_on_failure : Message → Bool
  -- the clock and what `fetch` answers at each attempt to read the message back
  pub read_at : ℕ → ℕ
  pub fetch_at : ℕ → Fetch
  pub broadcasts : Bool

abbrev pub new_anchor : ℕ → Text → Message → AnchorReceipt → AnchorRow
new_anchor now new_id m r = record {
  id = new_id;
  merkle_root = m.root;
  record_count = m.count;
  topic_id = r.topic_id;
  sequence_number = r.sequence_number;
  consensus_timestamp = r.consensus_timestamp;
  transaction_id = r.transaction_id;
  message_url = or_else r.message_url [];
  verified = false;
  verified_at = none;
  created_at = now;
}

-- The primary key, and the unique indexes on the root and on the place in the topic.
abbrev pub clashes : AnchorRow → AnchorRow → Bool
clashes a b =
    text_eq b.id a.id
    || text_eq b.merkle_root a.merkle_root
    || (text_eq b.topic_id a.topic_id && b.sequence_number == a.sequence_number)

abbrev pub stamped : AnchorRow → List EvidenceRow → EvidenceRow → EvidenceRow
stamped a batch r =
    if any (λ b. text_eq b.id r.id) batch
    then record r { anchor_id = some a.id; hcs_anchor_tx_id = some a.transaction_id }
    else r

-- The transaction of `run`.
unfoldable pub create_anchor : AnchorRow → List EvidenceRow → AnchorDb → Result AnchorDb
create_anchor a batch db =
    require (not (any (clashes a) db.evidence_anchors)) unique_violation
    >> ok (record {
      evidence_records = map (stamped a batch) db.evidence_records;
      evidence_anchors = db.evidence_anchors ++ a ∷ [];
    })

abbrev pub is_unprocessable : Error → Bool
is_unprocessable unprocessable = true
is_unprocessable _ = false

-- What an attempt means: its answer, a refusal that is thrown on, or one attempt more.
abbrev pub attempt_or :
    Result (AnchorSummary × AnchorDb)
    → Result (Option AnchorSummary × AnchorDb)
    → Result (Option AnchorSummary × AnchorDb)
attempt_or (ok (summary, db)) again = ok (some summary, db)
attempt_or (err e) again = if is_unprocessable e then err e else again

-- The loop of `verifyWithRetry`, with the attempts that are left and the one to make.
unfoldable pub verify_with_retry :
    Platform → AnchorGateway → ℕ → ℕ → Text → AnchorDb → Result (Option AnchorSummary × AnchorDb)
verify_with_retry pf g zero i k db = ok (none, db)
verify_with_retry pf g (suc left) i k db =
    attempt_or (verify_anchor pf (g.fetch_at i) (g.read_at i) k db)
      (verify_with_retry pf g left (i + 1) k db)

pub record AnchorRunResult : Type 0 where
  pub records_anchored : ℕ
  pub anchor : Option AnchorSummary
  pub broadcast : Bool

pub record AnchorRun : Type 0 where
  pub published : List Message
  pub db : AnchorDb
  pub result : Result AnchorRunResult

abbrev pub run_result : AnchorGateway → ℕ → AnchorSummary → AnchorRunResult
run_result g count summary = record {
  records_anchored = count;
  anchor = some summary;
  broadcast = g.broadcasts;
}

abbrev pub read_back :
    Platform
    → AnchorGateway
    → Message
    → AnchorRow
    → AnchorDb
    → Result (Option AnchorSummary × AnchorDb)
    → AnchorRun
read_back pf g m a db (err e) = record { published = m ∷ []; db = db; result = err e }
read_back pf g m a db (ok (summary, after)) = record {
  published = m ∷ [];
  db = after;
  result = ok (run_result g m.count (or_else summary (to_anchor_summary pf a)));
}

abbrev pub recorded :
    Platform → AnchorGateway → Message → AnchorRow → AnchorDb → Result AnchorDb → AnchorRun
recorded pf g m a db (err e) = record { published = m ∷ []; db = db; result = err e }
recorded pf g m a db (ok saved) = read_back pf g m a saved (verify_with_retry pf g 3 0 a.id saved)

-- The gateway submits a message and then waits for its receipt, so it may throw after the submission.
abbrev pub sent_by_failure : Message → Bool → List Message
sent_by_failure m true = m ∷ []
sent_by_failure m false = []

abbrev pub submitted :
    Platform
    → AnchorGateway
    → ℕ
    → Text
    → List EvidenceRow
    → AnchorDb
    → Message
    → Result AnchorReceipt
    → AnchorRun
submitted pf g now new_id batch db m (err e) = record {
  published = sent_by_failure m (g.sent_on_failure m);
  db = db;
  result = err e;
}
submitted pf g now new_id batch db m (ok receipt) =
    let a = new_anchor now new_id m receipt in recorded pf g m a db (create_anchor a batch db)

abbrev pub publish_batch :
    Platform → AnchorGateway → ℕ → Text → List EvidenceRow → AnchorDb → Result Message → AnchorRun
publish_batch pf g now new_id batch db (err e) = record { published = []; db = db; result = err e }
publish_batch pf g now new_id batch db (ok m) = submitted pf g now new_id batch db m (g.publish m)

-- A batch without a record is a success, and nothing is published.
abbrev pub run_pending :
    Platform → AnchorGateway → ℕ → Text → AnchorDb → List EvidenceRow → AnchorRun
run_pending pf g now new_id db [] = record {
  published = [];
  db = db;
  result = ok (record { records_anchored = 0; anchor = none; broadcast = g.broadcasts });
}
run_pending pf g now new_id db (r ∷ rs) =
    publish_batch pf g now new_id (r ∷ rs) db (message_for pf now (r ∷ rs))

-- `run`
unfoldable pub run : Platform → AnchorGateway → ℕ → Text → AnchorDb → AnchorRun
run pf g now new_id db = run_pending pf g now new_id db (pending db)
