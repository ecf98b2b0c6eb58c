-- ===== src/Anchor/Runs.antt =====
-- apps/api/src/modules/evidence/anchor.ts: what a run publishes, and what it then marks.
use securtxn.Prelude.{ℕ, ◌≡◌, [], ◌∷◌, map, Text, ok}
use securtxn.Platform.{Platform}
use securtxn.Anchor.{AnchorRow, AnchorDb, load}
use securtxn.Anchor.Publish.{
  pending, Message, message_for, AnchorReceipt, AnchorGateway, new_anchor, stamped, AnchorRunResult,
  AnchorRun,
}

abbrev SameRecords : AnchorDb → AnchorDb → Type 0
SameRecords db after = after.evidence_records ≡ db.evidence_records

-- The anchor is on file, with its root, its count and its place in the topic.
abbrev pub Stands : AnchorRow → AnchorDb → Type 0
Stands a db =
    (b : AnchorRow) × (load a.id db ≡ ok b)
    × (b.merkle_root ≡ a.merkle_root)
    × (b.record_count ≡ a.record_count)
    × (b.topic_id ≡ a.topic_id)
    × (b.sequence_number ≡ a.sequence_number)

abbrev Kept : AnchorRow → AnchorDb → AnchorDb → Type 0
Kept a db after = SameRecords db after × Stands a after

-- What a run did: nothing; a publication that could not be recorded; or an anchor of the message
-- that the pending records make, with those records marked and
-- the anchor on file.
pub data Ran (pf : Platform) (g : AnchorGateway) (now : ℕ) (new_id : Text) (db : AnchorDb)
    (out : AnchorRun) : Type 0 where
  idle :
      out.published ≡ []
      → out.db ≡ db
      → ((r : AnchorRunResult) → out.result ≡ ok r → pending db ≡ [])
      → Ran pf g now new_id db out
  unrecorded :
      (m : Message)
      → message_for pf now (pending db) ≡ ok m
      → out.published ≡ m ∷ []
      → out.db ≡ db
      → ((r : AnchorRunResult) → out.result ≡ ok r → ⊥)
      → Ran pf g now new_id db out
  marked :
      (m : Message) (receipt : AnchorReceipt)
      → message_for pf now (pending db) ≡ ok m
      → g.publish m ≡ ok receipt
      → out.published ≡ m ∷ []
      → out.db.evidence_records
        ≡ map (stamped (new_anchor now new_id m receipt) (pending db)) db.evidence_records
      → Stands (new_anchor now new_id m receipt) out.db
      → Ran pf g now new_id db out

module _ (pf : Platform) (g : AnchorGateway) (now : ℕ) (new_id : Text) (db : AnchorDb) (m : Message)
    (made : message_for pf now (pending db) ≡ ok m) where
  abbrev row : AnchorReceipt → AnchorRow
  row receipt = new_anchor now new_id m receipt

  abbrev Marked : AnchorReceipt → AnchorDb → Type 0
  Marked receipt after =
      (after.evidence_records ≡ map (stamped (row receipt) (pending db)) db.evidence_records)
      × Stands (row receipt) after
