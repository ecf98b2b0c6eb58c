-- ===== src/Anchor/Laws.antt =====
-- apps/api/src/modules/evidence/anchor.ts: what a proof of inclusion proves.
use securtxn.Prelude.{
  ℕ, Bool, suc, ◌≡◌, refl, sym, ap, true, false, Option, none, some, List, [], ◌∷◌, map, Text,
  text_eq, text_eq_iff, lower, get_elem?, arith, ok, Returns, Returns-bind, Returns-ok,
  Returns-require, present, present-eq-ok, not_found, conflict, unprocessable, bad_request, All,
  All-filter, if◌then◌else◌, filled, ◌&&◌, some-injective, both,
}
use mathlib.Core.Option
use securtxn.Platform.{Platform}
use securtxn.Store.Queries.{find, find-key}
use securtxn.Merkle.{MerkleProof, merkle_proof, verify_merkle_proof, build_tree}
use securtxn.Anchor.{
  EvidenceRow, AnchorRow, AnchorDb, to_anchor_summary, insert_record, in_order, is_in, batch_of,
  find_index, load, InclusionProof, inclusion_proof, leaf_of, proof_for,
}

All-insert_record :
    (P : EvidenceRow → Type 0) (a : EvidenceRow) (xs : List EvidenceRow)
    → P a
    → All P xs
    → All P (insert_record a xs)
All-insert_record P a [] p h = (p, tt)
All-insert_record P a (x ∷ xs) p h = ground (arith, All-insert_record P a xs p h.1, h, p)

All-in_order : (P : EvidenceRow → Type 0) (xs : List EvidenceRow) → All P xs → All P (in_order xs)
unfolding in_order
All-in_order P [] h = tt
All-in_order P (x ∷ xs) h = All-insert_record P x (in_order xs) h.0 (All-in_order P xs h.1)

-- A record of the batch satisfies what every record does, and belongs to the anchor.
abbrev InBatch : (EvidenceRow → Type 0) → Text → EvidenceRow → Type 0
InBatch P anchor_id r = P r × (is_in anchor_id r.anchor_id ≡ true)

batch_of-InBatch :
    (P : EvidenceRow → Type 0) (anchor_id : Text) (db : AnchorDb)
    → All P db.evidence_records
    → All (InBatch P anchor_id) (batch_of anchor_id db)
unfolding batch_of
batch_of-InBatch P anchor_id db h =
    All-in_order (InBatch P anchor_id) _
      (All-filter P (λ r. is_in anchor_id r.anchor_id) db.evidence_records h)

-- The record at an index that was found, and the leaf that stands there.
abbrev LeafAt : (EvidenceRow → Type 0) → Text → List EvidenceRow → ℕ → Type 0
LeafAt P k rs i =
    (b : EvidenceRow) × (get_elem? (map leaf_of rs) i ≡ some (leaf_of b)) × (b.id ≡ k) × P b

suc_inversion :
    (o : Option ℕ) (i : ℕ) → Option.map suc o ≡ some i → (j : ℕ) × (o ≡ some j) × (suc j ≡ i)
suc_inversion none i e = cc
suc_inversion (some j) i e = (j, refl, some-injective e)

one_further :
    (P : EvidenceRow → Type 0) (k : Text) (r : EvidenceRow) (rs : List EvidenceRow) (i j : ℕ)
    → suc j ≡ i
    → LeafAt P k rs j
    → LeafAt P k (r ∷ rs) i
one_further P k r rs i j e found = rw (sym e) found

find_index-step :
    (P : EvidenceRow → Type 0) (k : Text) (r : EvidenceRow) (rs : List EvidenceRow) (i : ℕ)
    (b : Bool)
    → P r
    → ((j : ℕ) → find_index k rs ≡ some j → LeafAt P k rs j)
    → text_eq r.id k ≡ b
    → (if b then some 0 else Option.map suc (find_index k rs)) ≡ some i
    → LeafAt P k (r ∷ rs) i
find_index-step P k r rs i true p later t e =
    rw (sym (some-injective e)) (r, refl, (text_eq_iff r.id k).0 t, p)
find_index-step P k r rs i false p later t e =
    let (j, found, next) = suc_inversion (find_index k rs) i e in
    one_further P k r rs i j next (later j found)

find_index-LeafAt :
    (P : EvidenceRow → Type 0) (k : Text) (rs : List EvidenceRow) (i : ℕ)
    → All P rs
    → find_index k rs ≡ some i
    → LeafAt P k rs i
unfolding find_index
find_index-LeafAt P k [] i h e = cc
find_index-LeafAt P k (r ∷ rs) i h e =
    find_index-step P k r rs i (text_eq r.id k) h.0 (λ j f. find_index-LeafAt P k rs j h.1 f) refl e

merkle_proof-leaf :
    (pf : Platform) (leaves : List Text) (i : ℕ)
    → Returns (λ p. get_elem? leaves i ≡ some p.leaf) (merkle_proof pf leaves i)
unfolding merkle_proof
merkle_proof-leaf pf leaves i =
    Returns-bind _ (present (get_elem? leaves i) bad_request) _ λ leaf there.
      Returns-bind (λ p. get_elem? leaves i ≡ some p.leaf) (build_tree pf leaves) _
        λ levels _. present-eq-ok (get_elem? leaves i) bad_request there

-- Ids are unique: every record is the one that its id finds.
abbrev pub IdsUnique : AnchorDb → Type 0
IdsUnique db = All (λ r. find (λ x. x.id) r.id db.evidence_records ≡ some r) db.evidence_records

-- What a proof of inclusion says of the record and of its anchor.
pub record Proves (pf : Platform) (db : AnchorDb) (k : Text) (p : InclusionProof) : Type 0 where
  pub of_record :
      (r : EvidenceRow) × (find (λ x. x.id) k db.evidence_records ≡ some r)
      × (p.leaf ≡ leaf_of r)
      × (p.payment_request_id ≡ r.payment_request_id)
      × (filled r.anchor_id ≡ some p.anchor.id)
  pub verifies :
      verify_merkle_proof pf
        (record { leaf = p.leaf; index = p.index; steps = p.steps; root = p.root })
      ≡ true
  pub anchored :
      (a : AnchorRow) × (load p.anchor.id db ≡ ok a)
      × (p.anchor ≡ to_anchor_summary pf a)
      × (lower p.root ≡ lower a.merkle_root)

same_record :
    (db : AnchorDb) (k : Text) (r b : EvidenceRow)
    → find (λ x. x.id) k db.evidence_records ≡ some r
    → find (λ x. x.id) b.id db.evidence_records ≡ some b
    → b.id ≡ r.id
    → b ≡ r
same_record db k r b found own same =
    let key : r.id ≡ k = find-key (λ x. x.id) k db.evidence_records r found in cc

pub load-id : (k : Text) (db : AnchorDb) (a : AnchorRow) → load k db ≡ ok a → a.id ≡ k
unfolding load
load-id k db a h =
    find-key (λ x. x.id) k db.evidence_anchors a
      (present-eq-ok (find (λ x. x.id) k db.evidence_anchors) not_found h)

own_leaf :
    (db : AnchorDb) (k anchor_id : Text) (r : EvidenceRow) (i : ℕ)
    → IdsUnique db
    → find (λ x. x.id) k db.evidence_records ≡ some r
    → find_index r.id (batch_of anchor_id db) ≡ some i
    → get_elem? (map leaf_of (batch_of anchor_id db)) i ≡ some (leaf_of r)
own_leaf db k anchor_id r i unique found at =
    let Own = InBatch (λ b. find (λ x. x.id) b.id db.evidence_records ≡ some b) anchor_id in
    let (b, there, same, own) =
      find_index-LeafAt Own r.id (batch_of anchor_id db) i (batch_of-InBatch _ anchor_id db unique)
        at in
    rw there (ap (λ x. some (leaf_of x)) (same_record db k r b found own.0 same))

proved :
    (pf : Platform) (db : AnchorDb) (k anchor_id : Text) (r : EvidenceRow) (a : AnchorRow) (i : ℕ)
    (p : MerkleProof)
    → IdsUnique db
    → find (λ x. x.id) k db.evidence_records ≡ some r
    → filled r.anchor_id ≡ some anchor_id
    → load anchor_id db ≡ ok a
    → find_index r.id (batch_of anchor_id db) ≡ some i
    → get_elem? (map leaf_of (batch_of anchor_id db)) i ≡ some p.leaf
    → (verify_merkle_proof pf p && text_eq (lower p.root) (lower a.merkle_root)) ≡ true
    → Proves pf db k (inclusion_proof pf r a p)
unfolding to_anchor_summary
proved pf db k anchor_id r a i p unique found anchored loaded at leaf good =
    let own = load-id anchor_id db a loaded in
    let there : load a.id db ≡ ok a = cc in
    let (valid, agrees) = both _ _ good in
    record {
      of_record = (
        r,
        found,
        some-injective (rw (sym leaf) (own_leaf db k anchor_id r i unique found at)),
        refl,
        rw own anchored,
      );
      verifies = valid;
      anchored = (a, there, refl, (text_eq_iff (lower p.root) (lower a.merkle_root)).0 agrees);
    }

-- Where ids are unique, a proof of inclusion that is given out carries the leaf of the record that
-- was asked for, verifies, and ends in the root of the anchor that the record belongs to.
pub proof_for-Proves :
    (pf : Platform) (db : AnchorDb) (k : Text) (p : InclusionProof)
    → IdsUnique db
    → proof_for pf k db ≡ ok p
    → Proves pf db k p
unfolding proof_for
proof_for-Proves pf db k p unique h =
    Returns-ok (Proves pf db k) _ p
      (Returns-bind (Proves pf db k) (present (find (λ r. r.id) k db.evidence_records) not_found) _
        λ r found.
          Returns-bind (Proves pf db k) (present (filled r.anchor_id) conflict) _
            λ anchor_id anchored. Returns-bind (Proves pf db k) (load anchor_id db) _ λ a loaded.
              Returns-bind (Proves pf db k)
                (present (find_index r.id (batch_of anchor_id db)) not_found) _
                λ i at.
                  Returns-bind (Proves pf db k)
                    (merkle_proof pf (map leaf_of (batch_of anchor_id db)) i) _
                    λ m made. Returns-require (Proves pf db k) _ unprocessable _ λ good.
                      proved pf db k anchor_id r a i m unique (present-eq-ok _ not_found found)
                        (present-eq-ok (filled r.anchor_id) conflict anchored) loaded
                        (present-eq-ok _ not_found at)
                        (Returns-ok _ _ m
                          (merkle_proof-leaf pf (map leaf_of (batch_of anchor_id db)) i) made)
                        good)
      h
