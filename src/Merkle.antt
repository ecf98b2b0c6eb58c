-- ===== src/Merkle.antt =====
-- packages/contracts/src/evidence/merkle.ts: trees over the hashes of evidence records, proofs of
-- inclusion, and their verification.
pub mod Laws
pub mod Root
mod Tests
use securtxn.Prelude.{
  ℕ, zero, suc, ◌+◌, ◌-◌, ◌/◌, ◌%◌, ◌==◌, Bool, true, false, Option, none, some, List, [], ◌∷◌,
  ◌++◌, map, Text, codes, text_eq, lower, length, get_elem?, if◌then◌else◌, Result, ok, err,
  present, require, bad_request, ◌>>=◌, ◌>>◌, not,
}
use securtxn.Platform.{Platform}

-- `strip`
unfoldable pub strip : Text → Text
strip (z ∷ x ∷ t) =
    if z == b'0' then (if x == b'x' then lower t else lower (z ∷ x ∷ t)) else lower (z ∷ x ∷ t)
strip t = lower t

unfoldable pub hash_leaf : Platform → Text → Text
hash_leaf pf leaf = pf.keccak256 (codes "0x00" ++ strip leaf)

unfoldable pub hash_node : Platform → Text → Text → Text
hash_node pf left right = pf.keccak256 (codes "0x01" ++ strip left ++ strip right)

-- One round of the loop in `buildTree`: pairs are hashed, an odd last node is promoted.
unfoldable pub next_level : Platform → List Text → List Text
next_level pf [] = []
next_level pf (a ∷ []) = a ∷ []
next_level pf (a ∷ b ∷ r) = hash_node pf a b ∷ next_level pf r

-- The levels from this one to the root. A level of n nodes takes n units of fuel at most.
unfoldable pub levels_from : Platform → ℕ → List Text → List (List Text)
levels_from pf fuel [] = [] ∷ []
levels_from pf fuel (a ∷ []) = (a ∷ []) ∷ []
levels_from pf zero (a ∷ b ∷ r) = (a ∷ b ∷ r) ∷ []
levels_from pf (suc fuel) (a ∷ b ∷ r) =
    (a ∷ b ∷ r) ∷ levels_from pf fuel (next_level pf (a ∷ b ∷ r))

abbrev pub is_empty : List Text → Bool
is_empty [] = true
is_empty (_ ∷ _) = false

-- `buildTree`
unfoldable pub build_tree : Platform → List Text → Result (List (List Text))
build_tree pf leaves = do
  require (not (is_empty leaves)) bad_request
  ok (levels_from pf (length leaves) (map (hash_leaf pf) leaves))

pub data Side : Type 0 where
  left right : Side

pub record MerkleProofStep : Type 0 where
  pub hash : Text
  pub position : Side

pub record MerkleProof : Type 0 where
  pub leaf : Text
  pub index : ℕ
  pub steps : List MerkleProofStep
  pub root : Text

abbrev pub step_of : Side → Option Text → Option MerkleProofStep
step_of side none = none
step_of side (some h) = some (record { hash = h; position = side })

-- The sibling of a position in a level, with its side; none for a node that was promoted.
unfoldable pub sibling : List Text → ℕ → Option MerkleProofStep
sibling nodes position =
    if position % 2 == 1
    then step_of left (get_elem? nodes (position - 1))
    else step_of right (get_elem? nodes (position + 1))

abbrev pub push_step : Option MerkleProofStep → List MerkleProofStep → List MerkleProofStep
push_step none steps = steps
push_step (some s) steps = s ∷ steps

-- The loop of `merkleProof` over all levels but the last.
unfoldable pub steps_from : List (List Text) → ℕ → List MerkleProofStep
steps_from [] position = []
steps_from (top ∷ []) position = []
steps_from (nodes ∷ above ∷ levels) position =
    push_step (sibling nodes position) (steps_from (above ∷ levels) (position / 2))

-- `levels[levels.length - 1]![0]!`
unfoldable pub top_of : List (List Text) → Text
top_of [] = []
top_of ([] ∷ []) = []
top_of ((root ∷ _) ∷ []) = root
top_of (nodes ∷ above ∷ levels) = top_of (above ∷ levels)

-- `merkleProof`
unfoldable pub merkle_proof : Platform → List Text → ℕ → Result MerkleProof
merkle_proof pf leaves index = do
  leaf ← present (get_elem? leaves index) bad_request
  levels ← build_tree pf leaves
  ok (record { leaf = leaf; index = index; steps = steps_from levels index; root = top_of levels })

unfoldable pub apply_step : Platform → Text → MerkleProofStep → Text
apply_step pf running s = elim (s.position) [
  | left ↦ hash_node pf s.hash running
  | right ↦ hash_node pf running s.hash
]

unfoldable pub run_steps : Platform → Text → List MerkleProofStep → Text
run_steps pf running [] = running
run_steps pf running (s ∷ steps) = run_steps pf (apply_step pf running s) steps

-- `verifyMerkleProof`
unfoldable pub verify_merkle_proof : Platform → MerkleProof → Bool
verify_merkle_proof pf proof =
    text_eq (lower (run_steps pf (hash_leaf pf proof.leaf) proof.steps)) (lower proof.root)
