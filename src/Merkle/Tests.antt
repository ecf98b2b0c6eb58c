-- ===== src/Merkle/Tests.antt =====
-- A batch of three leaves, the last of which is promoted.
use securtxn.Prelude.{◌≡◌, refl, List, [], ◌∷◌, Text, codes, length, Result, ok, err, true}
use securtxn.Sample.{platform}
use securtxn.Merkle.{MerkleProof, merkle_proof, verify_merkle_proof, build_tree}
use securtxn.Merkle.Root.{last_level, build_tree-one_root}
use securtxn.Merkle.Laws.{merkle_proof-verify_merkle_proof}

abbrev leaves : List Text
leaves = codes "0xaa" ∷ codes "0xbb" ∷ codes "0xcc" ∷ []

abbrev proof_in : Result MerkleProof → MerkleProof
proof_in (ok p) = p
proof_in (err e) = record { leaf = []; index = 0; steps = []; root = [] }

abbrev last_proof : MerkleProof
last_proof = proof_in (merkle_proof platform leaves 2)

last_proof_made : merkle_proof platform leaves 2 ≡ ok last_proof
unfolding merkle_proof build_tree
last_proof_made = refl

merkle_proof-verify_merkle_proof_example : verify_merkle_proof platform last_proof ≡ true
merkle_proof-verify_merkle_proof_example =
    merkle_proof-verify_merkle_proof platform leaves 2 last_proof last_proof_made

build_tree-one_root_example :
    (levels : List (List Text)) × (build_tree platform leaves ≡ ok levels)
    × (length (last_level levels) ≡ 1)
build_tree-one_root_example =
    build_tree-one_root platform (codes "0xaa") (codes "0xbb" ∷ codes "0xcc" ∷ [])
