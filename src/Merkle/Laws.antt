-- ===== src/Merkle/Laws.antt =====
-- packages/contracts/src/evidence/merkle.ts: what a proof of inclusion gives its verifier.
use securtxn.Prelude.{
  some-injective, ℕ, zero, suc, ◌+◌, ◌-◌, ◌/◌, ◌%◌, ◌≤◌, ◌≡◌, refl, sym, ap, true, Option, none,
  some, List, [], ◌∷◌, map, Text, length, get_elem?, ok, arith, Returns, Returns-bind, Returns-ok,
  present, present-eq-ok, bad_request, text_eq_refl, lower, Returns-require, not, length-map,
}
use securtxn.Platform.{Platform}
use securtxn.Merkle.{
  hash_leaf, hash_node, next_level, levels_from, is_empty, build_tree, MerkleProofStep, MerkleProof,
  sibling, push_step, steps_from, top_of, merkle_proof, apply_step, run_steps, verify_merkle_proof,
}

abbrev after : Platform → Text → Option MerkleProofStep → Text
after pf h none = h
after pf h (some s) = apply_step pf h s

sibling-cons_cons :
    (a b : Text) (r : List Text) (i : ℕ) → sibling (a ∷ b ∷ r) (suc (suc i)) ≡ sibling r i
unfolding sibling
sibling-cons_cons a b r zero = refl
sibling-cons_cons a b r (suc j) =
    let same : suc (suc (suc j)) % 2 ≡ suc j % 2 = omega arith in
    let down : suc (suc (suc j)) - 1 ≡ suc (suc j) = omega arith in
    let less : suc j - 1 ≡ j = omega arith in
    let up : suc (suc (suc j)) + 1 ≡ suc (suc (suc j + 1)) = omega arith in
    rw (same, down, less, up) refl

promoted : (pf : Platform) (a : Text) → after pf a (sibling (a ∷ []) 0) ≡ a
unfolding sibling
promoted pf a = refl

paired_left :
    (pf : Platform) (a b : Text) (r : List Text)
    → after pf a (sibling (a ∷ b ∷ r) 0) ≡ hash_node pf a b
unfolding sibling apply_step
paired_left pf a b r = refl

paired_right :
    (pf : Platform) (a b : Text) (r : List Text)
    → after pf b (sibling (a ∷ b ∷ r) 1) ≡ hash_node pf a b
unfolding sibling apply_step
paired_right pf a b r = refl

-- The next level has, at half the position, what the step makes of the node.
next_level-get_elem? :
    (pf : Platform) (nodes : List Text) (i : ℕ) (h : Text)
    → get_elem? nodes i ≡ some h
    → get_elem? (next_level pf nodes) (i / 2) ≡ some (after pf h (sibling nodes i))
unfolding next_level
next_level-get_elem? pf [] i h e = cc
next_level-get_elem? pf (a ∷ []) zero h e =
    rw (sym (some-injective e)) (ap some (sym (promoted pf a)))
next_level-get_elem? pf (a ∷ []) (suc i) h e = cc
next_level-get_elem? pf (a ∷ b ∷ r) zero h e =
    rw (sym (some-injective e)) (ap some (sym (paired_left pf a b r)))
next_level-get_elem? pf (a ∷ b ∷ r) (suc zero) h e =
    rw (sym (some-injective e)) (ap some (sym (paired_right pf a b r)))
next_level-get_elem? pf (a ∷ b ∷ r) (suc (suc i)) h e =
    let half : suc (suc i) / 2 ≡ suc (i / 2) = omega arith in
    rw (half, sibling-cons_cons a b r i) (next_level-get_elem? pf r i h e)

next_level-length :
    (pf : Platform) (nodes : List Text) → length (next_level pf nodes) ≤ length nodes
unfolding next_level
next_level-length pf [] = omega arith
next_level-length pf (a ∷ []) = omega arith
next_level-length pf (a ∷ b ∷ r) = omega (arith, next_level-length pf r)

steps_from-cons :
    (pf : Platform) (fuel : ℕ) (nodes xs : List Text) (i : ℕ)
    → steps_from (nodes ∷ levels_from pf fuel xs) i
      ≡ push_step (sibling nodes i) (steps_from (levels_from pf fuel xs) (i / 2))
unfolding steps_from levels_from
steps_from-cons pf fuel nodes [] i = refl
steps_from-cons pf fuel nodes (a ∷ []) i = refl
steps_from-cons pf zero nodes (a ∷ b ∷ r) i = refl
steps_from-cons pf (suc fuel) nodes (a ∷ b ∷ r) i = refl

top_of-cons :
    (pf : Platform) (fuel : ℕ) (a b : Text) (r xs : List Text)
    → top_of ((a ∷ b ∷ r) ∷ levels_from pf fuel xs) ≡ top_of (levels_from pf fuel xs)
unfolding top_of levels_from
top_of-cons pf fuel a b r [] = refl
top_of-cons pf fuel a b r (c ∷ []) = refl
top_of-cons pf zero a b r (c ∷ d ∷ xs) = refl
top_of-cons pf (suc fuel) a b r (c ∷ d ∷ xs) = refl

run_steps-push_step :
    (pf : Platform) (h : Text) (s : Option MerkleProofStep) (steps : List MerkleProofStep)
    → run_steps pf h (push_step s steps) ≡ run_steps pf (after pf h s) steps
unfolding run_steps
run_steps-push_step pf h none steps = refl
run_steps-push_step pf h (some s) steps = refl

one_left :
    (pf : Platform) (a h : Text)
    → some a ≡ some h
    → run_steps pf h (steps_from ((a ∷ []) ∷ []) 0) ≡ top_of ((a ∷ []) ∷ [])
unfolding run_steps steps_from top_of
one_left pf a h e = sym (some-injective e)

pub shorter :
    (pf : Platform) (a b : Text) (r : List Text) (fuel : ℕ)
    → length (a ∷ b ∷ r) ≤ suc (suc fuel)
    → length (next_level pf (a ∷ b ∷ r)) ≤ suc fuel
unfolding next_level
shorter pf a b r fuel l = omega (arith, next_level-length pf r)

get_elem?-map :
    (f : Text → Text) (xs : List Text) (i : ℕ) (x : Text)
    → get_elem? xs i ≡ some x
    → get_elem? (map f xs) i ≡ some (f x)
get_elem?-map f [] i x e = cc
get_elem?-map f (y ∷ xs) zero x e = ap (λ z. some (f z)) (some-injective e)
get_elem?-map f (y ∷ xs) (suc i) x e = get_elem?-map f xs i x e

-- With fuel for the nodes of the level, the steps lead from any node to the top.
run_steps-levels_from :
    (pf : Platform) (fuel : ℕ) (nodes : List Text) (i : ℕ) (h : Text)
    → length nodes ≤ suc fuel
    → get_elem? nodes i ≡ some h
    → run_steps pf h (steps_from (levels_from pf fuel nodes) i) ≡ top_of (levels_from pf fuel nodes)
unfolding levels_from
run_steps-levels_from pf fuel [] i h l e = cc
run_steps-levels_from pf fuel (a ∷ []) zero h l e = one_left pf a h e
run_steps-levels_from pf fuel (a ∷ []) (suc i) h l e = cc
run_steps-levels_from pf zero (a ∷ b ∷ r) i h l e = absurd (omega arith)
run_steps-levels_from pf (suc fuel) (a ∷ b ∷ r) i h l e =
    rw
      (
        steps_from-cons pf fuel (a ∷ b ∷ r) (next_level pf (a ∷ b ∷ r)) i,
        top_of-cons pf fuel a b r (next_level pf (a ∷ b ∷ r)),
        run_steps-push_step pf h (sibling (a ∷ b ∷ r) i)
            (steps_from (levels_from pf fuel (next_level pf (a ∷ b ∷ r))) (i / 2)),
      )
      (run_steps-levels_from pf fuel (next_level pf (a ∷ b ∷ r)) (i / 2)
        (after pf h (sibling (a ∷ b ∷ r) i)) (shorter pf a b r fuel l)
        (next_level-get_elem? pf (a ∷ b ∷ r) i h e))

build_tree-levels_from :
    (pf : Platform) (leaves : List Text)
    → Returns
        (λ ls. ls ≡ levels_from pf (length leaves) (map (hash_leaf pf) leaves))
        (build_tree pf leaves)
unfolding build_tree
build_tree-levels_from pf leaves =
    Returns-require (λ ls. ls ≡ levels_from pf (length leaves) (map (hash_leaf pf) leaves))
      (not (is_empty leaves)) bad_request _ λ _. refl

proof_of : Platform → List Text → ℕ → Text → List (List Text) → MerkleProof
proof_of pf leaves index leaf levels = record {
  leaf = leaf;
  index = index;
  steps = steps_from levels index;
  root = top_of levels;
}

made-verify_merkle_proof :
    (pf : Platform) (leaves : List Text) (index : ℕ) (leaf : Text) (levels : List (List Text))
    → get_elem? leaves index ≡ some leaf
    → levels ≡ levels_from pf (length leaves) (map (hash_leaf pf) leaves)
    → verify_merkle_proof pf (proof_of pf leaves index leaf levels) ≡ true
unfolding verify_merkle_proof proof_of
made-verify_merkle_proof pf leaves index leaf levels there made =
    let same : run_steps pf (hash_leaf pf leaf) (steps_from levels index) ≡ top_of levels =
      rw made (
        run_steps-levels_from pf (length leaves) (map (hash_leaf pf) leaves) index
          (hash_leaf pf leaf) (omega (arith, length-map (hash_leaf pf) leaves))
          (get_elem?-map (hash_leaf pf) leaves index leaf there)) in
    rw same (text_eq_refl (lower (top_of levels)))

-- Every proof of inclusion that `merkleProof` makes, at whatever index of whatever batch, verifies.
pub merkle_proof-verify_merkle_proof :
    (pf : Platform) (leaves : List Text) (index : ℕ) (proof : MerkleProof)
    → merkle_proof pf leaves index ≡ ok proof
    → verify_merkle_proof pf proof ≡ true
unfolding merkle_proof proof_of
merkle_proof-verify_merkle_proof pf leaves index proof h =
    Returns-ok (λ p. verify_merkle_proof pf p ≡ true) _ proof
      (Returns-bind _ (present (get_elem? leaves index) bad_request) _ λ leaf there.
        Returns-bind _ (build_tree pf leaves) _ λ levels built.
          made-verify_merkle_proof pf leaves index leaf levels
            (present-eq-ok (get_elem? leaves index) bad_request there)
            (Returns-ok (λ ls. ls ≡ levels_from pf (length leaves) (map (hash_leaf pf) leaves))
              (build_tree pf leaves) levels (build_tree-levels_from pf leaves) built))
      h

-- At every index that has a leaf `merkleProof` returns a proof, and the proof carries that leaf.
pub merkle_proof-exists :
    (pf : Platform) (leaves : List Text) (index : ℕ) (leaf : Text)
    → get_elem? leaves index ≡ some leaf
    → (proof : MerkleProof) × (merkle_proof pf leaves index ≡ ok proof) × (proof.leaf ≡ leaf)
unfolding merkle_proof build_tree
merkle_proof-exists pf [] index leaf there = cc
merkle_proof-exists pf (l ∷ ls) index leaf there = rw there (_, refl, refl)
