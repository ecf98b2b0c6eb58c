-- ===== src/Merkle/Root.antt =====
-- packages/contracts/src/evidence/merkle.ts: the loop of `buildTree` comes to an end.
use securtxn.Prelude.{
  ℕ, zero, suc, ◌≤◌, ◌≡◌, refl, List, [], ◌∷◌, map, Text, length, ok, arith, length-map,
}
use securtxn.Platform.{Platform}
use securtxn.Merkle.{hash_leaf, next_level, levels_from, build_tree}
use securtxn.Merkle.Laws.{shorter}

abbrev pub last_level : List (List Text) → List Text
last_level [] = []
last_level (nodes ∷ []) = nodes
last_level (nodes ∷ above ∷ levels) = last_level (above ∷ levels)

last_level-cons :
    (pf : Platform) (fuel : ℕ) (nodes xs : List Text)
    → last_level (nodes ∷ levels_from pf fuel xs) ≡ last_level (levels_from pf fuel xs)
unfolding levels_from
last_level-cons pf fuel nodes [] = refl
last_level-cons pf fuel nodes (c ∷ []) = refl
last_level-cons pf zero nodes (c ∷ d ∷ xs) = refl
last_level-cons pf (suc fuel) nodes (c ∷ d ∷ xs) = refl

next_level-not_empty :
    (pf : Platform) (a b : Text) (r : List Text) → 1 ≤ length (next_level pf (a ∷ b ∷ r))
unfolding next_level
next_level-not_empty pf a b r = omega arith

levels_from-one_root :
    (pf : Platform) (fuel : ℕ) (nodes : List Text)
    → 1 ≤ length nodes
    → length nodes ≤ suc fuel
    → length (last_level (levels_from pf fuel nodes)) ≡ 1
unfolding levels_from
levels_from-one_root pf fuel [] n l = absurd (omega arith)
levels_from-one_root pf fuel (a ∷ []) n l = refl
levels_from-one_root pf zero (a ∷ b ∷ r) n l = absurd (omega arith)
levels_from-one_root pf (suc fuel) (a ∷ b ∷ r) n l =
    rw (last_level-cons pf fuel (a ∷ b ∷ r) (next_level pf (a ∷ b ∷ r))) (
      levels_from-one_root pf fuel (next_level pf (a ∷ b ∷ r)) (next_level-not_empty pf a b r)
        (shorter pf a b r fuel l))

-- For every batch that is not empty `buildTree` returns a tree, and its last level is one root.
pub build_tree-one_root :
    (pf : Platform) (leaf : Text) (leaves : List Text)
    → (levels : List (List Text)) × (build_tree pf (leaf ∷ leaves) ≡ ok levels)
      × (length (last_level levels) ≡ 1)
unfolding build_tree
build_tree-one_root pf leaf leaves = (
  _,
  refl,
  levels_from-one_root pf (length (leaf ∷ leaves)) (map (hash_leaf pf) (leaf ∷ leaves))
      (omega arith) (omega (arith, length-map (hash_leaf pf) leaves)),
)
