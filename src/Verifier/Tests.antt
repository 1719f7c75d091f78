-- ===== src/Verifier/Tests.antt =====
-- The tree of the verifier (proofhub/verifier/src/lib.rs) over a small hash, and its theorems at
-- lists of leaves that meet their hypotheses.
use nulla_relay.Prelude.{
  ℕ, zero, suc, ◌+◌, ◌*◌, ◌%◌, ◌^◌, some, List, [], ◌∷◌, ◌≡◌, refl, arith, length, replicate,
}
use nulla_relay.Verifier.Tree.{Frontier, root, reference_root, merkle_depth, default_frontier}
use nulla_relay.Verifier.Tree.{verify_merkle_path}
use nulla_relay.Verifier.Tree.Paths.{siblings, Collide, path_verifies, path_proves_leaf}
use nulla_relay.Prelude.{◌⊎◌, true}
use nulla_relay.Verifier.Tree.Refinement.{insert_all, root_refines, full_tree_root}

abbrev mix : ℕ → ℕ → ℕ
mix a b = (3 * a + 5 * b + 7) % 1000003

abbrev five : List ℕ
five = 11 ∷ 22 ∷ 33 ∷ 44 ∷ 55 ∷ []

root_refines_example :
    (f : Frontier) × (insert_all mix five default_frontier ≡ some f)
    × (root mix f ≡ reference_root mix five)
root_refines_example = root_refines mix five (omega arith)

length-replicate : (n x : ℕ) → length (replicate n x) ≡ n
length-replicate zero x = refl
length-replicate (suc n) x = omega (arith, length-replicate n x)

full_tree_root_example :
    (f : Frontier) × (insert_all mix (replicate (2 ^ merkle_depth) 9) default_frontier ≡ some f)
    × (root mix f ≡ reference_root mix [])
full_tree_root_example =
    full_tree_root mix (replicate (2 ^ merkle_depth) 9) (length-replicate (2 ^ merkle_depth) 9)

path_verifies_example :
    verify_merkle_path mix 33 2 (siblings mix merkle_depth 0 five 2) (reference_root mix five)
    ≡ true
path_verifies_example = path_verifies mix five 2 33 (omega arith) refl

abbrev stored : ℕ
stored = 33

abbrev shown : ℕ
shown = 33

path_proves_leaf_example :
    (stored ≡ shown)
    ⊎ Collide mix
        (siblings mix merkle_depth 0 five 2)
        (siblings mix merkle_depth 0 five 2)
        2
        stored
        shown
path_proves_leaf_example =
    path_proves_leaf mix five 2 stored shown (siblings mix merkle_depth 0 five 2) (omega arith) refl
      refl (path_verifies mix five 2 33 (omega arith) refl)
