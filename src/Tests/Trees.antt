-- ===== src/Tests/Trees.antt =====
-- Runs of the ternary search tree.
use mathlib.Core.List.{Perm}
use mongrel.Prelude.{ℕ, ◌≡◌, refl, false, Option, none, some, List, [], ◌∷◌, arith}
use mongrel.Tst.{Tst, leaf, node, search, search_prefix, search_suffix, insert}
use mongrel.Tst.Search.{has_path, search_prefix_lem, search_suffix_ignores_first}
use mongrel.Tst.Insert.{search-insert}
use mongrel.Tst.Paths.{is_tree, insert_refuses_duplicates}
use mongrel.Tst.Traverse.{start, walk_loop, traverse}
use mongrel.Tst.Traverse.Order.{breadth_first, values, walk_loop-eq-breadth_first, traverse-perm}

-- the keys 1, 1 2 and 3
abbrev tree : Tst ℕ
tree = node 1 leaf (node 2 leaf leaf leaf (some 20)) (node 3 leaf leaf leaf (some 30)) (some 10)

abbrev larger : Option (Tst ℕ) → Tst ℕ
larger none = leaf
larger (some t) = t

search_prefix_lem_example : search_prefix tree (1 ∷ 2 ∷ 5 ∷ []) ≡ some 20
unfolding has_path search
search_prefix_lem_example = search_prefix_lem tree 1 (2 ∷ 5 ∷ [])

search_suffix_ignores_first_example :
    search_suffix tree (1 ∷ 2 ∷ []) ≡ search_suffix tree (1 ∷ 4 ∷ [])
search_suffix_ignores_first_example = search_suffix_ignores_first tree (1 ∷ []) 2 4

search-insert_example : search (larger (insert tree (1 ∷ 4 ∷ []) 40)) (1 ∷ 4 ∷ []) ≡ some 40
unfolding insert
search-insert_example = search-insert tree 1 (4 ∷ []) 40 1 (4 ∷ []) refl

insert_refuses_duplicates_example : is_tree (insert tree (1 ∷ 2 ∷ []) 40) ≡ false
unfolding search
insert_refuses_duplicates_example = insert_refuses_duplicates tree 1 (2 ∷ []) 40

walk_loop-eq-breadth_first_example : walk_loop 5 (start tree) ≡ some (10 ∷ 20 ∷ 30 ∷ [])
unfolding breadth_first
walk_loop-eq-breadth_first_example = walk_loop-eq-breadth_first 5 (start tree) (omega arith)

traverse-perm_example : (out : List ℕ) × (traverse tree ≡ some out) × Perm out (10 ∷ 20 ∷ 30 ∷ [])
unfolding values
traverse-perm_example = traverse-perm tree
