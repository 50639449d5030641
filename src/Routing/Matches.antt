-- ===== src/Routing/Matches.antt =====
-- Which routes `RouteMap_match` of src/routing.c gives.
use mathlib.Core.List.{Perm}
use mongrel.Prelude.{ℕ, ◌≡◌, some, List, ◌∷◌}
use mongrel.Strings.{Strings}
use mongrel.Tst.Traverse.Order.{values}
use mongrel.Tst.Collect.Subtree.{subtree, passing, collect-subtree}
use mongrel.Routing.{Route, RouteMap, collect_match, match}

module _ {ℓ} {D : Type ℓ} (lib : Strings) where
  -- For a path of one char or more, `RouteMap_match` always ends, and gives exactly the routes of one
  -- part of the tree that have no pattern or one that `bstring_match` finds to match the path, each as
  -- often as it is stored there, in some order. The part is the tree under the node at which a search
  -- for the path ends; without such a node, that under the node of the longest proper prefix of the
  -- path that has a route; and without that, the whole tree.
  pub match-subtree :
      (map : RouteMap D) (c : ℕ) (s : List ℕ)
      → (out : List (Route D)) × (match lib map (c ∷ s) ≡ some out)
        × Perm out (passing (collect_match lib (c ∷ s)) (values (subtree map.routes c s)))
  unfolding match
  match-subtree map c s = collect-subtree (collect_match lib (c ∷ s)) map.routes c s
