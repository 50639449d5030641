-- ===== src/Tests/Routes.antt =====
-- Runs of the route map and of a host.
use mongrel.Prelude.{false, ℕ, ℤ, pos, ◌≡◌, refl, Option, none, some, List, [], ◌∷◌, arith}
use mathlib.Core.List.{Perm}
use mongrel.Tst.{insert}
use mongrel.Tst.Traverse.Order.{values}
use mongrel.Tst.Collect.Subtree.{subtree, node_at}
use mongrel.Routing.{Route, match}
use mongrel.Routing.Matches.{match-subtree}
use mongrel.Routing.{RouteMap, create, prefix_of, insert_route, check_pattern, simple_prefix_match}
use mongrel.Routing.Longest.{Entry, build, simple_prefix_match_lem}
use mongrel.Routing.Literal.{simple_prefix_match-insert_route}
use mongrel.Host.{Host, add_backend, match_backend}
use mongrel.Host.Match.{match_backend-add_backend}
use mongrel.Tests.Samples.{strings}

-- "/" and "/a", with targets 5 and 7
abbrev entries : List (Entry ℕ)
entries = (175 ∷ 225 ∷ [], 7) ∷ (175 ∷ [], 5) ∷ []

abbrev map_of : Option (RouteMap ℕ) → RouteMap ℕ
map_of none = create
map_of (some map) = map

simple_prefix_match_lem_example :
    simple_prefix_match strings (map_of (build strings entries)) (175 ∷ 225 ∷ 226 ∷ [])
    ≡ some (record { pattern = 175 ∷ 225 ∷ []; data_of = 7; has_pattern = false })
unfolding build insert_route prefix_of insert check_pattern
simple_prefix_match_lem_example =
    simple_prefix_match_lem strings entries 175 (225 ∷ 226 ∷ [])
      (λ e. ground arith, (λ e. ground arith, tt)) refl

simple_prefix_match-insert_route_example :
    simple_prefix_match strings
      (map_of (insert_route strings create (175 ∷ 225 ∷ []) 7))
      (175 ∷ 225 ∷ [])
    ≡ some (record { pattern = 175 ∷ 225 ∷ []; data_of = 7; has_pattern = false })
unfolding insert_route prefix_of insert
simple_prefix_match-insert_route_example =
    simple_prefix_match-insert_route strings create 175 (225 ∷ []) 7 refl refl

-- Of "/ab" the longest prefix with a route is "/a".
match-subtree_example :
    (out : List (Route ℕ)) × (match strings (map_of (build strings entries)) (175 ∷ 225 ∷ 226 ∷ [])
      ≡ some out)
    × Perm out (record { pattern = 175 ∷ 225 ∷ []; data_of = 7; has_pattern = false } ∷ [])
unfolding build insert_route prefix_of insert subtree node_at values match
match-subtree_example = match-subtree strings (map_of (build strings entries)) 175 (225 ∷ 226 ∷ [])

abbrev empty_host : Host
empty_host = record { routes = create; name = [] }

abbrev host_of : Option (ℤ × Host) → Host
host_of none = empty_host
host_of (some r) = r.1

match_backend-add_backend_example :
    (pos 0 ≡ pos 0)
    × (match_backend strings (host_of (add_backend strings 40 empty_host (175 ∷ []) 2 9)) (175 ∷ [])
        ≡ some (record { address = 40; type_of = 2; target = 9 }, 175 ∷ []))
unfolding add_backend insert_route prefix_of insert
match_backend-add_backend_example =
    match_backend-add_backend strings 40 empty_host 175 [] 2 9 refl refl
