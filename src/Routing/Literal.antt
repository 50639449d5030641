-- ===== src/Routing/Literal.antt =====
-- A route without a parenthesis in src/routing.c.
use mongrel.Prelude.{ℕ, ◌≡◌, refl, Bool, true, false, none, some, List, [], ◌∷◌, arith, ◌||◌}
use mongrel.Strings.{Bstring, Strings, open_paren}
use mongrel.Tst.{search, insert}
use mongrel.Tst.Search.{search_prefix_lem, has_path}
use mongrel.Tst.Insert.{same_key, is_prefix, search-insert}
use mongrel.Tst.Paths.{has_path-insert}
use mongrel.Routing.{
  RouteMap, prefix_of, route_for, insert_route, insert_base, check_pattern, simple_prefix_match,
}
use mongrel.Routing.Longest.{map-routes}

pub same_key_refl : (k : List ℕ) → same_key k k ≡ true
same_key_refl [] = refl
same_key_refl (c ∷ k) = ground (arith, same_key_refl k)

pub is_prefix_refl : (k : List ℕ) → is_prefix k k ≡ true
is_prefix_refl [] = refl
is_prefix_refl (c ∷ k) = ground (arith, is_prefix_refl k)

or-true : (b : Bool) → (b || true) ≡ true
or-true true = refl
or-true false = refl

module _ (lib : Strings) where
  open lib use {bstrchr}

  -- A route whose pattern has at least one char and no parenthesis is found at its own path, right
  -- after its insert.
  pub simple_prefix_match-insert_route :
      {D : Type 0} (map : RouteMap D) (a : ℕ) (k : Bstring) (d : D) {map' : RouteMap D}
      → bstrchr (a ∷ k) open_paren ≡ none
      → insert_route lib map (a ∷ k) d ≡ some map'
      → simple_prefix_match lib map' (a ∷ k)
        ≡ some (record { pattern = a ∷ k; data_of = d; has_pattern = false })
  unfolding insert_route simple_prefix_match prefix_of insert_base check_pattern
  simple_prefix_match-insert_route map a k d {map'} literal h =
      let prefix : prefix_of lib (a ∷ k) ≡ a ∷ k = rw (prefix_of, literal) refl in
      let (t, i, e) =
        map-routes (insert map.routes (prefix_of lib (a ∷ k)) (route_for lib (a ∷ k) d)) h in
      let found = search-insert map.routes a k (route_for lib (a ∷ k) d) a k (rw prefix at i) in
      let path = has_path-insert map.routes a k (route_for lib (a ∷ k) d) a k (rw prefix at i) in
      let laid : has_path t (a ∷ k) ≡ true =
        rw (path, is_prefix_refl (a ∷ k)) (or-true (has_path map.routes (a ∷ k))) in
      let hit : search t (a ∷ k) ≡ some (route_for lib (a ∷ k) d) =
        rw (found, same_key_refl (a ∷ k)) refl in
      rw (← e, search_prefix_lem t a k, laid, hit, literal) (ground arith)
