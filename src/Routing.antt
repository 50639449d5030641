-- ===== src/Routing.antt =====
-- src/routing.c: a map from path prefixes, or reversed host suffixes, to routes. A failed `assert`
-- is the result `none`; allocation is taken to succeed.
pub mod Longest
pub mod Literal
pub mod Matches
use mathlib.Core.List.{reverse}
use mathlib.Core.Option
use mongrel.Prelude.{ℕ, ◌-◌, Bool, true, false, Option, none, some, List, length, if◌then◌else◌}
use mongrel.Strings.{Bstring, Strings, open_paren, close_paren}
use mongrel.Tst.{Tst, leaf, insert, search_prefix, search_suffix}
use mongrel.Tst.Traverse.{traverse}
use mongrel.Tst.Collect.{collect}

-- `Route`
pub record Route {ℓ} (D : Type ℓ) : Type ℓ where
  pub pattern : Bstring
  pub data_of : D
  pub has_pattern : Bool

-- `RouteMap`; the destroy callback is what `destroy` lists the calls of
pub record RouteMap {ℓ} (D : Type ℓ) : Type ℓ where
  pub routes : Tst (Route D)

abbrev pub found : Option ℕ → Bool
found none = false
found (some _) = true

module _ (lib : Strings) where
  open lib use {bstrchr, bstrrchr, b_head, b_tail, b_reverse}

  -- the prefix of `RouteMap_insert`, up to the first parenthesis
  unfoldable pub prefix_of : Bstring → Bstring
  prefix_of pattern = elim (bstrchr pattern open_paren) [
    | none ↦ pattern
    | some first_paren ↦ b_head pattern first_paren
  ]

  -- the reversed prefix of `RouteMap_insert_reversed`, behind the last parenthesis
  unfoldable pub reversed_prefix_of : Bstring → Bstring
  reversed_prefix_of pattern = elim (bstrrchr pattern close_paren) [
    | none ↦ b_reverse pattern
    | some last_paren ↦ b_reverse (b_tail pattern (length pattern - last_paren - 1))
  ]

module _ {ℓ} {D : Type ℓ} where
  -- `RouteMap_create`
  abbrev pub create : RouteMap D
  create = record { routes = leaf }

  -- `RouteMap_destroy`: the routes on which `RouteMap_cleanup` is called, in order
  unfoldable pub destroy : RouteMap D → Option (List (Route D))
  destroy map = traverse map.routes

  -- `RouteMap_insert_base`, with the fields that its callers set in the route afterwards
  pub insert_base : RouteMap D → Bstring → Route D → Option (RouteMap D)
  insert_base map prefix route =
      Option.map (λ t. record { routes = t }) (insert map.routes prefix route)

  module _ (lib : Strings) where
    open lib use {bstrchr, bstrrchr, bstring_match}

    -- the route that `RouteMap_insert` makes
    abbrev pub route_for : Bstring → D → Route D
    route_for pattern d = record {
      pattern = pattern;
      data_of = d;
      has_pattern = found (bstrchr pattern open_paren);
    }

    -- `RouteMap_insert`
    unfoldable pub insert_route : RouteMap D → Bstring → D → Option (RouteMap D)
    unfolding insert_base
    insert_route map pattern d = insert_base map (prefix_of lib pattern) (route_for pattern d)

    -- `RouteMap_insert_reversed`
    unfoldable pub insert_reversed : RouteMap D → Bstring → D → Option (RouteMap D)
    unfolding insert_base
    insert_reversed map pattern d = insert_base map (reversed_prefix_of lib pattern) (record {
      pattern = pattern;
      data_of = d;
      has_pattern = found (bstrrchr pattern close_paren);
    })

    -- what `RouteMap_match_suffix` and `RouteMap_simple_prefix_match` do with the route they find
    unfoldable pub check_pattern : Bstring → Option (Route D) → Option (Route D)
    check_pattern target none = none
    check_pattern target (some route) =
        if route.has_pattern
        then (if bstring_match target route.pattern then some route else none)
        else some route

    -- `RouteMap_collect_match`
    pub collect_match : Bstring → Route D → Bool
    collect_match key route = if route.has_pattern then bstring_match key route.pattern else true

    -- `RouteMap_match`
    unfoldable pub match : RouteMap D → Bstring → Option (List (Route D))
    unfolding collect_match
    match map path = collect (some (collect_match path)) map.routes path

    -- `RouteMap_match_suffix`
    unfoldable pub match_suffix : RouteMap D → Bstring → Option (Route D)
    unfolding check_pattern
    match_suffix map target = check_pattern target (search_suffix map.routes (reverse target))

    -- `RouteMap_simple_prefix_match`
    unfoldable pub simple_prefix_match : RouteMap D → Bstring → Option (Route D)
    unfolding check_pattern
    simple_prefix_match map target = check_pattern target (search_prefix map.routes target)
