-- ===== src/Routing/Longest.antt =====
-- What `RouteMap_simple_prefix_match` of src/routing.c answers, over the plain list of the routes
-- that were inserted.
use mathlib.Core.Option
use mongrel.Prelude.{
  ℕ, ◌≡◌, refl, ap, ◌∙◌, Bool, false, Option, none, some, List, [], ◌∷◌, ◌||◌, arith, if◌then◌else◌,
  Option-cases, inl, inr, subst, some-injective,
}
use mongrel.Strings.{Bstring, Strings}
use mongrel.Tst.Search.{search_prefix_lem, has_path, longest_proper, longest_proper_cong}
use mongrel.Tst.{search, Tst, insert}
use mongrel.Tst.Insert.{same_key, is_prefix, search-insert}
use mongrel.Tst.Paths.{has_path-insert}
use mongrel.Routing.{
  Route, RouteMap, create, prefix_of, route_for, insert_route, insert_base, check_pattern,
  simple_prefix_match,
}

-- a pattern and its target
abbrev pub Entry {ℓ} : Type ℓ → Type ℓ
Entry D = Bstring × D

module _ {ℓ} {D : Type ℓ} where
  pub map-routes :
      (o : Option (Tst (Route D))) {map : RouteMap D}
      → Option.map (λ t. record { routes = t }) o ≡ some map
      → (t : Tst (Route D)) × (o ≡ some t) × (t ≡ map.routes)
  map-routes none h = cc
  map-routes (some t) h = (t, refl, ap (λ (m : RouteMap D). m.routes) (some-injective _ _ h))

module _ {ℓ} {D : Type ℓ} (lib : Strings) where
  -- The map after the inserts of a list, of which the last entry is inserted first.
  unfoldable pub build : List (Entry D) → Option (RouteMap D)
  build [] = some create
  build ((pattern, d) ∷ es) = elim (build es) [
    | none ↦ none
    | some map ↦ insert_route lib map pattern d
  ]

  -- the route of the entry whose prefix is the key
  abbrev pub stored : List (Entry D) → Bstring → Option (Route D)
  stored [] k = none
  stored ((pattern, d) ∷ es) k =
      if same_key (prefix_of lib pattern) k then some (route_for lib pattern d) else stored es k

  -- some entry's prefix begins with the key
  abbrev pub covered : List (Entry D) → Bstring → Bool
  covered [] k = false
  covered ((pattern, d) ∷ es) k = covered es k || is_prefix k (prefix_of lib pattern)

  -- no entry has an empty prefix
  abbrev pub HasPrefixes : List (Entry D) → Type 0
  HasPrefixes [] = Unit
  HasPrefixes ((pattern, d) ∷ es) = (¬ (prefix_of lib pattern ≡ [])) × HasPrefixes es

  record Represents (map : RouteMap D) (es : List (Entry D)) : Type ℓ where
    finds : (c : ℕ) (s : Bstring) → search map.routes (c ∷ s) ≡ stored es (c ∷ s)
    lays : (c : ℕ) (s : Bstring) → has_path map.routes (c ∷ s) ≡ covered es (c ∷ s)

  create-Represents : Represents create []
  create-Represents = record {
    finds = λ c s. unfold search in refl;
    lays = λ c s. unfold has_path in refl;
  }

  at_key-finds :
      (t : Tst (Route D)) (k : Bstring) (v : Route D) {t' : Tst (Route D)}
      → ¬ (k ≡ [])
      → insert t k v ≡ some t'
      → (c : ℕ) (s : Bstring)
      → search t' (c ∷ s) ≡ (if same_key k (c ∷ s) then some v else search t (c ∷ s))
  at_key-finds t [] v ne i c s = absurd (ne refl)
  at_key-finds t (a ∷ k) v ne i c s = search-insert t a k v c s i

  at_key-lays :
      (t : Tst (Route D)) (k : Bstring) (v : Route D) {t' : Tst (Route D)}
      → ¬ (k ≡ [])
      → insert t k v ≡ some t'
      → (c : ℕ) (s : Bstring) → has_path t' (c ∷ s) ≡ (has_path t (c ∷ s) || is_prefix (c ∷ s) k)
  at_key-lays t [] v ne i c s = absurd (ne refl)
  at_key-lays t (a ∷ k) v ne i c s = has_path-insert t a k v c s i

  insert-Represents :
      (map : RouteMap D) (es : List (Entry D)) (pattern : Bstring) (d : D) {map' : RouteMap D}
      → ¬ (prefix_of lib pattern ≡ [])
      → insert_route lib map pattern d ≡ some map'
      → Represents map es
      → Represents map' ((pattern, d) ∷ es)
  unfolding insert_route insert_base
  insert-Represents map es pattern d ne h r =
      let (t, i, e) =
        map-routes (insert map.routes (prefix_of lib pattern) (route_for lib pattern d)) h in
      record {
        finds = λ c s.
            rw (← e)
              (at_key-finds map.routes (prefix_of lib pattern) _ ne i c s ∙ rw (r.finds c s));
        lays = λ c s.
            rw (← e) (at_key-lays map.routes (prefix_of lib pattern) _ ne i c s ∙ rw (r.lays c s));
      }

  build-Represents :
      (es : List (Entry D)) {map : RouteMap D}
      → HasPrefixes es
      → build es ≡ some map
      → Represents map es
  unfolding build
  build-Represents [] p h =
      subst (λ m. Represents m []) (some-injective create _ h) create-Represents
  build-Represents ((pattern, d) ∷ es) p h = elim (Option-cases (build es)) [
    | inl e ↦ absurd (ground arith)
    | inr (map, e) ↦ insert-Represents map es pattern d p.0 (rw e at h) (build-Represents es p.1 e)
  ]

  -- In a map built by inserts with prefixes that are not empty, a target that is not empty is
  -- answered as follows, and then held against the pattern of the route if that has one. If some
  -- inserted prefix begins with the target, the answer is the route whose prefix is the target, or
  -- none; otherwise it is the route with the longest prefix of the target.
  pub simple_prefix_match_lem :
      (es : List (Entry D)) {map : RouteMap D} (c : ℕ) (s : Bstring)
      → HasPrefixes es
      → build es ≡ some map
      → simple_prefix_match lib map (c ∷ s)
        ≡ check_pattern lib
            (c ∷ s)
            (if covered es (c ∷ s) then stored es (c ∷ s) else longest_proper (stored es) none c s)
  unfolding simple_prefix_match
  simple_prefix_match_lem es {map} c s p h =
      let r = build-Represents es p h in
      ap (check_pattern lib (c ∷ s)) (
        search_prefix_lem map.routes c s
        ∙ rw (r.lays c s, r.finds c s)
            (ap (λ t. if covered es (c ∷ s) then stored es (c ∷ s) else t)
              (longest_proper_cong (search map.routes) (stored es) none c s (λ q. r.finds c q))))
