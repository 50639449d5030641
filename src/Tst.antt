-- ===== src/Tst.antt =====
-- src/adt/tst.c: the ternary search tree under the routes. A `char` is its value plus 128, which
-- keeps the order of signed chars; `nul` is '\0'. A NULL tree is `leaf`, a NULL value `none`, and a
-- key is the list of its `len` chars. An `assert` that fails is the result `none`, as in a build
-- without NDEBUG. Allocation is taken to succeed, and who owns a node is not modelled.
pub mod Search
pub mod Induction
pub mod Insert
pub mod Paths
pub mod Traverse
pub mod Collect
use mathlib.Core.Option
use mongrel.Prelude.{ℕ, Option, none, some, List, [], ◌∷◌, ltb, ◌==◌, if◌then◌else◌}

-- `tst_t`: splitchar, low, equal, high, value
pub data Tst {ℓ} (A : Type ℓ) : Type ℓ where
  leaf : Tst A
  node : ℕ → Tst A → Tst A → Tst A → Option A → Tst A

abbrev pub nul : ℕ
nul = 128

module _ {ℓ} {A : Type ℓ} where
  -- `p->value` of a `p` that may be NULL
  abbrev pub value : Tst A → Option A
  value leaf = none
  value (node c l e h v) = v

  -- `p ? p->value : last ? last->value : NULL`
  abbrev pub value_or_last : Tst A → Tst A → Option A
  value_or_last leaf last = value last
  value_or_last (node c l e h v) last = v

  -- `if(p->value) last = p;`
  abbrev pub note_last : Tst A → Tst A → Tst A
  note_last leaf last = last
  note_last (node c l e h none) last = last
  note_last (node c l e h (some v)) last = node c l e h (some v)

  -- The loop of `tst_search`: the `p` it ends with. The list is what is left of the key, s[i..len).
  -- After the last char `p` stays where it is.
  search_loop : Tst A → List ℕ → Tst A
  search_loop p [] = p
  search_loop leaf (c ∷ s) = leaf
  search_loop (node x l e h v) (c ∷ []) =
      if ltb c x
      then search_loop l (c ∷ [])
      else if c == x
      then node x l e h v
      else search_loop h (c ∷ [])
  search_loop (node x l e h v) (c ∷ d ∷ s) =
      let low = search_loop l (c ∷ d ∷ s) in
      let equal = search_loop e (d ∷ s) in
      let high = search_loop h (c ∷ d ∷ s) in
      if ltb c x then low else if c == x then equal else high

  -- `tst_search`
  unfoldable pub search : Tst A → List ℕ → Option A
  unfolding search_loop
  search root s = value (search_loop root s)

  -- The loop of `tst_search_prefix`, with the `p` and the `last` it ends with.
  pub prefix_loop : Tst A → Tst A → List ℕ → Tst A × Tst A
  prefix_loop p last [] = (p, last)
  prefix_loop leaf last (c ∷ s) = (leaf, last)
  prefix_loop (node x l e h v) last (c ∷ []) =
      if ltb c x
      then prefix_loop l last (c ∷ [])
      else if c == x
      then (node x l e h v, last)
      else prefix_loop h last (c ∷ [])
  prefix_loop (node x l e h v) last (c ∷ d ∷ s) =
      let low = prefix_loop l last (c ∷ d ∷ s) in
      let equal = prefix_loop e (note_last (node x l e h v) last) (d ∷ s) in
      let high = prefix_loop h last (c ∷ d ∷ s) in
      if ltb c x then low else if c == x then equal else high

  -- `tst_search_prefix`
  unfoldable pub search_prefix : Tst A → List ℕ → Option A
  unfolding prefix_loop
  search_prefix root [] = none
  search_prefix root (c ∷ s) = let (p, last) = prefix_loop root leaf (c ∷ s) in value_or_last p last

  -- The loop of `tst_search_suffix`. The list is s[i], s[i-1], …, s[0]: the loop stops at i = 0,
  -- before it has looked at s[0].
  suffix_loop : Tst A → Tst A → List ℕ → Tst A × Tst A
  suffix_loop p last [] = (p, last)
  suffix_loop p last (c ∷ []) = (p, last)
  suffix_loop leaf last (c ∷ d ∷ s) = (leaf, last)
  suffix_loop (node x l e h v) last (c ∷ d ∷ s) =
      let low = suffix_loop l last (c ∷ d ∷ s) in
      let equal = suffix_loop e (note_last (node x l e h v) last) (d ∷ s) in
      let high = suffix_loop h last (c ∷ d ∷ s) in
      if ltb c x then low else if c == x then equal else high

  -- `tst_search_suffix` of the key whose chars, the last first, are the list
  unfoldable pub search_suffix : Tst A → List ℕ → Option A
  unfolding suffix_loop
  search_suffix root [] = none
  search_suffix root (c ∷ s) = let (p, last) = suffix_loop root leaf (c ∷ s) in value_or_last p last

  -- `assert(p->value == NULL); p->value = value;`
  store : ℕ → Tst A → Tst A → Tst A → Option A → A → Option (Tst A)
  store x l e h none v = some (node x l e h (some v))
  store x l e h (some _) v = none

  with_low : ℕ → Tst A → Tst A → Tst A → Option A → Option (Tst A) → Option (Tst A)
  with_low x l e h w q = Option.map (λ t. node x t e h w) q

  with_equal : ℕ → Tst A → Tst A → Tst A → Option A → Option (Tst A) → Option (Tst A)
  with_equal x l e h w q = Option.map (λ t. node x l t h w) q

  with_high : ℕ → Tst A → Tst A → Tst A → Option A → Option (Tst A) → Option (Tst A)
  with_high x l e h w q = Option.map (λ t. node x l e t w) q

  -- `tst_insert_base`; of an empty key `*s` is the '\0' behind it
  insert_base : Tst A → List ℕ → A → Option (Tst A)
  unfolding store with_low with_equal with_high
  insert_base leaf [] v = store nul leaf leaf leaf none v
  insert_base leaf (c ∷ []) v = store c leaf leaf leaf none v
  insert_base leaf (c ∷ d ∷ s) v = with_equal c leaf leaf leaf none (insert_base leaf (d ∷ s) v)
  insert_base (node x l e h w) [] v =
      let low = with_low x l e h w (insert_base l [] v) in
      let high = with_high x l e h w (insert_base h [] v) in
      if ltb nul x then low else if nul == x then store x l e h w v else high
  insert_base (node x l e h w) (c ∷ []) v =
      let low = with_low x l e h w (insert_base l (c ∷ []) v) in
      let high = with_high x l e h w (insert_base h (c ∷ []) v) in
      if ltb c x then low else if c == x then store x l e h w v else high
  insert_base (node x l e h w) (c ∷ d ∷ s) v =
      let low = with_low x l e h w (insert_base l (c ∷ d ∷ s) v) in
      let equal = with_equal x l e h w (insert_base e (d ∷ s) v) in
      let high = with_high x l e h w (insert_base h (c ∷ d ∷ s) v) in
      if ltb c x then low else if c == x then equal else high

  -- `tst_insert`
  unfoldable pub insert : Tst A → List ℕ → A → Option (Tst A)
  unfolding insert_base
  insert p s v = insert_base p s v
