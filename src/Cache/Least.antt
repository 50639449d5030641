-- ===== src/Cache/Least.antt =====
-- Which entry `Cache_add` of src/cache.c takes, and that it is found afterwards.
use mongrel.Prelude.{
  ℕ, zero, suc, ◌+◌, ◌≤◌, ◌≡◌, refl, Option, none, some, List, [], ◌∷◌, map, ap, ◌∙◌, Bool-cases,
  inl, inr, ltb, arith,
}
use mongrel.Cache.{
  Entry, Cache, int_max, age, min_index, data_at, put_at, add, with_entries, evict_data,
}

module _ {ℓ} {D : Type ℓ} where
  -- no entry of a list is older
  abbrev pub IsLeast : ℕ → List (Entry D) → Type 0
  IsLeast t [] = Unit
  IsLeast t (e ∷ es) = (t ≤ e.tag) × IsLeast t es

  abbrev pub tag_at : ℕ → List (Entry D) → Option ℕ
  tag_at i [] = none
  tag_at zero (e ∷ es) = some e.tag
  tag_at (suc i) (e ∷ es) = tag_at i es

  IsLeast-le : (s t : ℕ) (es : List (Entry D)) → s ≤ t → IsLeast t es → IsLeast s es
  IsLeast-le s t [] h l = tt
  IsLeast-le s t (e ∷ es) h l = (ground arith, IsLeast-le s t es h l.1)

  tag_suc : (j : ℕ) (e : Entry D) (es : List (Entry D)) → tag_at (1 + j) (e ∷ es) ≡ tag_at j es
  tag_suc j e es = at_suc (1 + j) (omega arith)
    where
      at_suc : (n : ℕ) → n ≡ suc j → tag_at n (e ∷ es) ≡ tag_at j es
      at_suc n h = rw h refl

  with_entries-put_at :
      (k : ℕ) (d : Option D) (e : Entry D) (es : List (Entry D)) (c : Cache D)
      → let c' = with_entries (put_at k d int_max (map age (e ∷ es))) c in
        c'.first ∷ c'.rest ≡ put_at k d int_max (map age (e ∷ es))
  with_entries-put_at zero d e es c = refl
  with_entries-put_at (suc k) d e es c = refl

  with_entries-evicted :
      (es : List (Entry D)) (c : Cache D) → (with_entries es c).evicted ≡ c.evicted
  with_entries-evicted [] c = refl
  with_entries-evicted (e ∷ es) c = refl

  -- `at` gives the tags before `i`, and those of `es` from `i` on
  min_index_lem :
      (at : ℕ → Option ℕ) (min_tag min_idx i : ℕ) (es : List (Entry D))
      → at min_idx ≡ some min_tag
      → ((j : ℕ) → at (i + j) ≡ tag_at j es)
      → (t : ℕ) × (at (min_index min_tag min_idx i es) ≡ some t) × (t ≤ min_tag) × IsLeast t es
  unfolding min_index
  min_index_lem at min_tag min_idx i [] h f = (min_tag, h, omega arith, tt)
  min_index_lem at min_tag min_idx i (e ∷ es) h f =
      let later : (j : ℕ) → at (i + 1 + j) ≡ tag_at j es = λ j. ap at (omega arith) ∙ f (suc j) in
      elim (Bool-cases (ltb e.tag min_tag)) [
        | inl less ↦
            let here : at i ≡ some e.tag = ap at (omega arith) ∙ f 0 in
            let (t, found, below, least) = min_index_lem at e.tag i (i + 1) es here later in
            rw less (t, found, ground arith, (below, least))
        | inr more ↦
            let (t, found, below, least) = min_index_lem at min_tag min_idx (i + 1) es h later in
            rw more (t, found, below, (ground arith, least))
      ]

  -- `Cache_add` puts its data with the tag INT_MAX in place of an entry whose tag is the least, ages
  -- the tags of all other entries by one down to 0, and evicts the data that it replaces and no other.
  pub add-takes-IsLeast :
      (d : D) (c : Cache D)
      → let es = c.first ∷ c.rest in
        (k : ℕ) × (t : ℕ) × (tag_at k es ≡ some t)
        × IsLeast t es
        × ((add d c).first ∷ (add d c).rest ≡ put_at k (some d) int_max (map age es))
        × ((add d c).evicted ≡ (evict_data (data_at k es) c).evicted)
  unfolding add
  add-takes-IsLeast d c =
      let es = c.first ∷ c.rest in
      let (t, found, below, least) =
        min_index_lem (λ j. tag_at j es) c.first.tag 0 1 c.rest refl
          (λ j. tag_suc j c.first c.rest) in
      (
        min_index c.first.tag 0 1 c.rest,
        t,
        found,
        (below, least),
        with_entries-put_at (min_index c.first.tag 0 1 c.rest) (some d) c.first c.rest _,
        with_entries-evicted
            (put_at (min_index c.first.tag 0 1 c.rest) (some d) int_max (map age es)) _,
      )
