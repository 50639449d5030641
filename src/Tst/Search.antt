-- ===== src/Tst/Search.antt =====
-- What the searches of src/adt/tst.c find.
use mongrel.Prelude.{
  ℕ, ◌≡◌, refl, Bool, true, false, Option, none, some, List, [], ◌∷◌, if◌then◌else◌, ltb, ◌==◌,
  ◌++◌, inl, inr, sym, ap, ◌∙◌, Bool-cases,
}
use mongrel.Tst.{
  Tst, leaf, node, value, value_or_last, note_last, search_loop, search, prefix_loop, search_prefix,
  suffix_loop, search_suffix,
}

module _ {ℓ} {A : Type ℓ} where
  abbrev pub is_node : Tst A → Bool
  is_node leaf = false
  is_node (node _ _ _ _ _) = true

  -- the tree has a node for the last char of the key
  unfoldable pub has_path : Tst A → List ℕ → Bool
  unfolding search_loop
  has_path t s = is_node (search_loop t s)

  abbrev pub or_else : Option A → Option A → Option A
  or_else none d = d
  or_else (some a) d = some a

  -- What `f` gives for the longest proper prefix of `c ∷ s` at which it gives something,
  -- and `best` if there is none.
  abbrev pub longest_proper : (List ℕ → Option A) → Option A → ℕ → List ℕ → Option A
  longest_proper f best c [] = best
  longest_proper f best c (d ∷ s) = longest_proper (λ q. f (c ∷ q)) (or_else (f (c ∷ [])) best) d s

  pub longest_proper_cong :
      (f g : List ℕ → Option A) (best : Option A) (c : ℕ) (s : List ℕ)
      → ((q : List ℕ) → f (c ∷ q) ≡ g (c ∷ q))
      → longest_proper f best c s ≡ longest_proper g best c s
  longest_proper_cong f g best c [] h = refl
  longest_proper_cong f g best c (d ∷ s) h =
      rw (h []) (longest_proper_cong (λ q. f (c ∷ q)) (λ q. g (c ∷ q)) _ d s (λ q. h (d ∷ q)))

  pub longest_proper-none :
      (f : List ℕ → Option A) (best : Option A) (c : ℕ) (s : List ℕ)
      → ((q : List ℕ) → f (c ∷ q) ≡ none)
      → longest_proper f best c s ≡ best
  longest_proper-none f best c [] h = refl
  longest_proper-none f best c (d ∷ s) h =
      rw (h []) (longest_proper-none (λ q. f (c ∷ q)) best d s (λ q. h (d ∷ q)))

  value-note_last :
      (x : ℕ) (l e h : Tst A) (v : Option A) (last : Tst A)
      → value (note_last (node x l e h v) last) ≡ or_else v (value last)
  value-note_last x l e h none last = refl
  value-note_last x l e h (some v) last = refl

  module _ (x : ℕ) (l e h : Tst A) (v : Option A) (c : ℕ) where
    search_low : (q : List ℕ) → ltb c x ≡ true → search (node x l e h v) (c ∷ q) ≡ search l (c ∷ q)
    unfolding search
    search_low [] t = rw t
    search_low (d ∷ s) t = rw t

    search_high :
        (q : List ℕ)
        → ltb c x ≡ false
        → (c == x) ≡ false
        → search (node x l e h v) (c ∷ q) ≡ search h (c ∷ q)
    unfolding search
    search_high [] t u = rw (t, u)
    search_high (d ∷ s) t u = rw (t, u)

    search_equal :
        (d : ℕ) (s : List ℕ)
        → ltb c x ≡ false
        → (c == x) ≡ true
        → search (node x l e h v) (c ∷ d ∷ s) ≡ search e (d ∷ s)
    unfolding search
    search_equal d s t u = rw (t, u)

    search_here : ltb c x ≡ false → (c == x) ≡ true → search (node x l e h v) (c ∷ []) ≡ v
    unfolding search
    search_here t u = rw (t, u)

  -- what the search for `c ∷ s` returns, if it has `best` at hand
  abbrev pub prefix_result : Tst A → Option A → ℕ → List ℕ → Option A
  prefix_result t best c s =
      if has_path t (c ∷ s) then search t (c ∷ s) else longest_proper (search t) best c s

  abbrev ends : Tst A × Tst A → Option A
  ends (p, last) = value_or_last p last

  otherwise :
      (t : Tst A) (k : List ℕ) {y z : Option A}
      → y ≡ z
      → (if has_path t k then search t k else y) ≡ (if has_path t k then search t k else z)
  otherwise t k e = ap (λ w. if has_path t k then search t k else w) e

  prefix_loop_lem :
      (t last : Tst A) (c : ℕ) (s : List ℕ)
      → ends (prefix_loop t last (c ∷ s)) ≡ prefix_result t (value last) c s
  unfolding prefix_loop has_path
  prefix_loop_lem leaf last c s =
      sym (longest_proper-none (search leaf) (value last) c s (λ q. unfold search in refl))
  prefix_loop_lem (node x l e h v) last c [] = elim (Bool-cases (ltb c x)) [
    | inl t ↦ rw (t, search_low x l e h v c [] t) (prefix_loop_lem l last c [])
    | inr t ↦ elim (Bool-cases (c == x)) [
      | inl u ↦ rw (t, u, search_here x l e h v c t u)
      | inr u ↦ rw (t, u, search_high x l e h v c [] t u) (prefix_loop_lem h last c [])
    ]
  ]
  prefix_loop_lem (node x l e h v) last c (d ∷ s) = elim (Bool-cases (ltb c x)) [
    | inl t ↦
        rw (t, search_low x l e h v c (d ∷ s) t)
          (prefix_loop_lem l last c (d ∷ s)
            ∙ otherwise l (c ∷ d ∷ s) (
                longest_proper_cong (search l) (search (node x l e h v)) (value last) c (d ∷ s)
                  (λ q. sym (search_low x l e h v c q t))))
    | inr t ↦ elim (Bool-cases (c == x)) [
      | inl u ↦
          rw (t, u, search_equal x l e h v c d s t u)
            (prefix_loop_lem e (note_last (node x l e h v) last) d s
              ∙ otherwise e (d ∷ s) (
                  ap (λ best. longest_proper (search e) best d s)
                    (value-note_last x l e h v last
                      ∙ ap (λ w. or_else w (value last)) (sym (search_here x l e h v c t u)))
                  ∙ longest_proper_cong (search e) (λ q. search (node x l e h v) (c ∷ q))
                      (or_else (search (node x l e h v) (c ∷ [])) (value last)) d s
                      (λ q. sym (search_equal x l e h v c d q t u))))
      | inr u ↦
          rw (t, u, search_high x l e h v c (d ∷ s) t u)
            (prefix_loop_lem h last c (d ∷ s)
              ∙ otherwise h (c ∷ d ∷ s) (
                  longest_proper_cong (search h) (search (node x l e h v)) (value last) c (d ∷ s)
                    (λ q. sym (search_high x l e h v c q t u))))
    ]
  ]

  -- A prefix search for `c ∷ s` returns the value stored under that key if the tree has a path for
  -- it, be it NULL, and otherwise the value stored under its longest proper prefix that has one.
  pub search_prefix_lem :
      (t : Tst A) (c : ℕ) (s : List ℕ) → search_prefix t (c ∷ s) ≡ prefix_result t none c s
  unfolding search_prefix
  search_prefix_lem t c s = prefix_loop_lem t leaf c s

  suffix_loop_lem :
      (t last : Tst A) (s : List ℕ) (a b : ℕ)
      → suffix_loop t last (s ++ a ∷ []) ≡ suffix_loop t last (s ++ b ∷ [])
  unfolding suffix_loop
  suffix_loop_lem t last [] a b = refl
  suffix_loop_lem leaf last (c ∷ []) a b = refl
  suffix_loop_lem leaf last (c ∷ d ∷ s) a b = refl
  suffix_loop_lem (node x l e h v) last (c ∷ []) a b =
      rw (suffix_loop_lem l last (c ∷ []) a b, suffix_loop_lem h last (c ∷ []) a b)
  suffix_loop_lem (node x l e h v) last (c ∷ d ∷ s) a b = rw (
    suffix_loop_lem l last (c ∷ d ∷ s) a b,
    suffix_loop_lem h last (c ∷ d ∷ s) a b,
    suffix_loop_lem e (note_last (node x l e h v) last) (d ∷ s) a b,
  )

  -- A suffix search never compares the last char of the reversed key, which is the first of the
  -- host name: two keys that differ in nothing else find the same.
  pub search_suffix_ignores_first :
      (t : Tst A) (s : List ℕ) (a b : ℕ)
      → search_suffix t (s ++ a ∷ []) ≡ search_suffix t (s ++ b ∷ [])
  unfolding search_suffix
  search_suffix_ignores_first t [] a b = refl
  search_suffix_ignores_first t (c ∷ s) a b = rw (suffix_loop_lem t leaf (c ∷ s) a b)
