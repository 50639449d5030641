-- ===== src/Tst/Collect/Subtree.antt =====
-- Which values `tst_collect` of src/adt/tst.c gives.
use mathlib.Core.Option
use mathlib.Core.List.Perm
use mathlib.Core.List.{Perm, Permᴰ}
use mathlib.Core.Logic.{∥∥₁_elim, ∥∥₁_prop}
use mongrel.Prelude.{
  ℕ, ◌≡◌, refl, sym, ap, ◌∙◌, Bool, true, false, Option, none, some, List, [], ◌∷◌, if◌then◌else◌,
  ltb, ◌==◌, inl, inr, Bool-cases, some-injective, subst,
}
use mongrel.Tst.{Tst, leaf, node, note_last, search_loop, prefix_loop}
use mongrel.Tst.Search.{or_else, longest_proper, longest_proper_cong, longest_proper-none}
use mongrel.Tst.Traverse.{traverse}
use mongrel.Tst.Traverse.Order.{values, traverse-perm}
use mongrel.Tst.Collect.{keeps, build_all, collect_from, collect}

module _ {ℓ} {A : Type ℓ} where
  -- a node that has a value
  abbrev valued : Tst A → Option (Tst A)
  valued leaf = none
  valued (node x l e h none) = none
  valued (node x l e h (some v)) = some (node x l e h (some v))

  -- the node at which the search for a key ends
  unfoldable pub node_at : Tst A → List ℕ → Tst A
  unfolding search_loop
  node_at t s = search_loop t s

  -- the nodes of the proper prefixes of a key that have a value, and the longest of them
  abbrev last_noted : Tst A → Tst A → ℕ → List ℕ → Option (Tst A)
  last_noted t last c s = longest_proper (λ q. valued (node_at t q)) (some last) c s

  -- The tree that `tst_collect` traverses: that of the node at which the search for the key ends, or
  -- that of the longest prefix with a value, or else the whole.
  unfoldable pub subtree : Tst A → ℕ → List ℕ → Tst A
  subtree root c s = elim (node_at root (c ∷ s)) [
    | leaf ↦ elim (last_noted root root c s) [ none ↦ root | some t ↦ t ]
    | node x l e h v ↦ node x l e h v
  ]

  -- the values that pass a test
  abbrev pub passing : (A → Bool) → List A → List A
  passing test [] = []
  passing test (v ∷ vs) = let rest = passing test vs in if test v then v ∷ rest else rest

  module _ (x : ℕ) (l e h : Tst A) (v : Option A) (c : ℕ) where
    node_at_low :
        (q : List ℕ) → ltb c x ≡ true → node_at (node x l e h v) (c ∷ q) ≡ node_at l (c ∷ q)
    unfolding node_at
    node_at_low [] t = rw t
    node_at_low (d ∷ s) t = rw t

    node_at_high :
        (q : List ℕ)
        → ltb c x ≡ false
        → (c == x) ≡ false
        → node_at (node x l e h v) (c ∷ q) ≡ node_at h (c ∷ q)
    unfolding node_at
    node_at_high [] t u = rw (t, u)
    node_at_high (d ∷ s) t u = rw (t, u)

    node_at_equal :
        (d : ℕ) (s : List ℕ)
        → ltb c x ≡ false
        → (c == x) ≡ true
        → node_at (node x l e h v) (c ∷ d ∷ s) ≡ node_at e (d ∷ s)
    unfolding node_at
    node_at_equal d s t u = rw (t, u)

    node_at_here :
        ltb c x ≡ false → (c == x) ≡ true → node_at (node x l e h v) (c ∷ []) ≡ node x l e h v
    unfolding node_at
    node_at_here t u = rw (t, u)

  prefix_loop-node_at :
      (t last : Tst A) (c : ℕ) (s : List ℕ) → (prefix_loop t last (c ∷ s)).0 ≡ node_at t (c ∷ s)
  unfolding prefix_loop node_at
  prefix_loop-node_at leaf last c s = refl
  prefix_loop-node_at (node x l e h v) last c [] = elim (Bool-cases (ltb c x)) [
    | inl t ↦ rw t (prefix_loop-node_at l last c [])
    | inr t ↦ elim (Bool-cases (c == x)) [
      | inl u ↦ rw (t, u)
      | inr u ↦ rw (t, u) (prefix_loop-node_at h last c [])
    ]
  ]
  prefix_loop-node_at (node x l e h v) last c (d ∷ s) = elim (Bool-cases (ltb c x)) [
    | inl t ↦ rw t (prefix_loop-node_at l last c (d ∷ s))
    | inr t ↦ elim (Bool-cases (c == x)) [
      | inl u ↦ rw (t, u) (prefix_loop-node_at e (note_last (node x l e h v) last) d s)
      | inr u ↦ rw (t, u) (prefix_loop-node_at h last c (d ∷ s))
    ]
  ]

  build_all-passing : (test : A → Bool) (vs : List A) → build_all (some test) vs ≡ passing test vs
  unfolding build_all keeps
  build_all-passing test [] = refl
  build_all-passing test (v ∷ vs) = rw (build_all-passing test vs)

  take_if-perm :
      (test : A → Bool) {a b : A} {p q : List A}
      → a ≡ b
      → Perm p q
      → Perm (if test a then a ∷ p else p) (if test b then b ∷ q else q)
  take_if-perm test {a} {p = p} {q = q} e h =
      subst (λ z. Perm (if test a then a ∷ p else p) (if test z then z ∷ q else q)) e
        (kept (test a))
    where
      kept : (yes : Bool) → Perm (if yes then a ∷ p else p) (if yes then a ∷ q else q)
      kept true = Perm.cons a h
      kept false = h

  swap_if-perm :
      (first second : Bool) (a b : A) (r : List A)
      → Perm
          (if first then a ∷ (if second then b ∷ r else r) else (if second then b ∷ r else r))
          (if second then b ∷ (if first then a ∷ r else r) else (if first then a ∷ r else r))
  swap_if-perm true true a b r = Perm.swap b a r
  swap_if-perm true false a b r = Perm.refl _
  swap_if-perm false true a b r = Perm.refl _
  swap_if-perm false false a b r = Perm.refl _

  passing-perm_lem :
      (test : A → Bool) {p q : List A} → Permᴰ p q → Perm (passing test p) (passing test q)
  passing-perm_lem test Permᴰ.nil = Perm.nil
  passing-perm_lem test (Permᴰ.cons e d) = take_if-perm test e (passing-perm_lem test d)
  passing-perm_lem test (Permᴰ.swap {a} {b} {l = l} e g) =
      Perm.trans (swap_if-perm (test a) (test b) a b (passing test l))
        (take_if-perm test g (take_if-perm test e (Perm.refl (passing test l))))
  passing-perm_lem test (Permᴰ.trans d f) =
      Perm.trans (passing-perm_lem test d) (passing-perm_lem test f)

  passing-perm :
      (test : A → Bool) {p q : List A} → Perm p q → Perm (passing test p) (passing test q)
  passing-perm test h = ∥∥₁_elim h ∥∥₁_prop (passing-perm_lem test)

  prefix_loop-last_noted :
      (t last : Tst A) (c : ℕ) (s : List ℕ)
      → some (prefix_loop t last (c ∷ s)).1 ≡ last_noted t last c s
  unfolding prefix_loop
  prefix_loop-last_noted leaf last c s = sym (
      longest_proper-none (λ q. valued (node_at leaf q)) (some last) c s
        (λ q. unfold node_at in refl))
  prefix_loop-last_noted (node x l e h v) last c [] = elim (Bool-cases (ltb c x)) [
    | inl t ↦ rw t (prefix_loop-last_noted l last c [])
    | inr t ↦ elim (Bool-cases (c == x)) [
      | inl u ↦ rw (t, u)
      | inr u ↦ rw (t, u) (prefix_loop-last_noted h last c [])
    ]
  ]
  prefix_loop-last_noted (node x l e h v) last c (d ∷ s) = elim (Bool-cases (ltb c x)) [
    | inl t ↦ rw t (
        prefix_loop-last_noted l last c (d ∷ s)
        ∙ longest_proper_cong (λ q. valued (node_at l q)) (λ q. valued (node_at root q)) (some last)
            c (d ∷ s) (λ q. ap valued (sym (node_at_low x l e h v c q t))))
    | inr t ↦ elim (Bool-cases (c == x)) [
      | inl u ↦
          rw (t, u)
            (prefix_loop-last_noted e (note_last root last) d s
              ∙ ap (λ best. longest_proper (λ q. valued (node_at e q)) best d s)
                  (note_last-valued last v
                    ∙ ap (λ w. or_else (valued w) (some last)) (sym (node_at_here x l e h v c t u)))
              ∙ longest_proper_cong (λ q. valued (node_at e q)) (λ q. valued (node_at root (c ∷ q)))
                  (or_else (valued (node_at root (c ∷ []))) (some last)) d s
                  (λ q. ap valued (sym (node_at_equal x l e h v c d q t u))))
      | inr u ↦
          rw (t, u)
            (prefix_loop-last_noted h last c (d ∷ s)
              ∙ longest_proper_cong (λ q. valued (node_at h q)) (λ q. valued (node_at root q))
                  (some last) c (d ∷ s) (λ q. ap valued (sym (node_at_high x l e h v c q t u))))
    ]
  ]
    where
      root : Tst A
      root = node x l e h v

      note_last-valued :
          (last : Tst A) (v : Option A)
          → some (note_last (node x l e h v) last) ≡ or_else (valued (node x l e h v)) (some last)
      note_last-valued last none = refl
      note_last-valued last (some a) = refl

  collect_from-subtree :
      (test : A → Bool) (root : Tst A) (c : ℕ) (s : List ℕ)
      → (let r = prefix_loop root root (c ∷ s) in collect_from (some test) r.0 r.1)
        ≡ subtree root c s
  unfolding collect_from subtree
  collect_from-subtree test root c s =
      ap (λ p. collect_from (some test) p (prefix_loop root root (c ∷ s)).1)
        (prefix_loop-node_at root root c s)
      ∙ by_node (node_at root (c ∷ s)) (last_noted root root c s)
          (prefix_loop-last_noted root root c s)
    where
      by_node :
          (p : Tst A) (o : Option (Tst A)) {last : Tst A}
          → some last ≡ o
          → collect_from (some test) p last ≡ elim p [
            | leaf ↦ elim o [ none ↦ root | some t ↦ t ]
            | node x l e h v ↦ node x l e h v
          ]
      by_node leaf none {last} h = absurd (none_some h)
        where
          none_some : {a : Tst A} → some a ≡ none → ⊥
          none_some e = cc
      by_node leaf (some t) {last} h = some-injective _ _ h
      by_node (node x l e h v) o g = refl

  -- `tst_collect` with a tester for a key of one char or more always ends, and gives the values of
  -- `subtree` that pass the test, each as often as it is stored there, in some order.
  pub collect-subtree :
      (test : A → Bool) (root : Tst A) (c : ℕ) (s : List ℕ)
      → (out : List A) × (collect (some test) root (c ∷ s) ≡ some out)
        × Perm out (passing test (values (subtree root c s)))
  unfolding collect
  collect-subtree test root c s =
      let (vs, ran, same) = traverse-perm (subtree root c s) in
      (
        build_all (some test) vs,
        ap (λ t. Option.map (build_all (some test)) (traverse t))
              (collect_from-subtree test root c s)
            ∙ ap (Option.map (build_all (some test))) ran,
        rw (build_all-passing test vs) (passing-perm test same),
      )
