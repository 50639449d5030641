-- ===== src/Tst/Paths.antt =====
-- When an insert of src/adt/tst.c is refused, and which paths it lays.
use mathlib.Core.Option
use mongrel.Prelude.{
  ℕ, ◌≡◌, Bool, true, false, Option, none, some, List, [], ◌∷◌, arith, ◌||◌, ltb, ◌==◌, refl,
  if◌then◌else◌, not,
}
use mongrel.Tst.{Tst, leaf, node, search, insert, insert_base}
use mongrel.Tst.Search.{has_path}
use mongrel.Tst.Induction.{InsertSteps, insert_induction}
use mongrel.Tst.Insert.{is_prefix}

module _ {ℓ} {A : Type ℓ} where
  abbrev pub is_some : Option A → Bool
  is_some none = false
  is_some (some a) = true

  abbrev pub is_tree : Option (Tst A) → Bool
  is_tree none = false
  is_tree (some t) = true

  is_tree-map : (f : Tst A → Tst A) (o : Option (Tst A)) → is_tree (Option.map f o) ≡ is_tree o
  is_tree-map f none = refl
  is_tree-map f (some t) = refl

  insert_base-refuses :
      (t : Tst A) (a : ℕ) (k : List ℕ) (v : A)
      → is_tree (insert_base t (a ∷ k) v) ≡ (if is_some (search t (a ∷ k)) then false else true)
  unfolding insert_base search
  insert_base-refuses leaf a [] v = refl
  insert_base-refuses leaf a (c ∷ k) v = ground (arith, insert_base-refuses leaf c k v)
  insert_base-refuses (node x l e h w) a [] v =
      ground (arith, insert_base-refuses l a [] v, insert_base-refuses h a [] v)
  insert_base-refuses (node x l e h w) a (c ∷ k) v = ground (
    arith,
    insert_base-refuses l a (c ∷ k) v,
    insert_base-refuses e c k v,
    insert_base-refuses h a (c ∷ k) v,
  )

  abbrev Lays : Tst A → List ℕ → Tst A → Type 0
  Lays t k t' =
      (b : ℕ) (s : List ℕ) → has_path t' (b ∷ s) ≡ (has_path t (b ∷ s) || is_prefix (b ∷ s) k)

  leaf-Lays :
      (c : ℕ) (k : List ℕ) (q : Tst A)
      → Lays (node c leaf leaf leaf none) (c ∷ k) q
      → Lays leaf (c ∷ k) q
  unfolding has_path
  leaf-Lays c k q h b [] = ground (arith, h b [])
  leaf-Lays c k q h b (d ∷ s) = ground (arith, h b (d ∷ s))

  module _ (x : ℕ) (l e h : Tst A) (w : Option A) (a : ℕ) (k : List ℕ) (q : Tst A) where
    Lays-low : ltb a x ≡ true → Lays l (a ∷ k) q → Lays (node x l e h w) (a ∷ k) (node x q e h w)
    unfolding has_path
    Lays-low t ih b [] = ground (arith, ih b [])
    Lays-low t ih b (d ∷ s) = ground (arith, ih b (d ∷ s))

    Lays-high :
        ltb a x ≡ false
        → (a == x) ≡ false
        → Lays h (a ∷ k) q
        → Lays (node x l e h w) (a ∷ k) (node x l e q w)
    unfolding has_path
    Lays-high t u ih b [] = ground (arith, ih b [])
    Lays-high t u ih b (d ∷ s) = ground (arith, ih b (d ∷ s))

    Lays-equal :
        (c : ℕ)
        → (a == x) ≡ true
        → Lays e (c ∷ k) q
        → Lays (node x l e h w) (a ∷ c ∷ k) (node x l q h w)
    unfolding has_path
    Lays-equal c u ih b [] = ground arith
    Lays-equal c u ih b (d ∷ s) = ground (arith, ih d s)

  Lays-here :
      (x : ℕ) (l e h : Tst A) (a : ℕ) (v : A)
      → (a == x) ≡ true
      → Lays (node x l e h none) (a ∷ []) (node x l e h (some v))
  unfolding has_path
  Lays-here x l e h a v u b [] = ground arith
  Lays-here x l e h a v u b (d ∷ s) = ground arith

  Lays-steps : (v : A) → InsertSteps (λ t a k t'. Lays t (a ∷ k) t') v
  Lays-steps v = record {
    fresh = leaf-Lays;
    low = Lays-low;
    high = Lays-high;
    equal = λ x l e h w a c k q u f. Lays-equal x l e h w a k q c u f;
    here = λ x l e h a u. Lays-here x l e h a v u;
  }

  -- An insert of a key with at least one char succeeds exactly if nothing is stored at that key:
  -- the `assert` on a duplicate is its only failure.
  pub insert_refuses_duplicates :
      (t : Tst A) (a : ℕ) (k : List ℕ) (v : A)
      → is_tree (insert t (a ∷ k) v) ≡ not (is_some (search t (a ∷ k)))
  unfolding insert
  insert_refuses_duplicates t a k v = ground (arith, insert_base-refuses t a k v)

  -- After an insert of `a ∷ k` the tree has the paths that it had, and those to the prefixes of
  -- `a ∷ k`.
  pub has_path-insert :
      (t : Tst A) (a : ℕ) (k : List ℕ) (v : A) (b : ℕ) (s : List ℕ) {t' : Tst A}
      → insert t (a ∷ k) v ≡ some t'
      → has_path t' (b ∷ s) ≡ (has_path t (b ∷ s) || is_prefix (b ∷ s) (a ∷ k))
  has_path-insert t a k v b s h = insert_induction _ v (Lays-steps v) t a k h b s
