-- ===== src/Tst/Insert.antt =====
-- What the searches of src/adt/tst.c find after an insert.
use mongrel.Prelude.{
  ℕ, ◌≡◌, Bool, true, false, Option, none, some, List, [], ◌∷◌, arith, if◌then◌else◌, ◌==◌, ◌&&◌,
  ltb,
}
use mongrel.Tst.{Tst, leaf, node, search, insert}
use mongrel.Tst.Induction.{InsertSteps, insert_induction}

abbrev pub same_key : List ℕ → List ℕ → Bool
same_key [] [] = true
same_key (c ∷ s) (d ∷ t) = c == d && same_key s t
same_key _ _ = false

-- `is_prefix s k`: `k` begins with `s`
abbrev pub is_prefix : List ℕ → List ℕ → Bool
is_prefix [] k = true
is_prefix (c ∷ s) [] = false
is_prefix (c ∷ s) (d ∷ k) = c == d && is_prefix s k

module _ {ℓ} {A : Type ℓ} where
  abbrev Finds : Tst A → List ℕ → A → Tst A → Type ℓ
  Finds t k v t' =
      (b : ℕ) (j : List ℕ)
      → search t' (b ∷ j) ≡ (if same_key k (b ∷ j) then some v else search t (b ∷ j))

  -- the three ways down from a node, and the end of the key
  Finds-low :
      (x : ℕ) (l e h : Tst A) (w : Option A) (a : ℕ) (k : List ℕ) (v : A) (q : Tst A)
      → ltb a x ≡ true
      → Finds l (a ∷ k) v q
      → Finds (node x l e h w) (a ∷ k) v (node x q e h w)
  unfolding search
  Finds-low x l e h w a k v q t ih b [] = ground (arith, ih b [])
  Finds-low x l e h w a k v q t ih b (d ∷ s) = ground (arith, ih b (d ∷ s))

  Finds-high :
      (x : ℕ) (l e h : Tst A) (w : Option A) (a : ℕ) (k : List ℕ) (v : A) (q : Tst A)
      → ltb a x ≡ false
      → (a == x) ≡ false
      → Finds h (a ∷ k) v q
      → Finds (node x l e h w) (a ∷ k) v (node x l e q w)
  unfolding search
  Finds-high x l e h w a k v q t u ih b [] = ground (arith, ih b [])
  Finds-high x l e h w a k v q t u ih b (d ∷ s) = ground (arith, ih b (d ∷ s))

  Finds-equal :
      (x : ℕ) (l e h : Tst A) (w : Option A) (a c : ℕ) (k : List ℕ) (v : A) (q : Tst A)
      → (a == x) ≡ true
      → Finds e (c ∷ k) v q
      → Finds (node x l e h w) (a ∷ c ∷ k) v (node x l q h w)
  unfolding search
  Finds-equal x l e h w a c k v q u ih b [] = ground arith
  Finds-equal x l e h w a c k v q u ih b (d ∷ s) = ground (arith, ih d s)

  Finds-here :
      (x : ℕ) (l e h : Tst A) (a : ℕ) (v : A)
      → (a == x) ≡ true
      → Finds (node x l e h none) (a ∷ []) v (node x l e h (some v))
  unfolding search
  Finds-here x l e h a v u b [] = ground arith
  Finds-here x l e h a v u b (d ∷ s) = ground arith

  -- a new node behaves as the NULL tree that it replaces, before its value is set
  leaf-Finds :
      (c : ℕ) (k : List ℕ) (v : A) (q : Tst A)
      → Finds (node c leaf leaf leaf none) k v q
      → Finds leaf k v q
  unfolding search
  leaf-Finds c k v q h b [] = ground (arith, h b [])
  leaf-Finds c k v q h b (d ∷ s) = ground (arith, h b (d ∷ s))

  Finds-steps : (v : A) → InsertSteps (λ t a k t'. Finds t (a ∷ k) v t') v
  Finds-steps v = record {
    fresh = λ a k q f. leaf-Finds a (a ∷ k) v q f;
    low = λ x l e h w a k q t f. Finds-low x l e h w a k v q t f;
    high = λ x l e h w a k q t u f. Finds-high x l e h w a k v q t u f;
    equal = λ x l e h w a c k q u f. Finds-equal x l e h w a c k v q u f;
    here = λ x l e h a u. Finds-here x l e h a v u;
  }

  -- After an insert of a key with at least one char, a search finds the value at that key, and at
  -- every other key with at least one char what it found before.
  pub search-insert :
      (t : Tst A) (a : ℕ) (k : List ℕ) (v : A) (b : ℕ) (j : List ℕ) {t' : Tst A}
      → insert t (a ∷ k) v ≡ some t'
      → search t' (b ∷ j) ≡ (if same_key (a ∷ k) (b ∷ j) then some v else search t (b ∷ j))
  search-insert t a k v b j h = insert_induction _ v (Finds-steps v) t a k h b j
