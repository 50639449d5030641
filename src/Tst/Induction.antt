-- ===== src/Tst/Induction.antt =====
-- Induction along an insert of src/adt/tst.c: one rule for each way that `tst_insert_base` goes.
use mathlib.Core.Option
use mongrel.Prelude.{
  ℕ, ◌≡◌, refl, true, false, Option, none, some, List, [], ◌∷◌, arith, ltb, ◌==◌, sym, subst,
  some-injective, inl, inr, Bool-cases,
}
use mongrel.Tst.{Tst, leaf, node, insert, insert_base, store}

-- `P t a k t'` is to hold where `t'` is `t` after the insert of `v` at the key `a ∷ k`.
pub record InsertSteps {ℓ κ} {A : Type ℓ} (P : Tst A → ℕ → List ℕ → Tst A → Type κ) (v : A)
    : Type (ℓ ⊔ κ) where
  -- a NULL tree becomes a new node first
  pub fresh : (a : ℕ) (k : List ℕ) (q : Tst A) → P (node a leaf leaf leaf none) a k q → P leaf a k q
  pub low :
      (x : ℕ) (l e h : Tst A) (w : Option A) (a : ℕ) (k : List ℕ) (q : Tst A)
      → ltb a x ≡ true
      → P l a k q
      → P (node x l e h w) a k (node x q e h w)
  pub high :
      (x : ℕ) (l e h : Tst A) (w : Option A) (a : ℕ) (k : List ℕ) (q : Tst A)
      → ltb a x ≡ false
      → (a == x) ≡ false
      → P h a k q
      → P (node x l e h w) a k (node x l e q w)
  pub equal :
      (x : ℕ) (l e h : Tst A) (w : Option A) (a c : ℕ) (k : List ℕ) (q : Tst A)
      → (a == x) ≡ true
      → P e c k q
      → P (node x l e h w) a (c ∷ k) (node x l q h w)
  pub here :
      (x : ℕ) (l e h : Tst A) (a : ℕ)
      → (a == x) ≡ true
      → P (node x l e h none) a [] (node x l e h (some v))

module _ {ℓ} {A : Type ℓ} where
  map-eq-some :
      (f : Tst A → Tst A) (o : Option (Tst A)) {t : Tst A}
      → Option.map f o ≡ some t
      → (q : Tst A) × (o ≡ some q) × (t ≡ f q)
  map-eq-some f none h = cc
  map-eq-some f (some q) h = (q, refl, sym (some-injective _ _ h))

module _ {ℓ κ} {A : Type ℓ} (P : Tst A → ℕ → List ℕ → Tst A → Type κ) (v : A)
    (steps : InsertSteps P v) where
  open steps use {fresh, low, high, equal, here}

  insert-here :
      (x : ℕ) (l e h : Tst A) (w : Option A) (a : ℕ) {t : Tst A}
      → (a == x) ≡ true
      → store x l e h w v ≡ some t
      → P (node x l e h w) a [] t
  unfolding store
  insert-here x l e h none a u i =
      subst (P (node x l e h none) a []) (some-injective _ _ i) (here x l e h a u)
  insert-here x l e h (some o) a u i = cc

  along :
      (t : Tst A) (a : ℕ) (k : List ℕ) {t' : Tst A} → insert_base t (a ∷ k) v ≡ some t' → P t a k t'
  unfolding insert_base
  along leaf a [] h =
      subst (P leaf a []) (some-injective _ _ h)
        (fresh a [] _ (here a leaf leaf leaf a (ground arith)))
  along leaf a (c ∷ k) h =
      let (q, i, e) = map-eq-some (λ t. node a leaf t leaf none) (insert_base leaf (c ∷ k) v) h in
      subst (P leaf a (c ∷ k)) (sym e)
        (fresh a (c ∷ k) _ (equal a leaf leaf leaf none a c k q (ground arith) (along leaf c k i)))
  along (node x l e h w) a [] i = elim (Bool-cases (ltb a x)) [
    | inl t ↦
        let (q, j, f) = map-eq-some (λ t. node x t e h w) (insert_base l (a ∷ []) v) (rw t at i) in
        subst (P (node x l e h w) a []) (sym f) (low x l e h w a [] q t (along l a [] j))
    | inr t ↦ elim (Bool-cases (a == x)) [
      | inl u ↦ insert-here x l e h w a u (rw (t, u) at i)
      | inr u ↦
          let (q, j, f) =
            map-eq-some (λ t. node x l e t w) (insert_base h (a ∷ []) v) (rw (t, u) at i) in
          subst (P (node x l e h w) a []) (sym f) (high x l e h w a [] q t u (along h a [] j))
    ]
  ]
  along (node x l e h w) a (c ∷ k) i = elim (Bool-cases (ltb a x)) [
    | inl t ↦
        let (q, j, f) =
          map-eq-some (λ t. node x t e h w) (insert_base l (a ∷ c ∷ k) v) (rw t at i) in
        subst (P (node x l e h w) a (c ∷ k)) (sym f)
          (low x l e h w a (c ∷ k) q t (along l a (c ∷ k) j))
    | inr t ↦ elim (Bool-cases (a == x)) [
      | inl u ↦
          let (q, j, f) =
            map-eq-some (λ t. node x l t h w) (insert_base e (c ∷ k) v) (rw (t, u) at i) in
          subst (P (node x l e h w) a (c ∷ k)) (sym f) (equal x l e h w a c k q u (along e c k j))
      | inr u ↦
          let (q, j, f) =
            map-eq-some (λ t. node x l e t w) (insert_base h (a ∷ c ∷ k) v) (rw (t, u) at i) in
          subst (P (node x l e h w) a (c ∷ k)) (sym f)
            (high x l e h w a (c ∷ k) q t u (along h a (c ∷ k) j))
    ]
  ]

  pub insert_induction :
      (t : Tst A) (a : ℕ) (k : List ℕ) {t' : Tst A} → insert t (a ∷ k) v ≡ some t' → P t a k t'
  unfolding insert
  insert_induction t a k h = along t a k h
