-- ===== src/Ragel/Walk.antt =====
-- Reasoning about a machine of `Ragel`: what holds of every label of its table, and what holds all
-- along a run.
use mongrel.Prelude.{
  ℕ, ◌+◌, ◌≡◌, refl, ◌<◌, inl, inr, Bool, true, ◌&&◌, Option, none, some, List, [], ◌∷◌, length,
  ◌==◌, arith, Bool-cases, ==_iff, subst, some-injective,
}
use mongrel.Ragel.{
  Goto, st0, tr, fbreak, Switch, goto, when, choose, lookup, label, Machine, acts, run,
}

module _ {A : Type 0} where
  -- a test of all labels that a `case` can jump to
  unfoldable pub all_gotos : (Goto A → Bool) → Switch A → Bool
  all_gotos f (goto g) = f g
  all_gotos f (when t a b) = all_gotos f a && all_gotos f b

  choose-all :
      (f : Goto A → Bool) (s : Switch A) (c : ℕ) → all_gotos f s ≡ true → f (choose s c) ≡ true
  unfolding all_gotos choose
  choose-all f (goto g) c h = h
  choose-all f (when t a b) c h = ground (arith, choose-all f a c, choose-all f b c)

  -- a test of all labels of a table, with the states they stand in
  unfoldable pub all_labels : (ℕ → Goto A → Bool) → List (ℕ × Switch A) → Bool
  unfolding all_gotos
  all_labels f [] = true
  all_labels f ((n, s) ∷ table) = all_gotos (f n) s && all_labels f table

  pub label-all :
      (f : ℕ → Goto A → Bool) (table : List (ℕ × Switch A)) (cs c : ℕ) {g : Goto A}
      → all_labels f table ≡ true
      → label table cs c ≡ some g
      → f cs g ≡ true
  unfolding all_labels label lookup
  label-all f [] cs c all e = ground arith
  label-all f ((n, s) ∷ table) cs c {g} all e = elim (Bool-cases (n == cs)) [
    | inl same ↦
        subst (λ k. f k g ≡ true) ((==_iff n cs).0 same)
          (subst (λ h. f n h ≡ true) (some-injective (choose s c) g (rw (label, same) at e))
            (choose-all (f n) s c (ground (arith, all))))
    | inr other ↦ label-all f table cs c (ground (arith, all)) (rw (label, other) at e)
  ]

-- what a run does at a label, with the chars behind `*p`
unfoldable pub next :
    {A S : Type 0} (act : A → ℕ → S → S) (table : List (ℕ × Switch A))
    → List ℕ
    → Machine S
    → Option (Goto A)
    → Machine S
next act table rest m none = record m { cs = 2 }
next act table rest m (some st0) = record m { cs = 0 }
next act table rest m (some (tr l n)) =
    run act table rest (record { p = m.p + 1; cs = n; parser = acts act l m.p m.parser })
next act table rest m (some (fbreak l n)) = record {
  p = m.p + 1;
  cs = n;
  parser = acts act l m.p m.parser;
}

module _ {A S : Type 0} (act : A → ℕ → S → S) (table : List (ℕ × Switch A)) (pe : ℕ)
    (Live End : Machine S → Type 0) (test_eof : (m : Machine S) → m.p ≡ pe → Live m → End m)
    (none_there : (m : Machine S) (c : ℕ)
      → label table m.cs c ≡ none
      → Live m
      → End (record m { cs = 2 }))
    (refuse : (m : Machine S) (c : ℕ)
      → label table m.cs c ≡ some st0
      → m.p < pe
      → Live m
      → End (record m { cs = 0 }))
    (go_on : (m : Machine S) (c : ℕ) (l : List A) (n : ℕ)
      → label table m.cs c ≡ some (tr l n)
      → m.p < pe
      → Live m
      → Live (record { p = m.p + 1; cs = n; parser = acts act l m.p m.parser }))
    (leave : (m : Machine S) (c : ℕ) (l : List A) (n : ℕ)
      → label table m.cs c ≡ some (fbreak l n)
      → m.p < pe
      → Live m
      → End (record { p = m.p + 1; cs = n; parser = acts act l m.p m.parser })) where
  -- what holds of a machine before each char gives what holds of it where the run ends
  pub run-End :
      (rest : List ℕ) (m : Machine S) → m.p + length rest ≡ pe → Live m → End (run act table rest m)
  unfolding run next
  run-End [] m e h = test_eof m (omega arith) h
  run-End (c ∷ rest) m e h =
      elim (label table m.cs c) as (λ g. label table m.cs c ≡ g → End (next act table rest m g)) [
        | none ↦ λ is. none_there m c is h
        | some st0 ↦ λ is. refuse m c is (omega arith) h
        | some (tr l n) ↦ λ is.
            run-End rest (record { p = m.p + 1; cs = n; parser = acts act l m.p m.parser })
              (omega arith) (go_on m c l n is (omega arith) h)
        | some (fbreak l n) ↦ λ is. leave m c l n is (omega arith) h
      ]
        refl
