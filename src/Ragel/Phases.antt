-- ===== src/Ragel/Phases.antt =====
-- Machines whose states stand for phases of what they have called: a table is checked label by label,
-- and then every run keeps to the phases.
use mongrel.Prelude.{
  ℕ, ◌+◌, ◌≡◌, refl, sym, ap, ◌∙◌, Bool, true, false, ◌&&◌, ◌||◌, not, List, [], ◌∷◌, length, leb,
  arith,
}
use mongrel.Ragel.{Goto, st0, tr, fbreak, Switch, Machine, acts, run}
use mongrel.Ragel.Walk.{all_labels, label-all, run-End}

-- What the states stand for: which phases, what an action does to a phase, which phases are those of
-- a finished machine, and which of none; and a test of all phases.
pub record Phases (A P : Type 0) : Type 0 where
  pub allows : ℕ → P → Bool
  pub called : A → P → P
  pub is_complete : P → Bool
  pub is_wrong : P → Bool
  pub first_final : ℕ
  pub for_all : (P → Bool) → Bool

module _ {A P : Type 0} (phases : Phases A P) where
  open phases use {allows, called, is_complete, is_wrong, first_final, for_all}

  unfoldable pub all_called : List A → P → P
  all_called [] f = f
  all_called (a ∷ l) f = all_called l (called a f)

  unfoldable pub leads : ℕ → List A → ℕ → P → Bool
  unfolding all_called
  leads n l m f = not (allows n f) || allows m (all_called l f)

  unfoldable pub ends : ℕ → List A → ℕ → P → Bool
  unfolding all_called
  ends n l m f = not (allows n f) || (leb first_final m && is_complete (all_called l f))

  -- the test of a label of the state `n`
  unfoldable pub ordered : ℕ → Goto A → Bool
  unfolding leads ends
  ordered n st0 = true
  ordered n (tr l m) = for_all (leads n l m)
  ordered n (fbreak l m) = for_all (ends n l m)

  -- the calls at the end of a run: in order, and complete in a final state
  abbrev pub IsOrdered : ℕ → P → Type 0
  IsOrdered cs f = (is_wrong f ≡ false) × (leb first_final cs ≡ is_complete f)

  -- the laws that the phases meet
  pub record ArePhases : Type 0 where
    pub for_all-true : (t : P → Bool) (f : P) → for_all t ≡ true → t f ≡ true
    pub allows-open :
        (n : ℕ) (f : P)
        → allows n f ≡ true
        → (is_wrong f ≡ false) × (is_complete f ≡ false) × (leb first_final n ≡ false)
    pub complete_right : (f : P) → is_complete f ≡ true → is_wrong f ≡ false
    pub late : leb first_final 2 ≡ false

  module _ {S : Type 0} (act : A → ℕ → S → S) (table : List (ℕ × Switch A)) (laws : ArePhases)
      (phase_of : S → P)
      (act-called : (a : A) (p : ℕ) (s : S) → phase_of (act a p s) ≡ called a (phase_of s))
      (table-ordered : all_labels ordered table ≡ true) where
    acts-called :
        (l : List A) (p : ℕ) (s : S) → phase_of (acts act l p s) ≡ all_called l (phase_of s)
    unfolding acts all_called
    acts-called [] p s = refl
    acts-called (a ∷ l) p s = acts-called l p (act a p s) ∙ ap (all_called l) (act-called a p s)

    abbrev Allowed : Machine S → Type 0
    Allowed m = allows m.cs (phase_of m.parser) ≡ true

    still :
        (m : Machine S) (cs : ℕ)
        → Allowed m
        → leb first_final cs ≡ false
        → IsOrdered cs (phase_of m.parser)
    still m cs h e =
        let (right, open_, _) = laws.allows-open m.cs (phase_of m.parser) h in
        (right, e ∙ sym open_)

    pub run-IsOrdered :
        (rest : List ℕ) (m : Machine S)
        → Allowed m
        → (let r = run act table rest m in IsOrdered r.cs (phase_of r.parser))
    unfolding ordered leads ends
    run-IsOrdered rest m h =
        run-End act table (m.p + length rest) Allowed (λ r. IsOrdered r.cs (phase_of r.parser))
          (λ m at h. still m m.cs h (laws.allows-open m.cs (phase_of m.parser) h).2)
          (λ m c is h. still m 2 h laws.late)
          (λ m c is in_it h. still m 0 h (ground (arith, laws.late)))
          (λ m c l n is in_it h.
            let all =
              laws.for_all-true (leads m.cs l n) (phase_of m.parser)
                (label-all ordered table m.cs c table-ordered is) in
            rw (acts-called l m.p m.parser) (ground (arith, all, h)))
          (λ m c l n is in_it h.
            let all =
              laws.for_all-true (ends m.cs l n) (phase_of m.parser)
                (label-all ordered table m.cs c table-ordered is) in
            rw (acts-called l m.p m.parser) (
              laws.complete_right (all_called l (phase_of m.parser)) (ground (arith, all, h)),
              ground (arith, all, h),
            ))
          rest m refl h
