-- ===== src/HttpParser/Resume/Pieces.antt =====
-- Runs on the first part of a buffer, compared with runs on the whole of it.
use mongrel.Prelude.{
  ℕ, ◌+◌, ◌≡◌, refl, ◌≤◌, ◌≢◌, sym, ap, ◌∙◌, subst, Bool, true, false, ◌&&◌, ◌||◌, not, none, some,
  List, [], ◌∷◌, ◌++◌, length, ltb, leb, ◌==◌, if◌then◌else◌, arith, Bool-cases, inl, inr, ==_iff,
}
use mongrel.Ragel.{Goto, st0, tr, fbreak, Machine, acts, run, label, lookup}
use mongrel.Ragel.Walk.{all_labels, label-all, next, run-End}
use mongrel.HttpParser.{HttpParser, Action, act}
use mongrel.HttpParser.Cases.{table}

is_done : Action → Bool
is_done Action.done = true
is_done a = false

any_done : List Action → Bool
unfolding is_done
any_done [] = false
any_done (a ∷ l) = is_done a || any_done l

unfoldable pub has_case : ℕ → Bool
has_case n = elim (lookup n table) [ none ↦ false | some s ↦ true ]

-- `done` stands before an `fbreak`, which leads to a final state, and the other labels lead to a
-- state that is not final
tidy : ℕ → Goto Action → Bool
unfolding any_done has_case
tidy n st0 = true
tidy n (tr l m) = not (any_done l) && ltb m 95 && has_case m
tidy n (fbreak l m) = leb 95 m

table-tidy : all_labels tidy table ≡ true
unfolding tidy table all_labels lookup
table-tidy = refl

has_case-none : (n c : ℕ) → has_case n ≡ true → label table n c ≢ none
unfolding has_case label
has_case-none n c h e = ground (arith, h, e)

has_case-nonzero : (n : ℕ) → has_case n ≡ true → (n == 0) ≡ false
unfolding has_case table lookup
has_case-nonzero n h = elim (Bool-cases (n == 0)) [
  | inl zero_ ↦ ground (arith, subst (λ k. has_case k ≡ true) ((==_iff n 0).0 zero_) h)
  | inr e ↦ e
]

-- a parser with another `cs` and `nread`
abbrev pub named : ℕ → ℕ → HttpParser → HttpParser
named a b s = record s { cs = a; nread = b }

abbrev pub renamed : ℕ → ℕ → Machine HttpParser → Machine HttpParser
renamed a b m = record m { parser = named a b m.parser }

act-named :
    (x : Action) (pe pe' a b p : ℕ) (s : HttpParser)
    → is_done x ≡ false
    → act pe' x p (named a b s) ≡ named a b (act pe x p s)
unfolding act is_done
act-named Action.done pe pe' a b p s h = ground arith
act-named _ pe pe' a b p s h = refl

acts-named :
    (l : List Action) (pe pe' a b p : ℕ) (s : HttpParser)
    → any_done l ≡ false
    → acts (act pe') l p (named a b s) ≡ named a b (acts (act pe) l p s)
unfolding acts any_done
acts-named [] pe pe' a b p s h = refl
acts-named (x ∷ l) pe pe' a b p s h =
    ap (λ t. acts (act pe') l p t) (act-named x pe pe' a b p s (ground (arith, h)))
    ∙ acts-named l pe pe' a b p (act pe x p s) (ground (arith, h))

module _ (pe pe' a b : ℕ) (ys : List ℕ) where
  -- behind a piece, in a buffer of other length and for a parser with other names
  unfoldable pub Resumes : Machine HttpParser → Machine HttpParser → Type 0
  Resumes r whole =
      leb 95 r.cs ≡ false
      → whole ≡ (if r.cs == 0 then renamed a b r else run (act pe') table ys (renamed a b r))

  pub run-Resumes :
      (xs : List ℕ) (m : Machine HttpParser)
      → has_case m.cs ≡ true
      → Resumes (run (act pe) table xs m) (run (act pe') table (xs ++ ys) (renamed a b m))
  unfolding run next Resumes tidy
  run-Resumes [] m h = λ open_. rw (has_case-nonzero m.cs h) refl
  run-Resumes (c ∷ xs) m h =
      elim (label table m.cs c)
          as (λ g.
            label table m.cs c ≡ g
            → Resumes (next (act pe) table xs m g)
                (next (act pe') table (xs ++ ys) (renamed a b m) g)) [
                  | none ↦ λ is. elim (has_case-none m.cs c h is) [ ]
                  | some st0 ↦ λ is. λ open_. refl
                  | some (tr l n) ↦ λ is.
                      let ok = label-all tidy table m.cs c table-tidy is in
                      subst
                        (λ s.
                          Resumes
                            (run (act pe) table xs (record {
                              p = m.p + 1;
                              cs = n;
                              parser = acts (act pe) l m.p m.parser;
                            }))
                            (run (act pe') table (xs ++ ys)
                              (record { p = m.p + 1; cs = n; parser = s })))
                        (sym (acts-named l pe pe' a b m.p m.parser (ground (arith, ok))))
                        (run-Resumes xs
                          (record { p = m.p + 1; cs = n; parser = acts (act pe) l m.p m.parser })
                          (ground (arith, ok)))
                  | some (fbreak l n) ↦ λ is.
                      λ open_. ground (arith, label-all tidy table m.cs c table-tidy is, open_)
                ]
        refl

acts-renames :
    (l : List Action) (pe a b p : ℕ) (s : HttpParser)
    → acts (act pe) l p (named a b s) ≡ named a b (acts (act pe) l p s)
unfolding acts act
acts-renames [] pe a b p s = refl
acts-renames (x ∷ l) pe a b p s =
    ap (λ t. acts (act pe) l p t) (act-renames x) ∙ acts-renames l pe a b p (act pe x p s)
  where
    act-renames : (x : Action) → act pe x p (named a b s) ≡ named a b (act pe x p s)
    act-renames Action.done = refl
    act-renames _ = refl

-- no test of the block reads the parser's own `cs` or `nread`
pub run-renamed :
    (pe a b : ℕ) (ys : List ℕ) (m : Machine HttpParser)
    → run (act pe) table ys (renamed a b m) ≡ renamed a b (run (act pe) table ys m)
unfolding run next
run-renamed pe a b [] m = refl
run-renamed pe a b (c ∷ ys) m =
    elim (label table m.cs c)
      as (λ g.
        next (act pe) table ys (renamed a b m) g ≡ renamed a b (next (act pe) table ys m g)) [
          | none ↦ refl
          | some st0 ↦ refl
          | some (tr l n) ↦
              ap (λ s. run (act pe) table ys (record { p = m.p + 1; cs = n; parser = s }))
                (acts-renames l pe a b m.p m.parser)
              ∙ run-renamed pe a b ys
                  (record { p = m.p + 1; cs = n; parser = acts (act pe) l m.p m.parser })
          | some (fbreak l n) ↦
              ap (λ s. record { p = m.p + 1; cs = n; parser = s })
                (acts-renames l pe a b m.p m.parser)
        ]

acts-nread : (l : List Action) (pe p : ℕ) (s : HttpParser) → (acts (act pe) l p s).nread ≡ s.nread
unfolding acts act
acts-nread [] pe p s = refl
acts-nread (x ∷ l) pe p s = acts-nread l pe p (act pe x p s) ∙ act-nread x
  where
    act-nread : (x : Action) → (act pe x p s).nread ≡ s.nread
    act-nread Action.done = refl
    act-nread _ = refl

-- where a run ends that began at `at`: at `pe`, unless it ends in a final state or that of an error
pub record Stopped (at pe : ℕ) (m : Machine HttpParser) : Type 0 where
  pub behind : at ≤ m.p
  pub within : m.p ≤ pe
  pub nread : m.parser.nread ≡ 0
  pub all : leb 95 m.cs ≡ false → (m.cs == 0) ≡ false → (m.p ≡ pe) × (has_case m.cs ≡ true)

pub run-Stopped :
    (at pe size : ℕ) (rest : List ℕ) (m : Machine HttpParser)
    → m.p + length rest ≡ pe
    → (at ≤ m.p) × (has_case m.cs ≡ true) × (m.parser.nread ≡ 0)
    → Stopped at pe (run (act size) table rest m)
unfolding tidy
run-Stopped at pe size rest m e h =
    run-End (act size) table pe (λ m. (at ≤ m.p) × (has_case m.cs ≡ true) × (m.parser.nread ≡ 0))
      (Stopped at pe)
      (λ m e h. record { behind = h.0; within = omega arith; nread = h.2; all = λ _ _. (e, h.1) })
      (λ m c is h. elim (has_case-none m.cs c h.1 is) [ ])
      (λ m c is in_it h. record {
        behind = h.0;
        within = omega arith;
        nread = h.2;
        all = λ _ e. ground (arith, e);
      })
      (λ m c l n is in_it h. (
        omega (arith, h.0),
        ground (arith, label-all tidy table m.cs c table-tidy is),
        acts-nread l size m.p m.parser ∙ h.2,
      ))
      (λ m c l n is in_it h. record {
        behind = omega (arith, h.0);
        within = omega arith;
        nread = acts-nread l size m.p m.parser ∙ h.2;
        all = λ e _. ground (arith, label-all tidy table m.cs c table-tidy is, e);
      })
      rest m e h
