-- ===== src/HttpParser/Reads/Method.antt =====
-- The states of src/http11/http11_parser.c that count the chars of a method: `case 2`, then `case 41`
-- to `case 59`, which stands behind the twentieth char.
use mongrel.Prelude.{
  ℕ, suc, ◌+◌, ◌≡◌, ◌≤◌, ◌<◌, refl, ap, ◌∙◌, true, some, List, [], ◌∷◌, ◌++◌, length, arith,
}
use mongrel.Ragel.{
  st0, tr, st, Switch, goto, when, eq, is, lt, gt, within, choose, lookup, label, run, acts,
}
use mongrel.Ragel.Steps.{at, step, all_chars}
use mongrel.HttpParser.{HttpParser, Action, request_method, act}
use mongrel.HttpParser.Cases.{table}
use mongrel.HttpParser.Reads.{is_method_char, method_begins}

-- the `case` of each, by the state that it leads to
method_case : ℕ → Switch Action
method_case m = when (eq 32) (goto (tr (request_method ∷ []) 3)) (
    when (is (36 ∷ 95 ∷ [])) (goto (st m)) (
      when (lt 48) (when (within 45 46) (goto (st m)) (goto st0))
        (when (gt 57) (when (within 65 90) (goto (st m)) (goto st0)) (goto (st m)))))

-- the states behind `n`, each with the `case` that leads to the next
Linked : ℕ → List ℕ → Type 0
unfolding method_case
Linked n [] = label table n (32 + 128) ≡ some (tr (request_method ∷ []) 3)
Linked n (m ∷ ms) = (lookup n table ≡ some (method_case m)) × Linked m ms

linked : Linked 2 (
    41 ∷ 42 ∷ 43 ∷ 44 ∷ 45 ∷ 46 ∷ 47 ∷ 48 ∷ 49 ∷ 50 ∷ 51 ∷ 52 ∷ 53 ∷ 54 ∷ 55 ∷ 56 ∷ 57 ∷ 58 ∷ 59
    ∷ [])
unfolding Linked label lookup table choose
linked = (
  refl,
  (
    refl,
    (
      refl,
      (
        refl,
        (
          refl,
          (
            refl,
            (
              refl,
              (
                refl,
                (
                  refl,
                  (
                    refl,
                    (refl, (refl, (refl, (refl, (refl, (refl, (refl, (refl, (refl, refl))))))))),
                  ),
                ),
              ),
            ),
          ),
        ),
      ),
    ),
  ),
)

link-label :
    (n m c : ℕ)
    → lookup n table ≡ some (method_case m)
    → is_method_char c ≡ true
    → label table n c ≡ some (tr [] m)
unfolding label choose method_case is_method_char
link-label n m c e h = rw (label, e) (ground (arith, h))

link-space :
    (n m : ℕ)
    → lookup n table ≡ some (method_case m)
    → label table n (32 + 128) ≡ some (tr (request_method ∷ []) 3)
unfolding label choose method_case
link-space n m e = rw (label, e) refl

space :
    (n : ℕ) (ms : List ℕ)
    → Linked n ms
    → label table n (32 + 128) ≡ some (tr (request_method ∷ []) 3)
unfolding Linked
space n [] l = l
space n (m ∷ ms) l = link-space n m l.0

too_long : {n : ℕ} → ¬ (suc n ≤ 0)
too_long h = omega (arith, h)

Linked-run :
    (pe n : ℕ) (ms text rest : List ℕ) (p : ℕ) (s : HttpParser)
    → Linked n ms
    → length text ≤ length ms
    → all_chars is_method_char text ≡ true
    → run (act pe) table (text ++ (32 + 128) ∷ rest) (at p n s)
      ≡ run
          (act pe)
          table
          rest
          (at (p + length text + 1) 3 (act pe request_method (p + length text) s))
unfolding Linked all_chars acts
Linked-run pe n ms [] rest p s l h ok =
    step (act pe) table p n s (32 + 128) rest (space n ms l)
    ∙ ap (λ k. run (act pe) table rest (at (k + 1) 3 (act pe request_method k s))) (omega arith)
Linked-run pe n [] (c ∷ text) rest p s l h ok = elim (too_long h) [ ]
Linked-run pe n (m ∷ ms) (c ∷ text) rest p s l h ok =
    step (act pe) table p n s c (text ++ (32 + 128) ∷ rest)
      (link-label n m c l.0 (ground (arith, ok)))
    ∙ Linked-run pe m ms text rest (p + 1) s l.1 (omega (arith, h)) (ground (arith, ok))
    ∙ ap (λ k. run (act pe) table rest (at (k + 1) 3 (act pe request_method k s))) (omega arith)

-- a method of one char up to twenty, with the space behind it
pub method-run :
    (pe : ℕ) (c : ℕ) (text rest : List ℕ) (p : ℕ) (s : HttpParser)
    → all_chars is_method_char (c ∷ text) ≡ true
    → length text < 20
    → run (act pe) table (c ∷ text ++ (32 + 128) ∷ rest) (at p 1 s)
      ≡ run (act pe) table rest (
          at
            (p + length (c ∷ text) + 1)
            3
            (act pe request_method (p + length (c ∷ text)) (record s { mark = p })))
unfolding all_chars acts act
method-run pe c text rest p s ok h =
    step (act pe) table p 1 s c (text ++ (32 + 128) ∷ rest) (method_begins c (ground (arith, ok)))
    ∙ Linked-run pe 2 _ text rest (p + 1) (record s { mark = p }) linked (omega (arith, h))
        (ground (arith, ok))
    ∙ ap
        (λ k.
          run (act pe) table rest (at (k + 1) 3 (act pe request_method k (record s { mark = p }))))
        (omega arith)
