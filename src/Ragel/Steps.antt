-- ===== src/Ragel/Steps.antt =====
-- A machine of `Ragel`, char by char.
use mongrel.Prelude.{
  ℕ, ◌+◌, ◌≡◌, ap, ◌∙◌, Bool, true, ◌&&◌, some, List, [], ◌∷◌, ◌++◌, length, take, take-append,
  arith,
}
use mongrel.Ragel.{tr, fbreak, Switch, Machine, acts, run, label, drop}
use mongrel.Ragel.Walk.{next}

-- a test of all chars of a text
unfoldable pub all_chars : (ℕ → Bool) → List ℕ → Bool
all_chars ok [] = true
all_chars ok (c ∷ l) = ok c && all_chars ok l

abbrev pub at : {S : Type 0} → ℕ → ℕ → S → Machine S
at p cs s = record { p = p; cs = cs; parser = s }

module _ {A S : Type 0} (act : A → ℕ → S → S) (table : List (ℕ × Switch A)) where
  pub step :
      (p n : ℕ) (s : S) (c : ℕ) (rest : List ℕ) {l : List A} {m : ℕ}
      → label table n c ≡ some (tr l m)
      → run act table (c ∷ rest) (at p n s) ≡ run act table rest (at (p + 1) m (acts act l p s))
  unfolding run next
  step p n s c rest e = ap (next act table rest (at p n s)) e

  pub step_out :
      (p n : ℕ) (s : S) (c : ℕ) (rest : List ℕ) {l : List A} {m : ℕ}
      → label table n c ≡ some (fbreak l m)
      → run act table (c ∷ rest) (at p n s) ≡ at (p + 1) m (acts act l p s)
  unfolding run next
  step_out p n s c rest e = ap (next act table rest (at p n s)) e

  -- a state that the chars of a text lead back to
  pub loop :
      (n : ℕ) (ok : ℕ → Bool)
      → ((c : ℕ) → ok c ≡ true → label table n c ≡ some (tr [] n))
      → (text rest : List ℕ) (p : ℕ) (s : S) → all_chars ok text ≡ true
      → run act table (text ++ rest) (at p n s) ≡ run act table rest (at (p + length text) n s)
  unfolding acts all_chars
  loop n ok back [] rest p s h = ap (λ k. run act table rest (at k n s)) (omega arith)
  loop n ok back (c ∷ l) rest p s h =
      step p n s c (l ++ rest) (back c (ground (arith, h)))
      ∙ loop n ok back l rest (p + 1) s (ground (arith, h))
      ∙ ap (λ k. run act table rest (at k n s)) (omega arith)

-- the chars of a buffer from a place on, so many of them
pub slice-middle :
    (pre text post : List ℕ) → take (length text) (drop (length pre) (pre ++ (text ++ post))) ≡ text
slice-middle [] text post = take-append text post
slice-middle (c ∷ pre) text post = slice-middle pre text post
