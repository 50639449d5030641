-- ===== src/HttpParser/Answers.antt =====
-- What a call of `http_parser_execute` answers, in terms of the run of its block.
use mongrel.Prelude.{
  ℕ, ◌≡◌, refl, sym, ◌∙◌, ap, ◌≤◌, Bool, Option, none, some, List, [], ◌∷◌, length, ◌≢◌,
  if◌then◌else◌, arith, some-injective, Bool-cases, inl, inr,
}
use mongrel.HttpParser.{HttpParser}
use mongrel.HttpParser.Execute.{execute, scan, in_bounds, after}

pub execute-nil : (parser : HttpParser) → execute parser [] 0 ≡ some (0, parser)
unfolding execute
execute-nil parser = refl

-- the answer, by the assertions, in a buffer of so many chars
abbrev pub pick : ℕ → HttpParser → Option (ℕ × HttpParser)
pick len next = if in_bounds len next then some (next.nread, next) else none

module _ (parser : HttpParser) (c : ℕ) (l : List ℕ) (off : ℕ) (h : off ≤ length (c ∷ l)) where
  abbrev pub behind : HttpParser
  behind = after off parser (scan parser (c ∷ l) off)

  pub execute-eq : execute parser (c ∷ l) off ≡ pick (length (c ∷ l)) behind
  unfolding execute
  execute-eq = ground (arith, h)

  pub execute-answer :
      {z : ℕ × HttpParser} → execute parser (c ∷ l) off ≡ some z → (behind.nread, behind) ≡ z
  execute-answer {z} e = elim (Bool-cases (in_bounds (length (c ∷ l)) behind)) [
    | inl good ↦ some-injective (behind.nread, behind) z (sym (execute-eq ∙ answer good) ∙ e)
    | inr bad ↦ elim (no_answer (sym e ∙ execute-eq ∙ answer bad)) [ ]
  ]
    where
      picked : Bool → Option (ℕ × HttpParser)
      picked b = if b then some (behind.nread, behind) else none

      answer :
          {b : Bool}
          → in_bounds (length (c ∷ l)) behind ≡ b
          → pick (length (c ∷ l)) behind ≡ picked b
      answer b = ap picked b

      no_answer : some z ≢ none
      no_answer e = ground (arith, e)
