-- ===== src/HttpParser/Resume.antt =====
-- A buffer that arrives in pieces, each read by a call of `http_parser_execute` from where the last
-- one stopped.
mod Pieces
mod Calls
use mongrel.Prelude.{
  ℕ, zero, suc, ◌+◌, ◌-◌, ◌≡◌, refl, ◌≤◌, ◌<◌, ◌≢◌, sym, ap, ◌∙◌, subst, Bool, true, false, ◌&&◌,
  ◌||◌, not, Option, none, some, List, [], ◌∷◌, ◌++◌, length, length-append, ltb, leb, ◌==◌,
  if◌then◌else◌, arith, Bool-cases, inl, inr, ==_iff, some-injective,
}
use mongrel.Ragel.{Goto, st0, tr, fbreak, Machine, acts, run, label, lookup, drop}
use mongrel.Ragel.Walk.{all_labels, label-all, next, run-End}
use mongrel.HttpParser.{HttpParser, Action, act}
use mongrel.HttpParser.Cases.{table}
use mongrel.HttpParser.Execute.{init, execute, scan, in_bounds, after, is_finished}
use mongrel.HttpParser.Answers.{execute-nil, execute-eq, execute-answer, pick}
use mongrel.HttpParser.Resume.Calls.{after-piece, call_from, resumed-error, resumed-open}
use mongrel.HttpParser.Resume.Pieces.{has_case, renamed, Resumes, run-Resumes, Stopped, run-Stopped}

module _ (q : HttpParser) (xs ys : List ℕ) where
  -- the machine behind the first piece, and the parser
  abbrev piece : Machine HttpParser
  piece = scan (init q) xs 0

  abbrev later : HttpParser
  later = after 0 (init q) piece

  abbrev Agrees : Type 0
  Agrees =
      call_from (length (xs ++ ys)) (xs ++ ys) later ≡ after 0 (init q) (scan (init q) (xs ++ ys) 0)

  whole :
      leb 95 piece.cs ≡ false
      → scan (init q) (xs ++ ys) 0 ≡ (
          if piece.cs == 0
          then renamed 1 0 piece
          else run (act (length (xs ++ ys))) table ys (renamed 1 0 piece))
  unfolding scan init Resumes has_case table lookup
  whole open_ =
      run-Resumes (length xs) (length (xs ++ ys)) 1 0 ys xs
        (record { p = 0; cs = 1; parser = init q }) refl open_

  stopped : Stopped 0 (length xs) piece
  unfolding scan init has_case table lookup
  stopped =
      run-Stopped 0 (length xs) (length xs) xs (record { p = 0; cs = 1; parser = init q })
        (omega arith) (omega arith, refl, refl)

  init_live : ((init q).cs == 0) ≡ false
  unfolding init
  init_live = refl

  agrees-error : leb 95 piece.cs ≡ false → (piece.cs == 0) ≡ true → Agrees
  agrees-error open_ e =
      resumed-error (init q) init_live (length (xs ++ ys)) xs ys piece stopped.nread e
      ∙ ap (after 0 (init q)) (
          sym (
            whole open_
            ∙ ap
                (λ b.
                  if b
                  then renamed 1 0 piece
                  else run (act (length (xs ++ ys))) table ys (renamed 1 0 piece))
                e))

  behind :
      leb 95 piece.cs ≡ false
      → (piece.cs == 0) ≡ false
      → piece.p ≤ (run (act (length (xs ++ ys))) table ys piece).p
  behind open_ e =
      (run-Stopped piece.p (piece.p + length ys) (length (xs ++ ys)) ys piece refl
        (omega arith, (stopped.all open_ e).1, stopped.nread)).behind

  agrees-open : leb 95 piece.cs ≡ false → (piece.cs == 0) ≡ false → Agrees
  agrees-open open_ e =
      resumed-open (init q) init_live (length (xs ++ ys)) xs ys piece stopped.nread e
        (stopped.all open_ e).0 (behind open_ e)
      ∙ ap (after 0 (init q)) (
          sym (
            whole open_
            ∙ ap
                (λ b.
                  if b
                  then renamed 1 0 piece
                  else run (act (length (xs ++ ys))) table ys (renamed 1 0 piece))
                e))

  agrees : leb 95 later.cs ≡ false → Agrees
  agrees e =
      let open_ =
        ap (λ s. leb 95 s.cs) (sym (after-piece (init q) piece stopped.nread init_live)) ∙ e in
      elim (Bool-cases (piece.cs == 0)) [
        | inl bad ↦ agrees-error open_ bad
        | inr good ↦ agrees-open open_ good
      ]

  later_at : (later.nread ≡ piece.p) × (piece.p ≤ length xs)
  later_at =
      (ap (λ s. s.nread) (after-piece (init q) piece stopped.nread init_live), stopped.within)

executes :
    (q : HttpParser) (c : ℕ) (xs ys : List ℕ)
    → leb 95 (later q (c ∷ xs) ys).cs ≡ false
    → execute (later q (c ∷ xs) ys) (c ∷ (xs ++ ys)) (later q (c ∷ xs) ys).nread
      ≡ execute (init q) (c ∷ (xs ++ ys)) 0
unfolding scan
executes q c xs ys open_ =
    execute-eq (later q (c ∷ xs) ys) c (xs ++ ys) (later q (c ∷ xs) ys).nread
      (omega (arith, later_at q (c ∷ xs) ys, length-append xs ys))
    ∙ ap (pick (length (c ∷ (xs ++ ys)))) (agrees q (c ∷ xs) ys open_)
    ∙ sym (execute-eq (init q) c (xs ++ ys) 0 (omega arith))

-- Where a call of `http_parser_execute` on the first part of a buffer, behind `http_parser_init`, has
-- returned `n` and left the parser in a state that is not final, the next call, on more of the
-- buffer and from `n` on, answers what one call on all of that from its start would have answered:
-- the same number, the same parser and the same calls of the callbacks, or the same failed
-- assertion.
pub execute_resumes :
    (q : HttpParser) (xs ys : List ℕ) (n : ℕ) (parser : HttpParser)
    → execute (init q) xs 0 ≡ some (n, parser)
    → is_finished parser ≡ false
    → execute parser (xs ++ ys) n ≡ execute (init q) (xs ++ ys) 0
execute_resumes q [] ys n parser e open_ =
    subst (λ z. execute z.1 ys z.0 ≡ execute (init q) ys 0)
      (some-injective (0, init q) (n, parser) (sym (execute-nil (init q)) ∙ e)) refl
execute_resumes q (c ∷ xs) ys n parser e open_ =
    subst
      (λ z.
        is_finished z.1 ≡ false
        → execute z.1 (c ∷ (xs ++ ys)) z.0 ≡ execute (init q) (c ∷ (xs ++ ys)) 0)
      (execute-answer (init q) c xs 0 (omega arith) e) (executes q c xs ys) open_
