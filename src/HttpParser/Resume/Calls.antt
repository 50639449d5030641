-- ===== src/HttpParser/Resume/Calls.antt =====
-- What `http_parser_execute` leaves behind a call, and what the next call makes of it.
use mongrel.Prelude.{
  ℕ, ◌≡◌, refl, ◌≤◌, sym, ap, ◌∙◌, true, false, List, [], ◌∷◌, ◌++◌, length, ◌==◌, arith, ==_iff,
}
use mongrel.Ragel.{Machine, run, label, lookup, drop}
use mongrel.HttpParser.{HttpParser, act}
use mongrel.HttpParser.Cases.{table}
use mongrel.HttpParser.Execute.{after}
use mongrel.HttpParser.Resume.Pieces.{named, renamed, run-renamed}

drop-length : (xs ys : List ℕ) → drop (length xs) (xs ++ ys) ≡ ys
drop-length [] ys = refl
drop-length (c ∷ xs) ys = drop-length xs ys

-- a parser in the error state stays there
run-error :
    (pe : ℕ) (l : List ℕ) (m : Machine HttpParser)
    → m.cs ≡ 0
    → ((run (act pe) table l m).p ≡ m.p) × ((run (act pe) table l m).parser ≡ m.parser)
unfolding run label lookup table
run-error pe [] m e = (refl, refl)
run-error pe (c ∷ l) m e = ground (arith, e)

-- the parser behind a call that finds it in the error state
after-error :
    (n : ℕ) (parser : HttpParser) (m : Machine HttpParser)
    → (parser.cs == 0) ≡ true
    → (m.p ≡ n) × (m.parser ≡ parser)
    → after n parser m ≡ parser
unfolding after
after-error n parser m e (at, same) =
    rw (same, at, e) (ap (λ k. record parser { nread = k }) (omega arith))

-- the names that a parser had before do not show behind a call
after-renamed :
    (n a b : ℕ) (first parser : HttpParser) (m : Machine HttpParser)
    → (parser.cs == 0) ≡ false
    → (first.cs == 0) ≡ false
    → n ≤ m.p
    → after n parser (renamed a n m) ≡ after 0 first (renamed b 0 m)
unfolding after
after-renamed n a b first parser m e f h =
    rw (e, f) (ap (λ k. record m.parser { cs = m.cs; nread = k }) (omega (arith, h)))

-- the parser behind the first piece
pub after-piece :
    (first : HttpParser) (r : Machine HttpParser)
    → r.parser.nread ≡ 0
    → (first.cs == 0) ≡ false
    → after 0 first r ≡ named r.cs r.p r.parser
unfolding after
after-piece first r h f =
    rw f (ap (λ k. record r.parser { cs = r.cs; nread = k }) (omega (arith, h)))

-- a call for a parser, from where that stopped
abbrev pub call_from : ℕ → List ℕ → HttpParser → HttpParser
call_from pe buffer parser = after parser.nread parser (
    run (act pe) table (drop parser.nread buffer)
      (record { p = parser.nread; cs = parser.cs; parser = parser }))

module _ (first : HttpParser) (f : (first.cs == 0) ≡ false) (pe : ℕ) (xs ys : List ℕ)
    (r : Machine HttpParser) (unread : r.parser.nread ≡ 0) where
  pub resumed-error :
      (r.cs == 0) ≡ true → call_from pe (xs ++ ys) (after 0 first r) ≡ after 0 first (renamed 1 0 r)
  resumed-error e =
      rw (after-piece first r unread f)
        (after-error r.p (named r.cs r.p r.parser) _ e (run-error pe _ _ ((==_iff r.cs 0).0 e)))
      ∙ sym (after-piece first (renamed 1 0 r) refl f)

  pub resumed-open :
      (r.cs == 0) ≡ false
      → r.p ≡ length xs
      → r.p ≤ (run (act pe) table ys r).p
      → call_from pe (xs ++ ys) (after 0 first r)
        ≡ after 0 first (run (act pe) table ys (renamed 1 0 r))
  resumed-open e at behind =
      ap (λ s. call_from pe (xs ++ ys) s) (after-piece first r unread f)
      ∙ ap (λ l. after r.p (named r.cs r.p r.parser) (run (act pe) table l (renamed r.cs r.p r)))
          (ap (λ n. drop n (xs ++ ys)) at ∙ drop-length xs ys)
      ∙ ap (after r.p (named r.cs r.p r.parser)) (run-renamed pe r.cs r.p ys r)
      ∙ after-renamed r.p r.cs 1 first (named r.cs r.p r.parser) (run (act pe) table ys r) e f
          behind
      ∙ ap (after 0 first) (sym (run-renamed pe 1 0 ys r))
