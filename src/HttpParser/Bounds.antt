-- ===== src/HttpParser/Bounds.antt =====
-- `http_parser_execute` keeps to its buffer: its assertions hold, and so do the spans it passes on.
pub mod Marks
use mongrel.Prelude.{
  ℕ, zero, suc, ◌+◌, ◌-◌, ◌≡◌, refl, ◌≤◌, ◌<◌, sym, ◌∙◌, subst, Bool, true, false, ◌&&◌, ◌||◌, not,
  Option, none, some, List, [], ◌∷◌, ◌++◌, length, ltb, leb, ◌==◌, if◌then◌else◌, arith,
}
use mongrel.Ragel.{Goto, st0, tr, fbreak, Machine, acts, run, label, drop}
use mongrel.Ragel.Walk.{all_labels, label-all, run-End}
use mongrel.HttpParser.{
  Span, Call, request_method, request_uri, fragment, request_path, query_string, http_version,
  header_done, http_field, HttpParser, Action, act, calling,
}
use mongrel.HttpParser.Cases.{table}
use mongrel.HttpParser.Execute.{init, execute, scan, in_bounds, after}
use mongrel.HttpParser.Bounds.Marks.{
  all_inside, Known, known, all_marks, weaker, keeps_known, table-keeps_known, Fits, acts-Fits,
  Fits-next,
}

abbrev Live : ℕ → Machine HttpParser → Type 0
Live pe m = Fits pe (known m.cs) m.p m.parser

record Ended (pe : ℕ) (m : Machine HttpParser) : Type 0 where
  known : Known
  fits : Fits pe known m.p m.parser
  at : m.p ≤ pe

weaker_refl : (k : Known) → weaker k k ≡ true
weaker_refl k = ground arith

go_on :
    (m : Machine HttpParser) (c : ℕ) (l : List Action) (n : ℕ) {pe : ℕ}
    → label table m.cs c ≡ some (tr l n)
    → m.p < pe
    → Live pe m
    → Fits pe (known n) (m.p + 1) (acts (act pe) l m.p m.parser)
unfolding keeps_known
go_on m c l n is in_it h =
    let kept = label-all keeps_known table m.cs c table-keeps_known is in
    Fits-next (ground (arith, kept)) (acts-Fits l in_it (ground (arith, kept)) h)

run-Ended :
    (rest : List ℕ) (m : Machine HttpParser) {pe : ℕ}
    → m.p + length rest ≡ pe
    → Live pe m
    → Ended pe (run (act pe) table rest m)
unfolding keeps_known
run-Ended rest m {pe} e h =
    run-End (act pe) table pe (λ m. (m.p ≤ pe) × Live pe m) (Ended pe)
      (λ m at h. record { known = known m.cs; fits = h.1; at = h.0 })
      (λ m c is h. record { known = known m.cs; fits = h.1; at = h.0 })
      (λ m c is in_it h. record { known = known m.cs; fits = h.1; at = h.0 })
      (λ m c l n is in_it h. (omega arith, go_on m c l n is in_it h.1))
      (λ m c l n is in_it h. record {
        known = all_marks l (known m.cs);
        fits =
            Fits-next (weaker_refl (all_marks l (known m.cs)))
              (acts-Fits l in_it (label-all keeps_known table m.cs c table-keeps_known is) h.1);
        at = omega arith;
      })
      rest m e (omega arith, h)

begin : (q : HttpParser) (c : ℕ) (l : List ℕ) → Ended (length (c ∷ l)) (scan (init q) (c ∷ l) 0)
unfolding scan init known all_inside
begin q c l =
    run-Ended (c ∷ l) (record { p = 0; cs = 1; parser = init q }) (omega arith)
      (record {
        mark = omega arith;
        field_start = omega arith;
        name = λ e. ground arith;
        query_start = λ e. ground arith;
        body_start = omega arith;
        nread = refl;
        calls = refl;
      })

in_bounds-after :
    {pe : ℕ} (parser : HttpParser) (m : Machine HttpParser)
    → Ended pe m
    → in_bounds pe (after 0 parser m) ≡ true
unfolding in_bounds after
in_bounds-after parser m e =
    ground (arith, e.at, e.fits.mark, e.fits.field_start, e.fits.body_start, e.fits.nread)

-- For any parser `q`, a buffer that `http_parser_execute` reads from its start, behind
-- `http_parser_init`, makes none of its assertions fail: the call returns a number of chars read, at
-- most the buffer's. Every span that the callbacks are given lies in the buffer, though
-- `http_parser_init` leaves `query_start` where a former request had it.
pub execute_keeps_to_buffer :
    (q : HttpParser) (buffer : List ℕ)
    → (n : ℕ) × (parser : HttpParser) × (execute (init q) buffer 0 ≡ some (n, parser))
      × (n ≤ length buffer)
      × (all_inside (length buffer) parser.calls ≡ true)
unfolding execute after all_inside init
execute_keeps_to_buffer q [] = (0, init q, refl, omega arith, refl)
execute_keeps_to_buffer q (c ∷ l) =
    let m = scan (init q) (c ∷ l) 0 in
    let e = begin q c l in
    let parser = after 0 (init q) m in
    (
      parser.nread,
      parser,
      ground (arith, in_bounds-after (init q) m e),
      omega (arith, e.at, e.fits.nread),
      e.fits.calls,
    )
