-- ===== src/HttpParser/RoundTrip.antt =====
-- A request as a client writes it, and what `http_parser_execute` of src/http11/http11_parser.c makes
-- of it.
pub mod Parts
pub mod Hears
mod Fields
pub mod Print
use mongrel.Prelude.{
  ℕ, zero, suc, ◌+◌, ◌-◌, ◌≡◌, ◌<◌, ◌≢◌, refl, sym, ap, ◌∙◌, subst, ℤ, pos, Bool, true, false, ◌&&◌,
  not, Option, none, some, List, [], ◌∷◌, ◌++◌, length, length-append, append_assoc, append-nil,
  ltb, text, ◌==◌, if◌then◌else◌, arith,
}
use mongrel.Ragel.{run, Machine}
use mongrel.Ragel.Steps.{at, all_chars}
use mongrel.HttpParser.{HttpParser, Call, Action, act}
use mongrel.HttpParser.Cases.{table}
use mongrel.HttpParser.Execute.{init, execute, scan, after, finish}
use mongrel.HttpParser.Answers.{execute-answer}
use mongrel.HttpParser.Bounds.{execute_keeps_to_buffer}
use mongrel.HttpParser.Reads.{is_query_char, is_path_char, is_method_char}
use mongrel.HttpParser.RoundTrip.Parts.{is_name, is_value, end-run, true≢false}
use mongrel.HttpParser.RoundTrip.Hears.{
  Heard, request_method, http_version, uri_cb, path_cb, query_cb, header_field, headers_done, hears,
  all_hears, all_hears-snoc, Reads, method-Reads, path-Reads, version_text, version-Reads,
}
use mongrel.HttpParser.RoundTrip.Fields.{query-Reads, field_text, field-Reads}
use mongrel.HttpParser.RoundTrip.Print.{
  Written, is_method, is_query, are_fields, is_written, target, fields_text, print_head, print,
  target_heard, fields_heard, heard,
}

-- two parts, one behind the other
Reads-then :
    (w pre x y rest : List ℕ) {n n' n'' : ℕ} {s : HttpParser} {a b : List Heard}
    → (first : Reads w pre x (y ++ rest) n n' s a) → Reads w (pre ++ x) y rest n' n'' first.parser b
    → Reads w pre (x ++ y) rest n n'' s (a ++ b)
Reads-then w pre x y rest {n} {n'} {n''} {s} {a} {b} first second = record {
  parser = second.parser;
  runs =
      ap (λ l. run (act (length w)) table l (at (length pre) n s)) (append_assoc x y rest)
      ∙ first.runs
      ∙ second.runs
      ∙ ap (λ l. run (act (length w)) table rest (at (length l) n'' second.parser))
          (append_assoc pre x y);
  hears_new =
      second.hears_new ∙ ap (λ l. l ++ b) first.hears_new ∙ append_assoc (all_hears w s.calls) a b;
  nread = second.nread ∙ first.nread;
  json_sent = second.json_sent ∙ first.json_sent;
}

shift : {w : List ℕ} (pre x y : List ℕ) → w ≡ pre ++ (x ++ y) → w ≡ (pre ++ x) ++ y
shift pre x y e = e ∙ sym (append_assoc pre x y)

open_up :
    {w : List ℕ} (pre x y z : List ℕ) → w ≡ pre ++ ((x ++ y) ++ z) → w ≡ pre ++ (x ++ (y ++ z))
open_up pre x y z e = e ∙ ap (λ l. pre ++ l) (append_assoc x y z)

fields-Reads :
    (w pre rest : List ℕ) (s : HttpParser) (l : List (List ℕ × List ℕ))
    → are_fields l ≡ true
    → w ≡ pre ++ (fields_text l ++ rest)
    → Reads w pre (fields_text l) rest 14 14 s (fields_heard l)
unfolding are_fields fields_text
fields-Reads w pre rest s [] ok e = record {
  parser = s;
  runs = ap (λ l. run (act (length w)) table rest (at (length l) 14 s)) (sym (append-nil pre));
  hears_new = sym (append-nil (all_hears w s.calls));
  nread = refl;
  json_sent = refl;
}
fields-Reads w pre rest s ((name, value) ∷ l) ok e =
    let parts = open_up pre (field_text (name, value)) (fields_text l) rest e in
    let first =
      field-Reads w pre (fields_text l ++ rest) s name value (ground (arith, ok))
        (ground (arith, ok)) parts in
    Reads-then w pre (field_text (name, value)) (fields_text l) rest first (
      fields-Reads w (pre ++ field_text (name, value)) rest first.parser l (ground (arith, ok))
        (shift pre (field_text (name, value)) (fields_text l ++ rest) parts))

target-Reads :
    (w pre rest : List ℕ) (s : HttpParser) (path : List ℕ) (query : Option (List ℕ))
    → all_chars is_path_char path ≡ true
    → is_query query ≡ true
    → w ≡ pre ++ ((target path query ++ (32 + 128) ∷ []) ++ rest)
    → Reads w pre (target path query ++ (32 + 128) ∷ []) rest 3 5 s (target_heard path query)
unfolding is_query
target-Reads w pre rest s path none ok oks e = path-Reads w pre rest s path ok e
target-Reads w pre rest s path (some []) ok oks e = elim (true≢false (sym oks)) [ ]
target-Reads w pre rest s path (some (c ∷ l)) ok oks e = query-Reads w pre rest s path c l ok oks e

any_method-Reads :
    (w pre rest : List ℕ) (s : HttpParser) (method : List ℕ)
    → is_method method ≡ true
    → w ≡ pre ++ ((method ++ (32 + 128) ∷ []) ++ rest)
    → Reads w pre (method ++ (32 + 128) ∷ []) rest 1 3 s (request_method method ∷ [])
unfolding is_method
any_method-Reads w pre rest s [] ok e = elim (true≢false (sym ok)) [ ]
any_method-Reads w pre rest s (c ∷ l) ok e =
    method-Reads w pre rest s c l (ground (arith, ok)) (ground (arith, ok)) e

-- all but the empty line
head-Reads :
    (r : Written) (rest : List ℕ) (s : HttpParser)
    → is_written r ≡ true
    → Reads (print_head r ++ rest) [] (print_head r) rest 1 14 s (heard r)
unfolding is_written print_head heard
head-Reads r rest s ok =
    let a = r.method ++ (32 + 128) ∷ [] in
    let b = target r.path r.query ++ (32 + 128) ∷ [] in
    let c = version_text r.is_1_1 ++ text "\r\n" in
    let d = fields_text r.fields in
    let w = (a ++ (b ++ (c ++ d))) ++ rest in
    let e1 = open_up {w = w} [] a (b ++ (c ++ d)) rest refl in
    let e2 = open_up a b (c ++ d) rest (shift [] a ((b ++ (c ++ d)) ++ rest) e1) in
    let e3 = open_up (a ++ b) c d rest (shift a b ((c ++ d) ++ rest) e2) in
    let e4 = shift (a ++ b) c (d ++ rest) e3 in
    let first =
      any_method-Reads w [] ((b ++ (c ++ d)) ++ rest) s r.method (ground (arith, ok)) e1 in
    let second =
      target-Reads w a ((c ++ d) ++ rest) first.parser r.path r.query (ground (arith, ok))
        (ground (arith, ok)) e2 in
    let third = version-Reads w (a ++ b) (d ++ rest) second.parser r.is_1_1 e3 in
    Reads-then w [] a (b ++ (c ++ d)) rest first (
      Reads-then w a b (c ++ d) rest second (
        Reads-then w (a ++ b) c d rest third
          (fields-Reads w ((a ++ b) ++ c) rest third.parser r.fields (ground (arith, ok)) e4)))

-- what a call on a buffer that is not empty answers
answered :
    (q : HttpParser) (w : List ℕ) {m : Machine HttpParser}
    → 0 < length w
    → scan (init q) w 0 ≡ m
    → execute (init q) w 0 ≡ some ((after 0 (init q) m).nread, after 0 (init q) m)
answered q [] h e = elim (too_short h) [ ]
  where
    too_short : ¬ (0 < 0)
    too_short h = omega (arith, h)
answered q (c ∷ l) {m} h e =
    let (n, parser, given, _, _) = execute_keeps_to_buffer q (c ∷ l) in
    given
    ∙ ap some (sym (execute-answer (init q) c l 0 (omega arith) given))
    ∙ ap (λ m. some ((after 0 (init q) m).nread, after 0 (init q) m)) e

module _ (q : HttpParser) (r : Written) (body : List ℕ) (ok : is_written r ≡ true) where
  abbrev w : List ℕ
  w = print_head r ++ (text "\r\n" ++ body)

  first : Reads w [] (print_head r) (text "\r\n" ++ body) 1 14 (init q) (heard r)
  first = head-Reads r (text "\r\n" ++ body) (init q) ok

  abbrev last : Machine HttpParser
  last =
      at (length (print_head r) + 1 + 1) 95
        (act (length w) Action.done (length (print_head r) + 1) first.parser)

  scanned : scan (init q) w 0 ≡ last
  unfolding scan init
  scanned = first.runs ∙ end-run (length w) body (length (print_head r)) first.parser

  last_nread : (after 0 (init q) last).nread ≡ length (print r)
  unfolding after init print act
  last_nread = omega (arith, first.nread, length-append (print_head r) (text "\r\n"))

  -- the request with the end of its head written apart
  parsed :
      (parser : HttpParser) × (execute (init q) w 0 ≡ some (length (print r), parser))
      × (finish parser ≡ pos 1)
      × (parser.body_start ≡ length (print r))
      × (parser.json_sent ≡ false)
      × (all_hears w parser.calls ≡ heard r ++ headers_done ∷ [])
  unfolding after init print act all_hears hears
  parsed = (
    after 0 (init q) last,
    answered q w (omega (arith, length-append (print_head r) (text "\r\n" ++ body))) scanned
        ∙ ap (λ n. some (n, after 0 (init q) last)) last_nread,
    refl,
    omega (arith, length-append (print_head r) (text "\r\n")),
    first.json_sent,
    all_hears-snoc w first.parser.calls _ ∙ ap (λ l. l ++ headers_done ∷ []) first.hears_new,
  )

-- Any request of the form of `Written` (a method of one to twenty capitals, digits or `$-_.`, a
-- target that begins with `/`, with or without a query that is not empty, without escapes, params
-- or a fragment, version 1.0 or 1.1, and any number of fields with a name of token chars and a value
-- in one line that begins with no space), whatever lies behind it, is parsed by one call of
-- `http_parser_execute`, behind `http_parser_init`: the call reads it to its end and no further, the
-- parser is finished and has no JSON message, the body starts behind it, and the callbacks hear the method, the path, the
-- query, the whole target, the version and the fields as they were written, in this order, and at
-- last `header_done`.
pub execute-print :
    (q : HttpParser) (r : Written) (body : List ℕ)
    → is_written r ≡ true
    → (parser : HttpParser) × (execute (init q) (print r ++ body) 0
        ≡ some (length (print r), parser))
      × (finish parser ≡ pos 1)
      × (parser.body_start ≡ length (print r))
      × (parser.json_sent ≡ false)
      × (all_hears (print r ++ body) parser.calls ≡ heard r ++ headers_done ∷ [])
unfolding print
execute-print q r body ok =
    subst
      (λ w.
        (parser : HttpParser) × (execute (init q) w 0 ≡ some (length (print r), parser))
        × (finish parser ≡ pos 1)
        × (parser.body_start ≡ length (print r))
        × (parser.json_sent ≡ false)
        × (all_hears w parser.calls ≡ heard r ++ headers_done ∷ []))
      (sym (append_assoc (print_head r) (text "\r\n") body)) (parsed q r body ok)
