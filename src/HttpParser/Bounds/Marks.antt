-- ===== src/HttpParser/Bounds/Marks.antt =====
-- Where the marks of a parser are, and which of them are up to date.
use mongrel.Prelude.{
  ℕ, ◌+◌, ◌-◌, ◌≡◌, refl, ◌≤◌, ◌<◌, Bool, true, false, ◌&&◌, ◌||◌, not, List, [], ◌∷◌, ◌++◌, leb,
  arith,
}
use mongrel.Ragel.{Goto, st0, tr, fbreak, acts}
use mongrel.Ragel.Walk.{all_labels}
use mongrel.HttpParser.{
  Span, Call, request_method, request_uri, fragment, request_path, query_string, http_version,
  header_done, http_field, HttpParser, Action, act, calling,
}
use mongrel.HttpParser.Cases.{table}

-- a span lies in a buffer of so many chars
abbrev pub span_inside : ℕ → Span → Bool
span_inside len (at, n) = leb (at + n) len

abbrev pub inside : ℕ → Call → Bool
inside len (request_method s) = span_inside len s
inside len (request_uri s) = span_inside len s
inside len (fragment s) = span_inside len s
inside len (request_path s) = span_inside len s
inside len (query_string s) = span_inside len s
inside len (http_version s) = span_inside len s
inside len (header_done s) = span_inside len s
inside len (http_field s t) = span_inside len s && span_inside len t

unfoldable pub all_inside : ℕ → List Call → Bool
all_inside len [] = true
all_inside len (c ∷ l) = inside len c && all_inside len l

all_inside-snoc :
    (len : ℕ) (l : List Call) (c : Call)
    → all_inside len l ≡ true
    → inside len c ≡ true
    → all_inside len (l ++ c ∷ []) ≡ true
unfolding all_inside
all_inside-snoc len [] c h i = ground arith
all_inside-snoc len (d ∷ l) c h i = ground (arith, all_inside-snoc len l c)

-- which spans are up to date in a state: that of the query since the last `http_parser_init`, and
-- that of the name since the last `start_field`
pub record Known : Type 0 where
  pub query : Bool
  pub name : Bool

unfoldable pub known : ℕ → Known
known n = record {
  query = (leb 31 n && leb n 33) || (leb 92 n && leb n 94);
  name = leb 17 n && leb n 18;
}

-- what is up to date behind an action
marks : Action → Known → Known
marks Action.start_query k = record k { query = true }
marks Action.start_field k = record k { name = false }
marks Action.write_field k = record k { name = true }
marks a k = k

-- the action passes on no span that is not up to date
pub reads : Action → Known → Bool
reads Action.query_string k = k.query
reads Action.write_value k = k.name
reads a k = true

pub all_marks : List Action → Known → Known
unfolding marks
all_marks [] k = k
all_marks (a ∷ l) k = all_marks l (marks a k)

pub all_reads : List Action → Known → Bool
unfolding reads marks
all_reads [] k = true
all_reads (a ∷ l) k = reads a k && all_reads l (marks a k)

abbrev pub weaker : Known → Known → Bool
weaker k k' = (not k.query || k'.query) && (not k.name || k'.name)

-- what a label of the state `n` keeps
unfoldable pub keeps_known : ℕ → Goto Action → Bool
unfolding known all_marks all_reads
keeps_known n st0 = true
keeps_known n (tr l m) = all_reads l (known n) && weaker (known m) (all_marks l (known n))
keeps_known n (fbreak l m) = all_reads l (known n)

pub table-keeps_known : all_labels keeps_known table ≡ true
unfolding keeps_known table all_labels
table-keeps_known = refl

-- where the marks of a parser are, at `p` of a buffer of `pe` chars
pub record Fits (pe : ℕ) (k : Known) (p : ℕ) (s : HttpParser) : Type 0 where
  pub mark : (s.mark ≤ p) × (s.mark < pe)
  pub field_start : (s.field_start ≤ p) × (s.field_start < pe) × (s.field_len ≤ pe)
  pub name : k.name ≡ true → s.field_start + s.field_len ≤ p
  pub query_start : k.query ≡ true → s.query_start ≤ p
  pub body_start : s.body_start ≤ pe
  pub nread : s.nread ≡ 0
  pub calls : all_inside pe s.calls ≡ true

module _ {pe : ℕ} {k : Known} {p : ℕ} {s : HttpParser} (in_it : p < pe) (h : Fits pe k p s) where
  calling-Fits : (c : Call) → inside pe c ≡ true → Fits pe k p (calling c s)
  calling-Fits c i = record {
    mark = h.mark;
    field_start = h.field_start;
    name = h.name;
    query_start = h.query_start;
    body_start = h.body_start;
    nread = h.nread;
    calls = all_inside-snoc pe s.calls c h.calls i;
  }

  marked-Fits : Fits pe k p (record s { mark = p })
  marked-Fits = record {
    mark = omega arith;
    field_start = h.field_start;
    name = h.name;
    query_start = h.query_start;
    body_start = h.body_start;
    nread = h.nread;
    calls = h.calls;
  }

  from_mark : span_inside pe (s.mark, p - s.mark) ≡ true
  from_mark = ground (arith, h.mark.0)

act-Fits :
    (a : Action) {pe : ℕ} {k : Known} {p : ℕ} {s : HttpParser}
    → p < pe
    → reads a k ≡ true
    → Fits pe k p s
    → Fits pe (marks a k) p (act pe a p s)
unfolding act reads marks
act-Fits Action.mark in_it ok h = marked-Fits in_it h
act-Fits Action.start_field in_it ok h = record {
  mark = h.mark;
  field_start = ground (arith, h.field_start);
  name = λ e. ground arith;
  query_start = h.query_start;
  body_start = h.body_start;
  nread = h.nread;
  calls = h.calls;
}
act-Fits Action.write_field in_it ok h = record {
  mark = h.mark;
  field_start = ground (arith, h.field_start);
  name = λ e. ground (arith, h.field_start);
  query_start = h.query_start;
  body_start = h.body_start;
  nread = h.nread;
  calls = h.calls;
}
act-Fits Action.start_value in_it ok h = marked-Fits in_it h
act-Fits Action.write_value in_it ok h =
    calling-Fits in_it h _ (ground (arith, h.name ok, from_mark in_it h))
act-Fits Action.request_method in_it ok h = calling-Fits in_it h _ (from_mark in_it h)
act-Fits Action.request_uri in_it ok h = calling-Fits in_it h _ (from_mark in_it h)
act-Fits Action.fragment in_it ok h = calling-Fits in_it h _ (from_mark in_it h)
act-Fits Action.start_query in_it ok h = record {
  mark = h.mark;
  field_start = h.field_start;
  name = h.name;
  query_start = λ e. ground arith;
  body_start = h.body_start;
  nread = h.nread;
  calls = h.calls;
}
act-Fits Action.query_string in_it ok h = calling-Fits in_it h _ (ground (arith, h.query_start ok))
act-Fits Action.http_version in_it ok h = calling-Fits in_it h _ (from_mark in_it h)
act-Fits Action.request_path in_it ok h = calling-Fits in_it h _ (from_mark in_it h)
act-Fits Action.done {pe} {k} {p} {s} in_it ok h =
    calling-Fits {s = record s { body_start = p + 1 }} in_it
      (record {
        mark = h.mark;
        field_start = h.field_start;
        name = h.name;
        query_start = h.query_start;
        body_start = omega arith;
        nread = h.nread;
        calls = h.calls;
      })
      (header_done (p + 1, pe - p - 1)) (ground arith)
act-Fits Action.socket in_it ok h = record {
  mark = h.mark;
  field_start = h.field_start;
  name = h.name;
  query_start = h.query_start;
  body_start = h.body_start;
  nread = h.nread;
  calls = h.calls;
}
act-Fits Action.json in_it ok h = record {
  mark = h.mark;
  field_start = h.field_start;
  name = h.name;
  query_start = h.query_start;
  body_start = h.body_start;
  nread = h.nread;
  calls = h.calls;
}

pub acts-Fits :
    (l : List Action) {pe : ℕ} {k : Known} {p : ℕ} {s : HttpParser}
    → p < pe
    → all_reads l k ≡ true
    → Fits pe k p s
    → Fits pe (all_marks l k) p (acts (act pe) l p s)
unfolding acts all_reads all_marks
acts-Fits [] in_it ok h = h
acts-Fits (a ∷ l) {pe} {k} in_it ok h =
    acts-Fits l in_it (ground (arith, ok)) (act-Fits a in_it (ground (arith, ok)) h)

pub Fits-next :
    {pe : ℕ} {k k' : Known} {p : ℕ} {s : HttpParser}
    → weaker k' k ≡ true
    → Fits pe k p s
    → Fits pe k' (p + 1) s
Fits-next w h = record {
  mark = omega (arith, h.mark);
  field_start = omega (arith, h.field_start);
  name = λ e. omega (arith, h.name (ground (arith, w, e)));
  query_start = λ e. omega (arith, h.query_start (ground (arith, w, e)));
  body_start = h.body_start;
  nread = h.nread;
  calls = h.calls;
}
