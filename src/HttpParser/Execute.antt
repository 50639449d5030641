-- ===== src/HttpParser/Execute.antt =====
-- `http_parser_init`, `http_parser_execute` and the tests of a parser's state.
use mongrel.Prelude.{
  ℕ, ◌+◌, ◌-◌, ℤ, pos, minus_one, Bool, false, ◌&&◌, Option, none, some, List, [], length, ltb, leb,
  ◌==◌, if◌then◌else◌,
}
use mongrel.Ragel.{Machine, drop, run}
use mongrel.HttpParser.{HttpParser, act}
use mongrel.HttpParser.Cases.{table}

abbrev pub first_final : ℕ
first_final = 95

abbrev pub has_error : HttpParser → Bool
has_error parser = parser.cs == 0

abbrev pub is_finished : HttpParser → Bool
is_finished parser = leb first_final parser.cs

-- `http_parser_finish`
abbrev pub finish : HttpParser → ℤ
finish parser = if has_error parser then minus_one else if is_finished parser then pos 1 else pos 0

-- `http_parser_init`; `query_start` stays what it was
unfoldable pub init : HttpParser → HttpParser
init parser = record parser {
  cs = 1;
  body_start = 0;
  content_len = pos 0;
  mark = 0;
  nread = 0;
  field_len = 0;
  field_start = 0;
  socket_started = false;
  json_sent = false;
  calls = [];
}

-- the assertions at the end
unfoldable pub in_bounds : ℕ → HttpParser → Bool
in_bounds len parser =
    leb parser.nread len
    && leb parser.body_start len
    && ltb parser.mark len
    && leb parser.field_len len
    && ltb parser.field_start len

-- the machine where the block leaves it
unfoldable pub scan : HttpParser → List ℕ → ℕ → Machine HttpParser
unfolding run
scan parser buffer off =
    run (act (length buffer)) table (drop off buffer)
      (record { p = off; cs = parser.cs; parser = parser })

-- the parser behind the block
unfoldable pub after : ℕ → HttpParser → Machine HttpParser → HttpParser
after off parser m = record m.parser {
  cs = if has_error parser then parser.cs else m.cs;
  nread = m.parser.nread + (m.p - off);
}

-- `http_parser_execute`
unfoldable pub execute : HttpParser → List ℕ → ℕ → Option (ℕ × HttpParser)
unfolding scan in_bounds after
execute parser buffer off =
    let next = after off parser (scan parser buffer off) in
    if length buffer == 0
    then some (0, parser)
    else if leb off (length buffer) && in_bounds (length buffer) next
    then some (next.nread, next)
    else none
