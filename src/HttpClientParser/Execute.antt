-- ===== src/HttpClientParser/Execute.antt =====
-- `httpclient_parser_init`, `httpclient_parser_execute` and the tests of a parser's state.
use mongrel.Prelude.{
  ℕ, ◌+◌, ◌-◌, ℤ, pos, minus_one, Bool, false, ◌&&◌, Option, none, some, List, [], length, ltb, leb,
  ◌==◌, if◌then◌else◌,
}
use mongrel.Ragel.{Machine, drop, run}
use mongrel.HttpClientParser.{HttpClientParser, act}
use mongrel.HttpClientParser.Cases.{table}

abbrev pub first_final : ℕ
first_final = 91

abbrev pub has_error : HttpClientParser → Bool
has_error parser = parser.cs == 0

abbrev pub is_finished : HttpClientParser → Bool
is_finished parser = parser.cs == first_final

-- `httpclient_parser_finish`
abbrev pub finish : HttpClientParser → ℤ
finish parser = if has_error parser then minus_one else if is_finished parser then pos 1 else pos 0

-- `httpclient_parser_init`; `status` stays what it was
unfoldable pub init : HttpClientParser → HttpClientParser
init parser = record parser {
  cs = 1;
  body_start = 0;
  content_len = minus_one;
  chunked = false;
  chunks_done = false;
  mark = 0;
  nread = 0;
  field_len = 0;
  field_start = 0;
  calls = [];
}

-- what the call returns at its end, `none` for -1
abbrev pub returned : ℕ → HttpClientParser → Option ℕ × HttpClientParser
returned len parser =
    let counted : HttpClientParser =
      if parser.body_start == 0 then parser else record parser { nread = parser.nread + 1 } in
    if ltb parser.mark len && leb parser.field_len len && ltb parser.field_start len
    then (some counted.nread, counted)
    else (none, parser)

module _ (strtol : List ℕ → ℕ → ℤ) where
  -- the machine where the block leaves it
  unfoldable pub scan : HttpClientParser → List ℕ → ℕ → Machine HttpClientParser
  unfolding run
  scan parser buffer off =
      run (act strtol buffer) table (drop off buffer)
        (record { p = off; cs = parser.cs; parser = parser })

  -- the parser behind the block
  unfoldable pub after : ℕ → Machine HttpClientParser → HttpClientParser
  after off m = record m.parser { cs = m.cs; nread = m.parser.nread + (m.p - off) }

  -- `httpclient_parser_execute`, with the char `end` behind the buffer
  unfoldable pub execute : HttpClientParser → List ℕ → ℕ → ℕ → Option (Option ℕ × HttpClientParser)
  unfolding scan after
  execute parser buffer end off =
      let next = after off (scan parser buffer off) in
      let len = length buffer in
      if leb off len && (end == 128) && leb next.nread len && leb next.body_start len
      then some (returned len next)
      else none
