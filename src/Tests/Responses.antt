-- ===== src/Tests/Responses.antt =====
-- A run of the parser of responses, with no callback set, as src/connection.c allocates it.
use mongrel.Prelude.{ℕ, ◌≡◌, refl, ℤ, pos, true, false, some, List, [], text, read, leb}
use mongrel.Ragel.{choose, lookup, label, acts, run}
use mongrel.HttpClientParser.{Callbacks, HttpClientParser, act}
use mongrel.HttpClientParser.Unset.{all_set, hearing}
use mongrel.HttpClientParser.Cases.{table}
use mongrel.HttpClientParser.Execute.{init, execute, scan, after}
use mongrel.HttpClientParser.Order.{phases, fresh, is_wrong, is_complete, response_calls_in_order}

abbrev none_set : Callbacks
none_set = record {
  http_field = false;
  reason_phrase = false;
  status_code = false;
  chunk_size = false;
  http_version = false;
  header_done = false;
  last_chunk = false;
}

abbrev used_client : HttpClientParser
used_client = record {
  cs = 91;
  body_start = 80;
  content_len = pos 5;
  status = pos 404;
  chunked = true;
  chunks_done = false;
  nread = 80;
  mark = 70;
  field_start = 60;
  field_len = 4;
  set = none_set;
  calls = [];
}

-- a number in decimal, whatever the base
abbrev numeral : List ℕ → ℕ → ℤ
numeral l base = pos (read 0 l).0

abbrev response : List ℕ
response = text "HTTP/1.1 200 OK\r\nContent-Length: 5\r\n\r\n"

abbrev answered : HttpClientParser
answered = record (init used_client) {
  cs = 91;
  body_start = 38;
  content_len = pos 5;
  status = pos 200;
  nread = 39;
  mark = 33;
  field_start = 17;
  field_len = 14;
}

response_calls_in_order_example :
    (full : HttpClientParser) × (execute numeral
        (init (record used_client { set = all_set }))
        response
        128
        0
      ≡ some (some 39, full))
    × (answered ≡ hearing none_set full)
    × (is_wrong (phases fresh full.calls) ≡ false)
    × (leb 91 answered.cs ≡ is_complete (phases fresh full.calls))
unfolding execute init scan after act acts run label lookup choose table
response_calls_in_order_example =
    response_calls_in_order numeral response used_client 128 (some 39) answered refl
