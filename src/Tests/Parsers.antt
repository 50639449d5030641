-- ===== src/Tests/Parsers.antt =====
-- Runs of the parsers of src/http11.
use mongrel.Prelude.{
  ℕ, ◌≡◌, refl, pos, true, false, none, some, List, [], ◌∷◌, ◌++◌, text, length, ◌≤◌,
}
use mongrel.Strings.{Bstring}
use mongrel.Ragel.{choose, lookup, label, acts, run}
use mongrel.HttpParser.{HttpParser, Call, act}
use mongrel.HttpParser.Cases.{table}
use mongrel.HttpParser.Execute.{init, execute, scan, after, in_bounds, is_finished}
use mongrel.HttpParser.Resume.{execute_resumes}
use mongrel.HttpParser.Bounds.{execute_keeps_to_buffer}
use mongrel.HttpParser.Bounds.Marks.{all_inside}
use mongrel.HttpParser.Order.{phases, fresh, is_wrong, is_complete, execute_calls_in_order}
use mongrel.Ragel.Steps.{all_chars}
use mongrel.HttpParser.Reads.{
  is_method_char, is_path_char, is_query_char, is_token_char, is_value_char,
}
use mongrel.HttpParser.RoundTrip.Parts.{is_name, is_value}
use mongrel.HttpParser.RoundTrip.Print.{Written, print, is_written, is_method, is_query, are_fields}
use mongrel.Request.{Headers, Request, start, header_done}
use mongrel.Request.Parse.{request_parse, as_written, request_parse-print}
use mongrel.Tests.Samples.{strings}

abbrev used : HttpParser
used = record {
  cs = 95;
  body_start = 80;
  content_len = pos 0;
  nread = 80;
  mark = 70;
  field_start = 60;
  field_len = 4;
  query_start = 50;
  socket_started = false;
  json_sent = false;
  calls = [];
}

abbrev request : List ℕ
request = text "GET /a?b HTTP/1.1\r\nA: c\r\n\r\n"

abbrev piece : List ℕ
piece = text "GET /a?"

abbrev later : List ℕ
later = text "b HTTP/1.1\r\nA: c\r\n\r\n"

-- the parser behind the piece
abbrev behind : HttpParser
behind = record (init used) {
  cs = 30;
  nread = 7;
  mark = 4;
  calls = Call.request_method (0, 3) ∷ Call.request_path (4, 2) ∷ [];
}

-- and the one behind the whole
abbrev finished : HttpParser
finished = record (init used) {
  cs = 95;
  body_start = 27;
  nread = 27;
  mark = 22;
  field_start = 19;
  field_len = 1;
  query_start = 7;
  calls =
      Call.request_method (0, 3)
      ∷ Call.request_path (4, 2)
      ∷ Call.query_string (7, 1)
      ∷ Call.request_uri (4, 4)
      ∷ Call.http_version (9, 8)
      ∷ Call.http_field (19, 1) (22, 1)
      ∷ Call.header_done (27, 0)
      ∷ [];
}

execute_resumes_example : execute behind (piece ++ later) 7 ≡ execute (init used) (piece ++ later) 0
unfolding execute init scan after in_bounds act acts run label lookup choose table
execute_resumes_example = execute_resumes used piece later 7 behind refl refl

execute_keeps_to_buffer_example :
    (n : ℕ) × (parser : HttpParser) × (execute (init used) request 0 ≡ some (n, parser))
    × (n ≤ length request)
    × (all_inside (length request) parser.calls ≡ true)
execute_keeps_to_buffer_example = execute_keeps_to_buffer used request

execute_calls_in_order_example :
    (is_wrong (phases fresh finished.calls) ≡ false)
    × (is_finished finished ≡ is_complete (phases fresh finished.calls))
unfolding execute init scan after in_bounds act acts run label lookup choose table
execute_calls_in_order_example = execute_calls_in_order used request 27 finished refl

abbrev no_headers : Headers (List (Bstring × Bstring))
no_headers = record {
  empty = [];
  insert = λ name value l. (name, value) ∷ l;
  lookup = λ name l. none;
  entries = λ l. l;
  atoi = λ s. pos 0;
}

abbrev blank : Request (List (Bstring × Bstring))
blank = record {
  method = none;
  version = none;
  uri = none;
  path = none;
  query_string = none;
  fragment = none;
  host = none;
  host_name = none;
  pattern = none;
  target_host = none;
  action = none;
  headers = [];
  status_code = 0;
  response_size = pos 0;
  content_len = pos 0;
  json_sent = true;
}

abbrev written : Written
written = record {
  method = text "GET";
  path = text "a";
  query = some (text "b");
  is_1_1 = true;
  fields = (text "A", text "c") ∷ (text "Empty", []) ∷ [];
}

request_parse-print_example :
    (parser : HttpParser) × (request_parse no_headers strings
        (init used)
        (start no_headers strings blank)
        (print written ++ text "xyz")
        0
      ≡ some (
        pos 1,
        length (print written),
        parser,
        record (header_done no_headers strings
            (as_written no_headers strings written (start no_headers strings blank))) {
              json_sent = false;
            },
      ))
    × (parser.body_start ≡ length (print written))
unfolding is_written is_method is_query are_fields is_name is_value all_chars is_method_char
    is_path_char is_query_char is_token_char is_value_char
request_parse-print_example =
    request_parse-print no_headers strings used blank written (text "xyz") refl
