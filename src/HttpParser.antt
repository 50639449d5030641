-- ===== src/HttpParser.antt =====
-- src/http11/http11_parser.c: the parser of requests, with the actions of http11_parser.rl. Calls of
-- the callbacks are kept in order, with what they are given as offsets into the buffer; a callback
-- is set where the server makes a parser (`Request_create` sets each).
mod Labels
pub mod Cases
pub mod Execute
pub mod Answers
pub mod Bounds
pub mod Resume
pub mod Order
pub mod Reads
pub mod RoundTrip
use mongrel.Prelude.{ℕ, ◌+◌, ◌-◌, ℤ, pos, Bool, true, false, List, [], ◌∷◌, ◌++◌}

-- a pointer into the buffer and the length that goes with it
abbrev pub Span : Type 0
Span = ℕ × ℕ

-- a call of a callback of the parser
pub data Call : Type 0 where
  request_method request_uri fragment request_path query_string http_version header_done :
      Span → Call
  http_field : Span → Span → Call

-- `http_parser`, and the calls so far
pub record HttpParser : Type 0 where
  pub cs : ℕ
  pub body_start : ℕ
  pub content_len : ℤ
  pub nread : ℕ
  pub mark : ℕ
  pub field_start : ℕ
  pub field_len : ℕ
  pub query_start : ℕ
  pub socket_started : Bool
  pub json_sent : Bool
  pub calls : List Call

-- the actions of http11_parser.rl
pub data Action : Type 0 where
  mark start_field write_field start_value write_value : Action
  request_method request_uri fragment start_query query_string http_version request_path : Action
  done socket json : Action

abbrev pub calling : Call → HttpParser → HttpParser
calling c parser = record parser { calls = parser.calls ++ c ∷ [] }

-- `PTR_TO(AT)` and `LEN(AT, p)`; the marks are behind `p` nowhere, so `-` stops at 0 nowhere
abbrev pub from : ℕ → ℕ → Span
from at p = (at, p - at)

-- an action at `p`, in a buffer of `pe` chars
unfoldable pub act : ℕ → Action → ℕ → HttpParser → HttpParser
act pe mark p parser = record parser { mark = p }
act pe start_field p parser = record parser { field_start = p }
act pe write_field p parser = record parser { field_len = p - parser.field_start }
act pe start_value p parser = record parser { mark = p }
act pe write_value p parser =
    calling (http_field (parser.field_start, parser.field_len) (from parser.mark p)) parser
act pe request_method p parser = calling (Call.request_method (from parser.mark p)) parser
act pe request_uri p parser = calling (Call.request_uri (from parser.mark p)) parser
act pe fragment p parser = calling (Call.fragment (from parser.mark p)) parser
act pe start_query p parser = record parser { query_start = p }
act pe query_string p parser = calling (Call.query_string (from parser.query_start p)) parser
act pe http_version p parser = calling (Call.http_version (from parser.mark p)) parser
act pe request_path p parser = calling (Call.request_path (from parser.mark p)) parser
act pe done p parser =
    calling (header_done (p + 1, pe - p - 1)) (record parser { body_start = p + 1 })
act pe socket p parser = record parser { socket_started = true }
act pe json p parser = record parser { json_sent = true }
