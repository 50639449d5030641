-- ===== src/HttpClientParser.antt =====
-- src/http11/httpclient_parser.c: the parser of responses and of the headers of chunks, with the
-- actions of httpclient_parser.rl. Calls of the callbacks that are set are kept in order, as HttpParser
-- keeps them.
mod Labels
pub mod Cases
pub mod Execute
pub mod Order
pub mod Unset
use mongrel.Prelude.{
  ℕ, zero, suc, ◌+◌, ◌-◌, ℤ, pos, Bool, true, false, ◌&&◌, List, [], ◌∷◌, ◌++◌, length,
  if◌then◌else◌,
}
use mongrel.Ragel.{drop}
use mongrel.HttpParser.{Span, from}

-- a call of a callback of the parser
pub data Call : Type 0 where
  reason_phrase status_code chunk_size http_version header_done last_chunk : Span → Call
  http_field : Span → Span → Call

-- which of the callbacks are set, that is, not NULL
pub record Callbacks : Type 0 where
  pub http_field : Bool
  pub reason_phrase : Bool
  pub status_code : Bool
  pub chunk_size : Bool
  pub http_version : Bool
  pub header_done : Bool
  pub last_chunk : Bool

-- whether the callback of a call is set
pub is_set : Callbacks → Call → Bool
is_set set (reason_phrase at) = set.reason_phrase
is_set set (status_code at) = set.status_code
is_set set (chunk_size at) = set.chunk_size
is_set set (http_version at) = set.http_version
is_set set (header_done at) = set.header_done
is_set set (last_chunk at) = set.last_chunk
is_set set (http_field field value) = set.http_field

-- `httpclient_parser`, and the calls so far
pub record HttpClientParser : Type 0 where
  pub cs : ℕ
  pub body_start : ℕ
  pub content_len : ℤ
  pub status : ℤ
  pub chunked : Bool
  pub chunks_done : Bool
  pub nread : ℕ
  pub mark : ℕ
  pub field_start : ℕ
  pub field_len : ℕ
  pub set : Callbacks
  pub calls : List Call

-- the actions of httpclient_parser.rl
pub data Action : Type 0 where
  mark start_field write_field start_value write_content_len write_value reason_phrase : Action
  status_code http_version chunk_size trans_chunked done : Action

-- a number at most 0
abbrev pub not_positive : ℤ → Bool
not_positive (pos zero) = true
not_positive (pos (suc n)) = false
not_positive (ℤ.negsuc n) = true

-- a call of a callback, unless it is NULL
pub calling : Call → HttpClientParser → HttpClientParser
unfolding is_set
calling c parser =
    if is_set parser.set c then record parser { calls = parser.calls ++ c ∷ [] } else parser

-- The actions at `p`, in a buffer; `strtol` reads the chars from a place on, in a base, and its result
-- is put into an `int`.
module _ (strtol : List ℕ → ℕ → ℤ) (buffer : List ℕ) where
  -- the action `chunk_size`
  pub take_size : ℕ → HttpClientParser → HttpClientParser
  take_size p parser =
      let size = strtol (drop parser.mark buffer) 16 in
      let next : HttpClientParser = record parser {
        chunked = true;
        content_len = size;
        chunks_done = not_positive size;
      } in
      let at = from parser.mark p in
      calling
        (if not_positive size && parser.set.last_chunk then last_chunk at else Call.chunk_size at)
        next

  unfoldable pub act : Action → ℕ → HttpClientParser → HttpClientParser
  unfolding take_size calling
  act mark p parser = record parser { mark = p }
  act start_field p parser = record parser { field_start = p }
  act write_field p parser = record parser { field_len = p - parser.field_start }
  act start_value p parser = record parser { mark = p }
  act write_content_len p parser = record parser {
    content_len = strtol (drop parser.mark buffer) 10;
  }
  act write_value p parser =
      calling (http_field (parser.field_start, parser.field_len) (from parser.mark p)) parser
  act reason_phrase p parser = calling (Call.reason_phrase (from parser.mark p)) parser
  act status_code p parser =
      calling (Call.status_code (from parser.mark p))
        (record parser { status = strtol (drop parser.mark buffer) 10 })
  act http_version p parser = calling (Call.http_version (from parser.mark p)) parser
  act chunk_size p parser = take_size p parser
  act trans_chunked p parser = record parser { chunked = true }
  act done p parser =
      calling (header_done (p + 1, length buffer - p - 1)) (record parser { body_start = p + 1 })
