-- ===== src/Dir/Answer.antt =====
-- What src/dir.c answers to a request for a file: `Dir_calculate_response` and its parts. Times are
-- seconds since 1970; `time(NULL)` is an argument.
pub mod Decision
use mongrel.Prelude.{
  ℕ, ◌+◌, ◌++◌, ℤ, pos, negsuc, Bool, true, false, not, ◌&&◌, ◌||◌, Option, none, some, List, text,
  ltb, leb, ◌==◌, if◌then◌else◌,
}
use mongrel.Strings.{Bstring, Strings}
use mongrel.Tst.Insert.{same_key}
use mongrel.Request.{Headers, Request, get}
use mongrel.Request.Payload.{shown}
use mongrel.Dir.Files.{Stat, FileRecord}

-- the responses that are sent as they are, and the redirect of a directory
pub data Reply : Type 0 where
  http_304 http_404 http_405 http_412 http_500 : Reply
  redirect : Bstring → Reply

-- `strptime` with `RFC_822_TIME`, and `mktime`, as an `int`; `none` where `strptime` fails
pub record Clock : Type 0 where
  pub date_of : Bstring → Option ℤ

-- `VERSION`, and `DIR_REDIRECT_FORMAT`
abbrev pub redirect_text : Bstring → Option Bstring → Option Bstring → Bstring
redirect_text version host uri =
    text "HTTP/1.1 301 Moved Permanently\r\nLocation: http://"
    ++ (shown host
        ++ (shown uri
            ++ (text "/\r\nContent-Length: 0\r\nServer: " ++ (version ++ text "\r\n\r\n"))))

-- an `int` as a condition
abbrev pub is_true : ℤ → Bool
is_true (pos n) = not (n == 0)
is_true (negsuc n) = true

-- `n > z` and `z <= n`
abbrev pub later : ℕ → ℤ → Bool
later n (pos m) = ltb m n
later n (negsuc m) = true

abbrev pub up_to : ℤ → ℕ → Bool
up_to (pos m) n = leb m n
up_to (negsuc m) n = true

abbrev pub star : Bstring
star = text "*"

abbrev pub etag_pattern : Bstring
etag_pattern = text "[a-e0-9]+-[a-e0-9]+"

module _ {H : Type 0} (dict : Headers H) (lib : Strings) (clock : Clock) (version : Bstring) where
  -- `Request_get_date` of src/request.c
  unfoldable pub get_date : Bstring → Request H → ℤ
  get_date field req = elim (get dict lib field req) [
    | none ↦ pos 0
    | some value ↦ elim (clock.date_of value) [ none ↦ pos 0 | some t ↦ t ]
  ]

  abbrev pub answer : ℕ → Reply → Request H → Option Reply × Request H
  answer code reply req = (some reply, record req { status_code = code })

  -- `Dir_if_modified_since`
  pub if_modified_since : Request H → FileRecord → ℕ → ℤ → Option Reply × Request H
  if_modified_since req file now since =
      if up_to since now && not (later file.sb.mtime since)
      then answer 304 http_304 req
      else (none, req)

  -- `Dir_none_match`
  pub none_match : Request H → FileRecord → ℕ → ℤ → Bstring → Option Reply × Request H
  unfolding if_modified_since
  none_match req file now since tag =
      if same_key tag star || same_key tag file.etag
      then answer 304 http_304 req
      else if is_true since
      then if_modified_since req file now since
      else (none, req)

  -- the part of `Dir_calculate_response` after the test of `If-Match`
  pub conditions : Request H → FileRecord → ℕ → Option Reply × Request H
  unfolding none_match if_modified_since get_date
  conditions req file now =
      let tag = get dict lib (text "If-None-Match") req in
      let unmodified = get_date (text "If-Unmodified-Since") req in
      let since = get_date (text "If-Modified-Since") req in
      if is_true unmodified
      then if later file.sb.mtime unmodified then answer 412 http_412 req else elim tag [
        | some t ↦ none_match req file now since t
        | none ↦
            if is_true since then if_modified_since req file now since else answer 500 http_500 req
      ]
      else elim tag [
        | some t ↦ none_match req file now since t
        | none ↦
            if is_true since
            then if_modified_since req file now since
            else (none, record req { status_code = 200 })
      ]

  -- `Dir_calculate_response`
  unfoldable pub calculate_response : Request H → Option FileRecord → ℕ → Option Reply × Request H
  unfolding conditions
  calculate_response req none now = answer 404 http_404 req
  calculate_response req (some file) now =
      if file.is_dir
      then (some (redirect (redirect_text version req.host req.uri)), req)
      else elim (get dict lib (text "If-Match") req) [
        | none ↦ conditions req file now
        | some tag ↦
            if same_key tag star || lib.bstring_match tag etag_pattern
            then conditions req file now
            else answer 412 http_412 req
      ]
