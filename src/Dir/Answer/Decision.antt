-- ===== src/Dir/Answer/Decision.antt =====
-- `Dir_calculate_response` of src/dir.c against a table of its answers.
use mongrel.Prelude.{
  ℕ, ◌≡◌, Bool, true, false, not, ◌&&◌, ◌||◌, Option, none, some, text, if◌then◌else◌, arith,
}
use mongrel.Strings.{Bstring, Strings}
use mongrel.Tst.Insert.{same_key}
use mongrel.Request.{Headers, Request, get}
use mongrel.Dir.Files.{FileRecord}
use mongrel.Dir.Answer.{
  Reply, http_304, http_412, http_500, Clock, is_true, later, up_to, star, etag_pattern, get_date,
  conditions, none_match, if_modified_since, calculate_response,
}

abbrev given : Option Bstring → Bool
given none = false
given (some s) = true

-- a tag that a header gives is "*", or meets a test
abbrev passes : (Bstring → Bool) → Option Bstring → Bool
passes test none = false
passes test (some tag) = same_key tag star || test tag

module _ {H : Type 0} (dict : Headers H) (lib : Strings) (clock : Clock) (version : Bstring) where
  -- what a request asks of a file that is no directory
  pub record Conditions : Type 0 where
    pub match_refused : Bool
    pub changed_since : Bool
    pub tag_matches : Bool
    pub unchanged_since : Bool
    pub only_unmodified : Bool
    pub unconditional : Bool

  abbrev pub asked : Request H → FileRecord → ℕ → Conditions
  asked req file now =
      let if_match = get dict lib (text "If-Match") req in
      let tag = get dict lib (text "If-None-Match") req in
      let unmodified = get_date dict lib clock version (text "If-Unmodified-Since") req in
      let since = get_date dict lib clock version (text "If-Modified-Since") req in
      record {
        match_refused =
            given if_match && not (passes (λ t. lib.bstring_match t etag_pattern) if_match);
        changed_since = is_true unmodified && later file.sb.mtime unmodified;
        tag_matches = passes (λ t. same_key t file.etag) tag;
        unchanged_since = is_true since && (up_to since now && not (later file.sb.mtime since));
        only_unmodified = is_true unmodified && not (given tag) && not (is_true since);
        unconditional = not (is_true unmodified) && not (given tag) && not (is_true since);
      }

  -- the first line that holds decides
  unfoldable pub decide_reply : Conditions → Option Reply × Option ℕ
  decide_reply c =
      if c.match_refused
      then (some http_412, some 412)
      else if c.changed_since
      then (some http_412, some 412)
      else if c.tag_matches
      then (some http_304, some 304)
      else if c.unchanged_since
      then (some http_304, some 304)
      else if c.only_unmodified
      then (some http_500, some 500)
      else if c.unconditional
      then (none, some 200)
      else (none, none)

  abbrev with_status : Option ℕ → Request H → Request H
  with_status none req = req
  with_status (some code) req = record req { status_code = code }

  -- For a file that is no directory, the answer and the status code are those of the first condition
  -- that holds of: an If-Match that fails, a file changed since If-Unmodified-Since, an If-None-Match
  -- that matches, a file unchanged since If-Modified-Since, an If-Unmodified-Since that is met and
  -- stands alone (500), no condition at all (200 and the file). If none holds, the file is sent, and
  -- the status code is left as it was.
  pub calculate_response_decides :
      (req : Request H) (file : FileRecord) (now : ℕ)
      → file.is_dir ≡ false
      → calculate_response dict lib clock version req (some file) now ≡ (
        (decide_reply (asked req file now)).0,
        with_status (decide_reply (asked req file now)).1 req,
      )
  unfolding calculate_response conditions none_match if_modified_since decide_reply
  calculate_response_decides req file now plain = ground arith
