-- ===== src/Request/Parse.antt =====
-- `Request_parse` of src/request.c: the parser of HttpParser, with the callbacks of the request.
use mongrel.Prelude.{
  ℕ, ◌+◌, ◌≡◌, refl, ap, ◌∙◌, ℤ, pos, true, false, Option, none, some, List, [], ◌∷◌, ◌++◌, length,
}
use mongrel.Strings.{Bstring, Strings}
use mongrel.Ragel.{drop}
use mongrel.Request.{Headers, Request, Callback, call, header_done, start}
use mongrel.HttpParser.{HttpParser}
use mongrel.HttpParser.Execute.{init, execute, finish}
use mongrel.HttpParser.RoundTrip.{execute-print}
use mongrel.HttpParser.RoundTrip.Hears.{Heard, headers_done, all_hears, version_text}
use mongrel.HttpParser.RoundTrip.Print.{
  Written, is_written, target, print, heard, target_heard, fields_heard,
}

module _ {H : Type 0} (dict : Headers H) (lib : Strings) where
  -- the callback, as `Request_create` sets it
  unfoldable pub hear : Heard → Request H → Request H
  unfolding call header_done
  hear (Heard.request_method s) req = call dict lib (Callback.request_method s) req
  hear (Heard.uri_cb s) req = call dict lib (Callback.uri_cb s) req
  hear (Heard.fragment_cb s) req = call dict lib (Callback.fragment_cb s) req
  hear (Heard.path_cb s) req = call dict lib (Callback.path_cb s) req
  hear (Heard.query_cb s) req = call dict lib (Callback.query_cb s) req
  hear (Heard.http_version s) req = call dict lib (Callback.http_version s) req
  hear (Heard.header_field s t) req = call dict lib (Callback.header_field s t) req
  hear headers_done req = header_done dict lib req

  unfoldable pub hear_all : List Heard → Request H → Request H
  unfolding hear
  hear_all [] req = req
  hear_all (h ∷ l) req = hear_all l (hear h req)

  -- the request behind a call of the parser that left it as `next`, with `old` calls before
  unfoldable pub requested : ℕ → List ℕ → Request H → HttpParser → Request H
  unfolding all_hears hear_all
  requested old buf req next = record (hear_all (all_hears buf (drop old next.calls)) req) {
    json_sent = next.json_sent;
  }

  -- `Request_parse`: what `http_parser_finish` says, the number of chars parsed, and the parser and the
  -- request that are left, unless an assertion of the parser fails
  unfoldable pub request_parse :
      HttpParser → Request H → List ℕ → ℕ → Option (ℤ × ℕ × HttpParser × Request H)
  unfolding execute requested
  request_parse parser req buf nparsed = elim (execute parser buf nparsed) [
    | none ↦ none
    | some (n, next) ↦ some (finish next, n, next, requested (length parser.calls) buf req next)
  ]

  parsed-some :
      (parser : HttpParser) (req : Request H) (buf : List ℕ) (nparsed : ℕ) {n : ℕ}
      {next : HttpParser}
      → execute parser buf nparsed ≡ some (n, next)
      → request_parse parser req buf nparsed
        ≡ some (finish next, n, next, requested (length parser.calls) buf req next)
  unfolding request_parse
  parsed-some parser req buf nparsed e =
      ap
        (λ o. elim o as (λ o. Option (ℤ × ℕ × HttpParser × Request H)) [
          | none ↦ none
          | some (n, next) ↦
              some (finish next, n, next, requested (length parser.calls) buf req next)
        ])
        e

  -- the fields of a request, put into its headers
  abbrev pub insert_all : List (Bstring × Bstring) → H → H
  insert_all [] headers = headers
  insert_all ((name, value) ∷ l) headers = insert_all l (dict.insert name value headers)

  -- what a request should be before `header_done_cb`
  abbrev pub as_written : Written → Request H → Request H
  as_written r req = record req {
    method = some r.method;
    version = some (version_text r.is_1_1);
    uri = some (target r.path r.query);
    path = some ((47 + 128) ∷ r.path);
    query_string = r.query;
    headers = insert_all r.fields req.headers;
  }

  hear_all-append :
      (a b : List Heard) (req : Request H) → hear_all (a ++ b) req ≡ hear_all b (hear_all a req)
  unfolding hear_all
  hear_all-append [] b req = refl
  hear_all-append (h ∷ a) b req = hear_all-append a b (hear h req)

  hear_fields :
      (l : List (Bstring × Bstring)) (req : Request H)
      → hear_all (fields_heard l) req ≡ record req { headers = insert_all l req.headers }
  unfolding hear_all hear call
  hear_fields [] req = refl
  hear_fields ((name, value) ∷ l) req =
      hear_fields l (record req { headers = dict.insert name value req.headers })

  hear_head :
      (r : Written) (query : Option Bstring) (req : Request H)
      → req.query_string ≡ none
      → hear_all
          (Heard.request_method r.method
            ∷ (target_heard r.path query
                ++ Heard.http_version (version_text r.is_1_1) ∷ fields_heard r.fields))
          req
        ≡ as_written (record r { query = query }) req
  unfolding hear_all hear call
  hear_head r none req e =
      hear_fields r.fields _
      ∙ ap
          (λ query. record (as_written r req) {
            uri = some (target r.path none);
            query_string = query;
          })
          e
  hear_head r (some query) req e = hear_fields r.fields _

  started : (old : Request H) → (start dict lib old).query_string ≡ none
  unfolding start
  started old = refl

  heard_all :
      (r : Written) (req : Request H)
      → req.query_string ≡ none
      → hear_all (heard r ++ headers_done ∷ []) req ≡ header_done dict lib (as_written r req)
  unfolding heard hear_all hear
  heard_all r req e =
      hear_all-append (heard r) (headers_done ∷ []) req
      ∙ ap (header_done dict lib) (hear_head r r.query req e)

  requested-as_written :
      (old : Request H) (r : Written) (buf : List ℕ) (parser : HttpParser)
      → parser.json_sent ≡ false
      → all_hears buf parser.calls ≡ heard r ++ headers_done ∷ []
      → requested 0 buf (start dict lib old) parser
        ≡ record (header_done dict lib (as_written r (start dict lib old))) { json_sent = false }
  unfolding requested
  requested-as_written old r buf parser json told =
      ap {B = Request H}
        (λ l. record (hear_all l (start dict lib old)) { json_sent = parser.json_sent }) told
      ∙ ap {B = Request H} (λ req. record req { json_sent = parser.json_sent })
          (heard_all r (start dict lib old) (started old))
      ∙ ap {B = Request H}
          (λ b. record (header_done dict lib (as_written r (start dict lib old))) { json_sent = b })
          json

  -- `Request_parse`, behind `Request_start` and whatever stood in the parser and in the request before,
  -- of a request with a method of one to twenty capitals, digits or `$-_.`, a target that begins with
  -- `/`, with or without a query that is not empty, without escapes, params or a fragment, version
  -- 1.0 or 1.1, and any number of fields with a name of token chars and a value in one line that
  -- begins with no space, whatever lies behind it: the answer is that the parser is finished, that
  -- it parsed the request to its end and that the body starts there. The request has then its
  -- method, its whole target, its path, its query, if it has one, and its version as they were
  -- written; its fields have been put into the empty headers one by one, in their order; it is not
  -- taken for JSON; and `header_done_cb` has run on that.
  pub request_parse-print :
      (q : HttpParser) (old : Request H) (r : Written) (body : List ℕ)
      → is_written r ≡ true
      → (parser : HttpParser) × (request_parse (init q) (start dict lib old) (print r ++ body) 0
          ≡ some (
            pos 1,
            length (print r),
            parser,
            record (header_done dict lib (as_written r (start dict lib old))) { json_sent = false },
          ))
        × (parser.body_start ≡ length (print r))
  unfolding init
  request_parse-print q old r body ok =
      let (parser, ran, done, body_start, json, told) = execute-print q r body ok in
      (
        parser,
        parsed-some (init q) (start dict lib old) (print r ++ body) 0 ran
            ∙ ap
                (λ f. some (
                  f,
                  length (print r),
                  parser,
                  requested 0 (print r ++ body) (start dict lib old) parser,
                ))
                done
            ∙ ap (λ req. some (pos 1, length (print r), parser, req))
                (requested-as_written old r (print r ++ body) parser json told),
        body_start,
      )
