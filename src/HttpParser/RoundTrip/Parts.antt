-- ===== src/HttpParser/RoundTrip/Parts.antt =====
-- The parts of a request as a client writes it, each read by the table of src/http11/http11_parser.c.
use mongrel.Prelude.{
  ℕ, ◌+◌, ◌-◌, ◌≡◌, refl, sym, ap, ◌∙◌, ◌≢◌, Bool, true, false, ◌&&◌, not, List, [], ◌∷◌, ◌++◌,
  length, text, ◌==◌, if◌then◌else◌, arith,
}
use mongrel.Ragel.{choose, lookup, label, run, acts}
use mongrel.Ragel.Steps.{at, step, loop, all_chars}
use mongrel.HttpParser.{
  HttpParser, write_value, request_uri, request_path, query_string, http_version, done, act,
}
use mongrel.HttpParser.Cases.{table}
use mongrel.HttpParser.Reads.{
  is_query_char, is_path_char, is_token_char, is_value_char, path_stays, name_stays, name_begins,
  query_begins, query_stays, value_begins, value_stays,
}

pub true≢false : true ≢ false
true≢false e = ground (arith, e)

-- a name that is not empty, of token chars
unfoldable pub is_name : List ℕ → Bool
is_name [] = false
is_name (c ∷ l) = all_chars is_token_char (c ∷ l)

-- a value in one line that begins with no space
unfoldable pub is_value : List ℕ → Bool
is_value [] = true
is_value (c ∷ l) = all_chars is_value_char (c ∷ l) && not (c == 32 + 128)

module _ (pe : ℕ) where
  -- `/` and a path, with the space behind it
  pub path-run :
      (path rest : List ℕ) (p : ℕ) (s : HttpParser)
      → all_chars is_path_char path ≡ true
      → run (act pe) table ((47 + 128) ∷ (path ++ (32 + 128) ∷ rest)) (at p 3 s)
        ≡ run (act pe) table rest (
            let e = p + 1 + length path in
            at (e + 1) 5 (act pe request_uri e (act pe request_path e (record s { mark = p }))))
  unfolding acts act label lookup choose table
  path-run path rest p s ok =
      step (act pe) table p 3 s (47 + 128) _ refl
      ∙ loop (act pe) table 24 is_path_char path_stays path ((32 + 128) ∷ rest) (p + 1)
          (record s { mark = p }) ok
      ∙ step (act pe) table (p + 1 + length path) 24 (record s { mark = p }) (32 + 128) rest refl

  -- `/`, a path, `?` and a query that is not empty, with the space behind it
  pub query-run :
      (path query rest : List ℕ) (c p : ℕ) (s : HttpParser)
      → all_chars is_path_char path ≡ true
      → all_chars is_query_char (c ∷ query) ≡ true
      → run
          (act pe)
          table
          ((47 + 128) ∷ (path ++ (63 + 128) ∷ c ∷ (query ++ (32 + 128) ∷ rest)))
          (at p 3 s)
        ≡ run (act pe) table rest (
            let e = p + 1 + length path in
            let e' = e + 1 + length (c ∷ query) in
            at (e' + 1) 5 (
              act pe request_uri e' (
                act pe query_string e' (record (act pe request_path e (record s { mark = p })) {
                  query_start = e + 1;
                }))))
  unfolding acts act label lookup choose table all_chars
  query-run path query rest c p s ok oks =
      let e = p + 1 + length path in
      let s1 = record s { mark = p } in
      let s2 = act pe request_path e s1 in
      let s3 = record s2 { query_start = e + 1 } in
      step (act pe) table p 3 s (47 + 128) _ refl
      ∙ loop (act pe) table 24 is_path_char path_stays path _ (p + 1) s1 ok
      ∙ step (act pe) table e 24 s1 (63 + 128) _ refl
      ∙ step (act pe) table (e + 1) 30 s2 c _ (query_begins c (ground (arith, oks)))
      ∙ loop (act pe) table 31 is_query_char query_stays query _ (e + 1 + 1) s3
          (ground (arith, oks))
      ∙ step (act pe) table (e + 1 + 1 + length query) 31 s3 (32 + 128) rest refl
      ∙ ap
          (λ k.
            run (act pe) table rest
              (at (k + 1) 5 (act pe request_uri k (act pe query_string k s3))))
          (omega arith)

  version-count :
      (rest : List ℕ) (p : ℕ) (s : HttpParser)
      → run (act pe) table rest (
          at
            (p + 1 + 1 + 1 + 1 + 1 + 1 + 1 + 1 + 1 + 1)
            14
            (act pe http_version (p + 1 + 1 + 1 + 1 + 1 + 1 + 1 + 1) (record s { mark = p })))
        ≡ run
            (act pe)
            table
            rest
            (at (p + 10) 14 (act pe http_version (p + 8) (record s { mark = p })))
  version-count rest p s =
      ap
        (λ k.
          run (act pe) table rest
            (at (k + 1 + 1) 14 (act pe http_version k (record s { mark = p }))))
        (omega arith)
      ∙ ap
          (λ k.
            run (act pe) table rest (at k 14 (act pe http_version (p + 8) (record s { mark = p }))))
          (omega arith)

  -- `HTTP/1.0` or `HTTP/1.1`, with the line end behind it
  pub version-run :
      (digit : Bool) (rest : List ℕ) (p : ℕ) (s : HttpParser)
      → run
          (act pe)
          table
          (text "HTTP/1." ++ (if digit then 49 + 128 else 48 + 128) ∷ (text "\r\n" ++ rest))
          (at p 5 s)
        ≡ run
            (act pe)
            table
            rest
            (at (p + 10) 14 (act pe http_version (p + 8) (record s { mark = p })))
  unfolding run acts act label lookup choose table
  version-run true rest p s = version-count rest p s
  version-run false rest p s = version-count rest p s

  abbrev named : List ℕ → ℕ → HttpParser → HttpParser
  named name p s = record s {
    field_start = p;
    field_len = p + length name - p;
    mark = p + length name + 1;
  }

  -- a name with the colon and the space behind it
  name-run :
      (c : ℕ) (name rest : List ℕ) (p : ℕ) (s : HttpParser)
      → is_name (c ∷ name) ≡ true
      → run (act pe) table ((c ∷ name) ++ (text ": " ++ rest)) (at p 14 s)
        ≡ run (act pe) table rest (at (p + length (c ∷ name) + 2) 17 (named (c ∷ name) p s))
  unfolding acts act label lookup choose table all_chars is_name
  name-run c name rest p s ok =
      step (act pe) table p 14 s c _ (name_begins c (ground (arith, ok)))
      ∙ loop (act pe) table 16 is_token_char name_stays name (text ": " ++ rest) (p + 1) s1
          (ground (arith, ok))
      ∙ step (act pe) table e 16 s1 (58 + 128) _ refl
      ∙ step (act pe) table (e + 1) 17 (record s1 { field_len = e - p }) (32 + 128) rest refl
      ∙ ap
          (λ k.
            run (act pe) table rest
              (at (k + 1 + 1) 17 (record s1 { field_len = k - p; mark = k + 1 })))
          (omega arith)
      ∙ ap (λ k. run (act pe) table rest (at k 17 (named (c ∷ name) p s))) (omega arith)
    where
      e : ℕ
      e = p + 1 + length name

      s1 : HttpParser
      s1 = record s { field_start = p }

  -- the ends of a field, counted
  counted :
      (name value rest : List ℕ) (p : ℕ) (s : HttpParser) (e e' : ℕ)
      → e ≡ p + length name + 2 + length value
      → e' ≡ p + length name + 2 + length value + 2
      → run
          (act pe)
          table
          rest
          (at e' 14 (act pe write_value e (record (named name p s) { mark = p + length name + 2 })))
        ≡ run (act pe) table rest (
            at (p + length name + 2 + length value + 2) 14 (
              act pe write_value
                (p + length name + 2 + length value)
                (record (named name p s) { mark = p + length name + 2 })))
  counted name value rest p s e e' h h' =
      ap
        (λ k. run (act pe) table rest (
          at e' 14 (act pe write_value k (record (named name p s) { mark = p + length name + 2 }))))
        h
      ∙ ap
          (λ k. run (act pe) table rest (
            at k 14 (
              act pe write_value (p + length name + 2 + length value)
                (record (named name p s) { mark = p + length name + 2 }))))
          h'

  -- a field with its line end
  pub field-run :
      (name value rest : List ℕ) (p : ℕ) (s : HttpParser)
      → is_name name ≡ true
      → is_value value ≡ true
      → run (act pe) table (name ++ (text ": " ++ (value ++ (text "\r\n" ++ rest)))) (at p 14 s)
        ≡ run (act pe) table rest (
            let v = p + length name + 2 in
            let e = v + length value in
            at (e + 2) 14 (
              act pe write_value e
                (record s { field_start = p; field_len = p + length name - p; mark = v })))
  unfolding acts act label lookup choose table all_chars is_name is_value
  field-run [] value rest p s ok oks = elim (true≢false (sym ok)) [ ]
  field-run (c ∷ name) [] rest p s ok oks =
      name-run c name (text "\r\n" ++ rest) p s ok
      ∙ step (act pe) table v 17 s1 (13 + 128) _ refl
      ∙ step (act pe) table (v + 1) 19 (act pe write_value v (record s1 { mark = v })) (10 + 128)
          rest refl
      ∙ counted (c ∷ name) [] rest p s v (v + 1 + 1) (omega arith) (omega arith)
    where
      v : ℕ
      v = p + length (c ∷ name) + 2

      s1 : HttpParser
      s1 = named (c ∷ name) p s
  field-run (c ∷ name) (d ∷ value) rest p s ok oks =
      name-run c name ((d ∷ value) ++ (text "\r\n" ++ rest)) p s ok
      ∙ step (act pe) table v 17 s1 d _ (value_begins d (ground (arith, oks)) (ground (arith, oks)))
      ∙ loop (act pe) table 18 is_value_char value_stays value (text "\r\n" ++ rest) (v + 1)
          (record s1 { mark = v }) (ground (arith, oks))
      ∙ step (act pe) table e 18 (record s1 { mark = v }) (13 + 128) _ refl
      ∙ step (act pe) table (e + 1) 19 (act pe write_value e (record s1 { mark = v })) (10 + 128)
          rest refl
      ∙ counted (c ∷ name) (d ∷ value) rest p s e (e + 1 + 1) (omega arith) (omega arith)
    where
      v : ℕ
      v = p + length (c ∷ name) + 2

      e : ℕ
      e = v + 1 + length value

      s1 : HttpParser
      s1 = named (c ∷ name) p s

  -- the empty line behind the fields
  pub end-run :
      (rest : List ℕ) (p : ℕ) (s : HttpParser)
      → run (act pe) table (text "\r\n" ++ rest) (at p 14 s)
        ≡ at (p + 1 + 1) 95 (act pe done (p + 1) s)
  unfolding run acts act label lookup choose table
  end-run rest p s = refl
