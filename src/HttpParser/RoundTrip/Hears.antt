-- ===== src/HttpParser/RoundTrip/Hears.antt =====
-- What the callbacks of src/request.c hear of the parts of a request.
use mongrel.Prelude.{
  ℕ, ◌+◌, ◌≡◌, ◌<◌, refl, sym, ap, ◌∙◌, Bool, true, List, [], ◌∷◌, ◌++◌, length, length-append,
  append_assoc, append-nil, take, text, if◌then◌else◌, arith,
}
use mongrel.Ragel.{run, drop}
use mongrel.Ragel.Steps.{at, all_chars, slice-middle}
use mongrel.HttpParser.{Span, Call, from, HttpParser, Action, act}
use mongrel.HttpParser.Cases.{table}
use mongrel.HttpParser.Reads.{is_path_char, is_method_char}
use mongrel.HttpParser.Reads.Method.{method-run}
use mongrel.HttpParser.RoundTrip.Parts.{path-run, version-run}

-- the chars of a span
abbrev pub text_of : List ℕ → Span → List ℕ
text_of buffer (from_, len) = take len (drop from_ buffer)

-- a callback of src/request.c with its texts; `header_done_cb` reads none
pub data Heard : Type 0 where
  request_method uri_cb fragment_cb path_cb query_cb http_version : List ℕ → Heard
  header_field : List ℕ → List ℕ → Heard
  headers_done : Heard

-- the callback that a call reaches
unfoldable pub hears : List ℕ → Call → List Heard
hears b (Call.request_method s) = request_method (text_of b s) ∷ []
hears b (Call.request_uri s) = uri_cb (text_of b s) ∷ []
hears b (Call.fragment s) = fragment_cb (text_of b s) ∷ []
hears b (Call.request_path s) = path_cb (text_of b s) ∷ []
hears b (Call.query_string s) = query_cb (text_of b s) ∷ []
hears b (Call.http_version s) = http_version (text_of b s) ∷ []
hears b (Call.header_done s) = headers_done ∷ []
hears b (Call.http_field s t) = header_field (text_of b s) (text_of b t) ∷ []

unfoldable pub all_hears : List ℕ → List Call → List Heard
unfolding hears
all_hears b [] = []
all_hears b (c ∷ l) = hears b c ++ all_hears b l

pub all_hears-snoc :
    (b : List ℕ) (l : List Call) (c : Call) → all_hears b (l ++ c ∷ []) ≡ all_hears b l ++ hears b c
unfolding all_hears
all_hears-snoc b [] c = append-nil (hears b c)
all_hears-snoc b (d ∷ l) c =
    ap (λ x. hears b d ++ x) (all_hears-snoc b l c)
    ∙ sym (append_assoc (hears b d) (all_hears b l) (hears b c))

-- a part `seg` of the buffer `w` that is read behind `pre`, from the state `n` to the state `n'`
pub record Reads (w pre seg rest : List ℕ) (n n' : ℕ) (s : HttpParser) (new : List Heard)
    : Type 0 where
  pub parser : HttpParser
  pub runs :
      run (act (length w)) table (seg ++ rest) (at (length pre) n s)
      ≡ run (act (length w)) table rest (at (length (pre ++ seg)) n' parser)
  pub hears_new : all_hears w parser.calls ≡ all_hears w s.calls ++ new
  pub nread : parser.nread ≡ s.nread
  pub json_sent : parser.json_sent ≡ s.json_sent

-- a text in a buffer, by its place
pub text-middle :
    {w : List ℕ} (pre x post : List ℕ) {a n : ℕ}
    → w ≡ pre ++ (x ++ post)
    → a ≡ length pre
    → n ≡ length x
    → text_of w (a, n) ≡ x
text-middle {w} pre x post {a} {n} e h k =
    ap (λ w. text_of w (a, n)) e
    ∙ ap (λ a. text_of (pre ++ (x ++ post)) (a, n)) h
    ∙ ap (λ n. text_of (pre ++ (x ++ post)) (length pre, n)) k
    ∙ slice-middle pre x post

module _ (w pre rest : List ℕ) (s : HttpParser) where
  -- a method with the space behind it
  pub method-Reads :
      (c : ℕ) (l : List ℕ)
      → all_chars is_method_char (c ∷ l) ≡ true
      → length l < 20
      → w ≡ pre ++ (((c ∷ l) ++ (32 + 128) ∷ []) ++ rest)
      → Reads w pre ((c ∷ l) ++ (32 + 128) ∷ []) rest 1 3 s (request_method (c ∷ l) ∷ [])
  unfolding act hears
  method-Reads c l ok short e = record {
    parser =
        act (length w) Action.request_method (length pre + length (c ∷ l))
          (record s { mark = length pre });
    runs =
        ap (λ x. run (act (length w)) table x (at (length pre) 1 s))
          (append_assoc (c ∷ l) ((32 + 128) ∷ []) rest)
        ∙ method-run (length w) c l rest (length pre) s ok short
        ∙ ap
            (λ k. run (act (length w)) table rest (
              at k 3 (
                act (length w) Action.request_method (length pre + length (c ∷ l))
                  (record s { mark = length pre }))))
            (omega (
              arith,
              length-append pre ((c ∷ l) ++ (32 + 128) ∷ []),
              length-append (c ∷ l) ((32 + 128) ∷ []),
            ));
    hears_new =
        all_hears-snoc w s.calls
          (Call.request_method (from (length pre) (length pre + length (c ∷ l))))
        ∙ ap (λ x. all_hears w s.calls ++ request_method x ∷ [])
            (text-middle pre (c ∷ l) ((32 + 128) ∷ [] ++ rest)
              (e ∙ ap (λ x. pre ++ x) (append_assoc (c ∷ l) ((32 + 128) ∷ []) rest)) refl
              (omega arith));
    nread = refl;
    json_sent = refl;
  }

pub hears-two :
    (w : List ℕ) (l : List Call) (c d : Call)
    → all_hears w ((l ++ c ∷ []) ++ d ∷ []) ≡ all_hears w l ++ (hears w c ++ hears w d)
hears-two w l c d =
    all_hears-snoc w (l ++ c ∷ []) d
    ∙ ap (λ x. x ++ hears w d) (all_hears-snoc w l c)
    ∙ append_assoc (all_hears w l) (hears w c) (hears w d)

module _ (w pre rest : List ℕ) (s : HttpParser) (path : List ℕ)
    (ok : all_chars is_path_char path ≡ true) where
  abbrev slash_path : List ℕ
  slash_path = (47 + 128) ∷ path

  -- a target without a query, with the space behind it
  pub path-Reads :
      w ≡ pre ++ ((slash_path ++ (32 + 128) ∷ []) ++ rest)
      → Reads w pre
          (slash_path ++ (32 + 128) ∷ [])
          rest
          3
          5
          s
          (path_cb slash_path ∷ uri_cb slash_path ∷ [])
  unfolding act hears
  path-Reads e = record {
    parser =
        act (length w) Action.request_uri p'
          (act (length w) Action.request_path p' (record s { mark = length pre }));
    runs =
        ap (λ x. run (act (length w)) table x (at (length pre) 3 s))
          (append_assoc slash_path ((32 + 128) ∷ []) rest)
        ∙ path-run (length w) path rest (length pre) s ok
        ∙ ap
            (λ k. run (act (length w)) table rest (
              at k 5 (
                act (length w) Action.request_uri p'
                  (act (length w) Action.request_path p' (record s { mark = length pre })))))
            (omega (
              arith,
              length-append pre (slash_path ++ (32 + 128) ∷ []),
              length-append slash_path ((32 + 128) ∷ []),
            ));
    hears_new =
        hears-two w s.calls (Call.request_path (from (length pre) p'))
          (Call.request_uri (from (length pre) p'))
        ∙ ap (λ x. all_hears w s.calls ++ (path_cb x ∷ uri_cb x ∷ []))
            (text-middle pre slash_path ((32 + 128) ∷ [] ++ rest)
              (e ∙ ap (λ x. pre ++ x) (append_assoc slash_path ((32 + 128) ∷ []) rest)) refl
              (omega arith));
    nread = refl;
    json_sent = refl;
  }
    where
      p' : ℕ
      p' = length pre + 1 + length path

abbrev pub version_text : Bool → List ℕ
version_text digit = text "HTTP/1." ++ (if digit then 49 + 128 else 48 + 128) ∷ []

module _ (w pre rest : List ℕ) (s : HttpParser) where
  -- the version with its line end
  pub version-Reads :
      (digit : Bool)
      → w ≡ pre ++ ((version_text digit ++ text "\r\n") ++ rest)
      → Reads w pre
          (version_text digit ++ text "\r\n")
          rest
          5
          14
          s
          (http_version (version_text digit) ∷ [])
  unfolding act hears
  version-Reads digit e = record {
    parser = act (length w) Action.http_version (length pre + 8) (record s { mark = length pre });
    runs =
        version-run (length w) digit rest (length pre) s
        ∙ ap
            (λ k. run (act (length w)) table rest (
              at k 14 (
                act (length w) Action.http_version (length pre + 8)
                  (record s { mark = length pre }))))
            (omega (arith, length-append pre (version_text digit ++ text "\r\n")));
    hears_new =
        all_hears-snoc w s.calls (Call.http_version (from (length pre) (length pre + 8)))
        ∙ ap (λ x. all_hears w s.calls ++ http_version x ∷ [])
            (text-middle pre (version_text digit) (text "\r\n" ++ rest)
              (e ∙ ap (λ x. pre ++ x) (append_assoc (version_text digit) (text "\r\n") rest)) refl
              (omega arith));
    nread = refl;
    json_sent = refl;
  }
