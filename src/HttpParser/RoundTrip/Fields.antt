-- ===== src/HttpParser/RoundTrip/Fields.antt =====
-- The targets with a query and the fields of a request, as src/http11/http11_parser.c reads them.
use mongrel.Prelude.{
  ℕ, ◌+◌, ◌-◌, ◌≡◌, refl, sym, ap, ◌∙◌, true, List, [], ◌∷◌, ◌++◌, length, length-append,
  append_assoc, text, arith,
}
use mongrel.Ragel.{run}
use mongrel.Ragel.Steps.{at, all_chars}
use mongrel.HttpParser.{Call, from, HttpParser, Action, act}
use mongrel.HttpParser.Cases.{table}
use mongrel.HttpParser.Reads.{is_query_char, is_path_char}
use mongrel.HttpParser.RoundTrip.Parts.{is_name, is_value, query-run, field-run}
use mongrel.HttpParser.RoundTrip.Hears.{
  uri_cb, path_cb, query_cb, header_field, text_of, hears, all_hears, all_hears-snoc, hears-two,
  Reads, text-middle,
}

-- a later part of a buffer, behind two others
behind-two :
    {w : List ℕ} (pre x y z : List ℕ) → w ≡ pre ++ (x ++ (y ++ z)) → w ≡ (pre ++ (x ++ y)) ++ z
behind-two pre x y z e =
    e ∙ ap (λ l. pre ++ l) (sym (append_assoc x y z)) ∙ sym (append_assoc pre (x ++ y) z)

hears-three :
    (w : List ℕ) (l : List Call) (c d e : Call)
    → all_hears w (((l ++ c ∷ []) ++ d ∷ []) ++ e ∷ [])
      ≡ all_hears w l ++ ((hears w c ++ hears w d) ++ hears w e)
hears-three w l c d e =
    all_hears-snoc w ((l ++ c ∷ []) ++ d ∷ []) e
    ∙ ap (λ x. x ++ hears w e) (hears-two w l c d)
    ∙ append_assoc (all_hears w l) (hears w c ++ hears w d) (hears w e)

module _ (w pre rest : List ℕ) (s : HttpParser) (path : List ℕ) (c : ℕ) (query : List ℕ)
    (ok : all_chars is_path_char path ≡ true)
    (oks : all_chars is_query_char (c ∷ query) ≡ true) where
  abbrev slash_path : List ℕ
  slash_path = (47 + 128) ∷ path

  abbrev target : List ℕ
  target = slash_path ++ ((63 + 128) ∷ c ∷ query)

  whole :
      w ≡ pre ++ ((target ++ (32 + 128) ∷ []) ++ rest) → w ≡ pre ++ (target ++ ((32 + 128) ∷ rest))
  whole e = e ∙ ap (λ x. pre ++ x) (append_assoc target ((32 + 128) ∷ []) rest)

  split_path :
      w ≡ pre ++ (target ++ ((32 + 128) ∷ rest))
      → w ≡ pre ++ (slash_path ++ ((63 + 128) ∷ [] ++ ((c ∷ query) ++ ((32 + 128) ∷ rest))))
  split_path e =
      e ∙ ap (λ x. pre ++ x) (append_assoc slash_path ((63 + 128) ∷ c ∷ query) ((32 + 128) ∷ rest))

  -- a target with a query, with the space behind it
  pub query-Reads :
      w ≡ pre ++ ((target ++ (32 + 128) ∷ []) ++ rest)
      → Reads w pre
          (target ++ (32 + 128) ∷ [])
          rest
          3
          5
          s
          (path_cb slash_path ∷ query_cb (c ∷ query) ∷ uri_cb target ∷ [])
  unfolding act hears
  query-Reads e = record {
    parser = last;
    runs =
        ap (λ x. run (act (length w)) table x (at (length pre) 3 s))
          (append_assoc target ((32 + 128) ∷ []) rest
            ∙ append_assoc slash_path ((63 + 128) ∷ c ∷ query) ((32 + 128) ∷ rest))
        ∙ query-run (length w) path query rest c (length pre) s ok oks
        ∙ ap (λ k. run (act (length w)) table rest (at k 5 last))
            (omega (
              arith,
              length-append pre (target ++ (32 + 128) ∷ []),
              length-append target ((32 + 128) ∷ []),
              length-append slash_path ((63 + 128) ∷ c ∷ query),
            ));
    hears_new =
        hears-three w s.calls (Call.request_path (from (length pre) p1))
          (Call.query_string (from (p1 + 1) p2)) (Call.request_uri (from (length pre) p2))
        ∙ ap
            (λ x.
              all_hears w s.calls
              ++ (path_cb x
                  ∷ query_cb (text_of w (from (p1 + 1) p2))
                  ∷ uri_cb (text_of w (from (length pre) p2))
                  ∷ []))
            (text-middle pre slash_path _ (split_path (whole e)) refl (omega arith))
        ∙ ap
            (λ x.
              all_hears w s.calls
              ++ (path_cb slash_path ∷ query_cb x ∷ uri_cb (text_of w (from (length pre) p2)) ∷ []))
            (text-middle (pre ++ (slash_path ++ ((63 + 128) ∷ []))) (c ∷ query) ((32 + 128) ∷ rest)
              (behind-two pre slash_path ((63 + 128) ∷ []) _ (split_path (whole e)))
              (omega (
                arith,
                length-append pre (slash_path ++ ((63 + 128) ∷ [])),
                length-append slash_path ((63 + 128) ∷ []),
              ))
              (omega arith))
        ∙ ap
            (λ x.
              all_hears w s.calls ++ (path_cb slash_path ∷ query_cb (c ∷ query) ∷ uri_cb x ∷ []))
            (text-middle pre target ((32 + 128) ∷ rest) (whole e) refl
              (omega (arith, length-append slash_path ((63 + 128) ∷ c ∷ query))));
    nread = refl;
    json_sent = refl;
  }
    where
      p1 : ℕ
      p1 = length pre + 1 + length path

      p2 : ℕ
      p2 = p1 + 1 + length (c ∷ query)

      last : HttpParser
      last = act (length w) Action.request_uri p2 (
          act (length w) Action.query_string p2
            (record (act (length w) Action.request_path p1 (record s { mark = length pre })) {
              query_start = p1 + 1;
            }))

-- a field with its line end
unfoldable pub field_text : List ℕ × List ℕ → List ℕ
field_text (name, value) = name ++ (text ": " ++ (value ++ text "\r\n"))

module _ (w pre rest : List ℕ) (s : HttpParser) (name value : List ℕ) (ok : is_name name ≡ true)
    (oks : is_value value ≡ true) where
  opened :
      field_text (name, value) ++ rest ≡ name ++ (text ": " ++ (value ++ (text "\r\n" ++ rest)))
  unfolding field_text
  opened =
      append_assoc name (text ": " ++ (value ++ text "\r\n")) rest
      ∙ ap (λ x. name ++ (text ": " ++ x)) (append_assoc value (text "\r\n") rest)

  pub field-Reads :
      w ≡ pre ++ (field_text (name, value) ++ rest)
      → Reads w pre (field_text (name, value)) rest 14 14 s (header_field name value ∷ [])
  unfolding act hears field_text
  field-Reads e = record {
    parser = act (length w) Action.write_value p2 (record s {
      field_start = length pre;
      field_len = length pre + length name - length pre;
      mark = p1;
    });
    runs =
        ap (λ x. run (act (length w)) table x (at (length pre) 14 s)) opened
        ∙ field-run (length w) name value rest (length pre) s ok oks
        ∙ ap
            (λ k. run (act (length w)) table rest (
              at k 14 (
                act (length w) Action.write_value p2 (record s {
                  field_start = length pre;
                  field_len = length pre + length name - length pre;
                  mark = p1;
                }))))
            (omega (
              arith,
              length-append pre (field_text (name, value)),
              length-append name (text ": " ++ (value ++ text "\r\n")),
              length-append value (text "\r\n"),
            ));
    hears_new =
        all_hears-snoc w s.calls
          (Call.http_field (length pre, length pre + length name - length pre) (from p1 p2))
        ∙ ap (λ x. all_hears w s.calls ++ header_field x (text_of w (from p1 p2)) ∷ [])
            (text-middle pre name _ (e ∙ ap (λ x. pre ++ x) opened) refl (omega arith))
        ∙ ap (λ x. all_hears w s.calls ++ header_field name x ∷ [])
            (text-middle (pre ++ (name ++ text ": ")) value _
              (behind-two pre name (text ": ") _ (e ∙ ap (λ x. pre ++ x) opened))
              (omega (arith, length-append pre (name ++ text ": "), length-append name (text ": ")))
              (omega arith));
    nread = refl;
    json_sent = refl;
  }
    where
      p1 : ℕ
      p1 = length pre + length name + 2

      p2 : ℕ
      p2 = p1 + length value
