-- ===== src/HttpParser/RoundTrip/Print.antt =====
-- A request as a client writes it, and what the callbacks of src/request.c should hear of it.
use mongrel.Prelude.{
  ℕ, ◌+◌, Bool, true, false, ◌&&◌, Option, none, some, List, [], ◌∷◌, ◌++◌, length, ltb, text,
}
use mongrel.Ragel.Steps.{all_chars}
use mongrel.HttpParser.Reads.{is_query_char, is_path_char, is_method_char}
use mongrel.HttpParser.RoundTrip.Parts.{is_name, is_value}
use mongrel.HttpParser.RoundTrip.Hears.{
  Heard, request_method, http_version, uri_cb, path_cb, query_cb, header_field, version_text,
}
use mongrel.HttpParser.RoundTrip.Fields.{field_text}

-- a request: its path without the first `/`, the version 1.1 or, without the flag, 1.0, and its fields
pub record Written : Type 0 where
  pub method : List ℕ
  pub path : List ℕ
  pub query : Option (List ℕ)
  pub is_1_1 : Bool
  pub fields : List (List ℕ × List ℕ)

unfoldable pub is_method : List ℕ → Bool
is_method [] = false
is_method (c ∷ l) = all_chars is_method_char (c ∷ l) && ltb (length l) 20

unfoldable pub is_query : Option (List ℕ) → Bool
is_query none = true
is_query (some []) = false
is_query (some (c ∷ l)) = all_chars is_query_char (c ∷ l)

unfoldable pub are_fields : List (List ℕ × List ℕ) → Bool
are_fields [] = true
are_fields ((name, value) ∷ l) = is_name name && is_value value && are_fields l

unfoldable pub is_written : Written → Bool
unfolding is_method is_query are_fields
is_written r =
    is_method r.method && all_chars is_path_char r.path && is_query r.query && are_fields r.fields

abbrev pub slash_path : Written → List ℕ
slash_path r = (47 + 128) ∷ r.path

abbrev pub target : List ℕ → Option (List ℕ) → List ℕ
target path none = (47 + 128) ∷ path
target path (some query) = (47 + 128) ∷ path ++ ((63 + 128) ∷ query)

unfoldable pub fields_text : List (List ℕ × List ℕ) → List ℕ
unfolding field_text
fields_text [] = []
fields_text (f ∷ l) = field_text f ++ fields_text l

-- the request but for the empty line at its end
unfoldable pub print_head : Written → List ℕ
unfolding fields_text
print_head r =
    (r.method ++ (32 + 128) ∷ [])
    ++ ((target r.path r.query ++ (32 + 128) ∷ [])
        ++ ((version_text r.is_1_1 ++ text "\r\n") ++ fields_text r.fields))

unfoldable pub print : Written → List ℕ
unfolding print_head
print r = print_head r ++ text "\r\n"

abbrev pub target_heard : List ℕ → Option (List ℕ) → List Heard
target_heard path none = path_cb ((47 + 128) ∷ path) ∷ uri_cb (target path none) ∷ []
target_heard path (some query) =
    path_cb ((47 + 128) ∷ path) ∷ query_cb query ∷ uri_cb (target path (some query)) ∷ []

abbrev pub fields_heard : List (List ℕ × List ℕ) → List Heard
fields_heard [] = []
fields_heard ((name, value) ∷ l) = header_field name value ∷ fields_heard l

-- what the callbacks should hear, in order, before `header_done`
unfoldable pub heard : Written → List Heard
heard r =
    request_method r.method
    ∷ (target_heard r.path r.query ++ http_version (version_text r.is_1_1) ∷ fields_heard r.fields)
