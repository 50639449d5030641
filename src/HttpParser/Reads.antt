-- ===== src/HttpParser/Reads.antt =====
-- What the table of src/http11/http11_parser.c reads at the places of a request: its method, its
-- target, the names and the values of its fields.
pub mod Method
use mongrel.Prelude.{
  ℕ, ◌+◌, ◌≡◌, refl, Bool, true, false, ◌&&◌, ◌||◌, not, Option, none, some, List, [], ◌∷◌, leb,
  ltb, ◌==◌, if◌then◌else◌, arith,
}
use mongrel.Ragel.{Goto, st0, tr, choose, lookup, label}
use mongrel.HttpParser.{
  Action, mark, start_field, write_field, start_value, write_value, request_method, request_path,
  start_query,
}
use mongrel.HttpParser.Cases.{table}

-- `upper | digit | safe`
unfoldable pub is_method_char : ℕ → Bool
is_method_char c =
    (leb (65 + 128) c && leb c (90 + 128))
    || (leb (48 + 128) c && leb c (57 + 128))
    || c == 36 + 128
    || c == 45 + 128
    || c == 46 + 128
    || c == 95 + 128

-- a char of a query: none of the first 32, no space, and none of `"`, `#`, `%`, `<`, `>`, and no DEL
unfoldable pub is_query_char : ℕ → Bool
is_query_char c =
    not (leb 128 c && leb c (32 + 128))
    && not (c == 34 + 128)
    && not (c == 35 + 128)
    && not (c == 37 + 128)
    && not (c == 60 + 128)
    && not (c == 62 + 128)
    && not (c == 127 + 128)

-- a char of a path: one of a query that is no `;` and no `?`
unfoldable pub is_path_char : ℕ → Bool
unfolding is_query_char
is_path_char c = is_query_char c && not (c == 59 + 128) && not (c == 63 + 128)

-- a char of a name: printable ASCII, but for the separators of HTTP
unfoldable pub is_token_char : ℕ → Bool
is_token_char c =
    (leb (48 + 128) c && leb c (57 + 128))
    || (leb (65 + 128) c && leb c (90 + 128))
    || (leb (94 + 128) c && leb c (122 + 128))
    || c == 33 + 128
    || (leb (35 + 128) c && leb c (39 + 128))
    || c == 42 + 128
    || c == 43 + 128
    || c == 45 + 128
    || c == 46 + 128
    || c == 124 + 128
    || c == 126 + 128

-- a char of a value
unfoldable pub is_value_char : ℕ → Bool
is_value_char c = not (c == 10 + 128) && not (c == 13 + 128)

module _ (c : ℕ) where
  pub path_stays : is_path_char c ≡ true → label table 24 c ≡ some (tr [] 24)
  unfolding is_path_char is_query_char label lookup table choose
  path_stays h = ground (arith, h)

  pub name_stays : is_token_char c ≡ true → label table 16 c ≡ some (tr [] 16)
  unfolding is_token_char label lookup table choose
  name_stays h = ground (arith, h)

  pub name_begins : is_token_char c ≡ true → label table 14 c ≡ some (tr (start_field ∷ []) 16)
  unfolding is_token_char label lookup table choose
  name_begins h = ground (arith, h)

  pub query_begins : is_query_char c ≡ true → label table 30 c ≡ some (tr (start_query ∷ []) 31)
  unfolding is_query_char label lookup table choose
  query_begins h = ground (arith, h)

  pub query_stays : is_query_char c ≡ true → label table 31 c ≡ some (tr [] 31)
  unfolding is_query_char label lookup table choose
  query_stays h = ground (arith, h)

  pub value_begins :
      is_value_char c ≡ true
      → (c == 32 + 128) ≡ false
      → label table 17 c ≡ some (tr (start_value ∷ []) 18)
  unfolding is_value_char label lookup table choose
  value_begins h s = ground (arith, h, s)

  pub value_stays : is_value_char c ≡ true → label table 18 c ≡ some (tr [] 18)
  unfolding is_value_char label lookup table choose
  value_stays h = ground (arith, h)

  pub method_begins : is_method_char c ≡ true → label table 1 c ≡ some (tr (mark ∷ []) 2)
  unfolding is_method_char label lookup table choose
  method_begins h = ground (arith, h)
