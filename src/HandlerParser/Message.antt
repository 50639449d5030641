-- ===== src/HandlerParser/Message.antt =====
-- The messages of handlers, as src/examples/python/mongrel2/handler.py writes them, read by
-- src/handler_parser.c.
pub mod Ids
pub mod RoundTrip
use mongrel.Prelude.{
  ℕ, zero, suc, ◌+◌, ◌-◌, ◌^◌, ◌<◌, ◌≤◌, ◌≡◌, ◌≢◌, refl, sym, ap, ◌∙◌, ℤ, pos, minus_one, Bool,
  true, false, ◌&&◌, Option, none, some, List, [], ◌∷◌, ◌++◌, append-nil, append_assoc, length,
  length-append, take, take-append, read, decimal, read-decimal, decimal-first, is_digit,
  all_digits, ltb, leb, ◌==◌, if◌then◌else◌, arith,
}
use mongrel.HandlerParser.{
  HandlerParser, space, comma, dash, colon, is_ident_char, Case, case1, case2, case3, case4, case5,
  case6, case7, case8, Scan, strtoul, as_int, Stop, stopped, run, finish, execute,
}

-- `' '.join(idents)`: the first id, and the others
unfoldable pub later_ids : List ℕ → List ℕ
later_ids [] = []
later_ids (id ∷ ids) = space ∷ (decimal id ++ later_ids ids)

unfoldable pub join_ids : List ℕ → List ℕ
join_ids [] = []
join_ids (id ∷ ids) = decimal id ++ later_ids ids

-- "%s %d:%s, %s" of the uuid, the ids with their length, and the body
unfoldable pub message : List ℕ → List ℕ → List ℕ → List ℕ
message uuid ids body =
    uuid
    ++ (space
        ∷ (decimal (length (join_ids ids)) ++ (colon ∷ (join_ids ids ++ (comma ∷ space ∷ body)))))

unfoldable pub all_ident_chars : List ℕ → Bool
all_ident_chars [] = true
all_ident_chars (c ∷ s) = is_ident_char c && all_ident_chars s

-- an `unsigned long`
abbrev pub fits : ℕ → Bool
fits n = ltb n (2 ^ 64)

unfoldable pub all_fit : List ℕ → Bool
all_fit [] = true
all_fit (n ∷ l) = fits n && all_fit l
