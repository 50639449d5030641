-- ===== src/Request/Payload.antt =====
-- `Request_to_payload` of src/request.c, and the handler's reader of the message, `Request.parse` of
-- src/examples/python/mongrel2/request.py. `%d` is printed of numbers from 0 on, as all of these are.
pub mod Netstring
use mongrel.Prelude.{
  ℕ, zero, suc, ◌+◌, ◌-◌, Bool, true, false, ◌&&◌, Option, none, some, List, [], ◌∷◌, ◌++◌, length,
  take, decimal, text, read, all_digits, digit_zero, ◌==◌, if◌then◌else◌,
}
use mongrel.Strings.{Bstring}
use mongrel.Register.{Register, id_for_fd}
use mongrel.Request.{Headers, Request}

-- `bfindreplace` of src/bstr, from position 0, by its arguments text, find and replace
pub record Replace : Type 0 where
  pub bfindreplace : Bstring → Bstring → Bstring → Bstring

-- the part of a text that `%s` prints: up to a '\0'
abbrev pub c_string : Bstring → Bstring
c_string [] = []
c_string (c ∷ s) = let rest = c_string s in if c == 128 then [] else c ∷ rest

-- `%s` of a text that may be NULL, as the C library prints it
abbrev pub shown : Option Bstring → Bstring
shown none = text "(null)"
shown (some s) = c_string s

-- the macro `B`
pub b_macro : Bstring → Option Bstring → Bstring
b_macro key none = []
b_macro key (some value) =
    text ",\"" ++ (c_string key ++ (text "\":\"" ++ (c_string value ++ text "\"")))

module _ {H : Type 0} (dict : Headers H) (lib : Replace) where
  -- the two calls of `bfindreplace`
  abbrev pub escaped : Bstring → Bstring
  escaped value =
      lib.bfindreplace (lib.bfindreplace value (text "\\") (text "\\\\")) (text "\"") (text "\\\"")

  pub entries_text : List (Bstring × Bstring) → Bstring
  unfolding b_macro
  entries_text [] = []
  entries_text (e ∷ es) = b_macro e.0 (some (escaped e.1)) ++ entries_text es

  abbrev method_text : Request H → Bstring
  method_text req =
      if req.json_sent
      then b_macro (text "METHOD") (some (text "JSON"))
      else b_macro (text "METHOD") req.method

  -- the variable `headers` at its end
  pub headers_text : Request H → Bstring
  unfolding entries_text b_macro
  headers_text req =
      text "{\"PATH\":\""
      ++ (shown req.path
          ++ (text "\""
              ++ (method_text req
                  ++ (b_macro (text "VERSION") req.version
                      ++ (b_macro (text "URI") req.uri
                          ++ (b_macro (text "QUERY") req.query_string
                              ++ (b_macro (text "FRAGMENT") req.fragment
                                  ++ (b_macro (text "PATTERN") req.pattern
                                      ++ (entries_text (dict.entries req.headers)
                                          ++ text "}")))))))))

  -- `Request_to_payload`; the id of a `uint16_t` is never -1
  unfoldable pub to_payload : Register → Request H → Bstring → ℕ → Bstring → Option Bstring
  unfolding headers_text
  to_payload register req uuid fd buf = elim (id_for_fd fd register) [
    | none ↦ none
    | some id ↦
        let headers = headers_text req in
        some (
          c_string uuid
          ++ (text " "
              ++ (decimal id
                  ++ (text " "
                      ++ (shown req.path
                          ++ (text " "
                              ++ (decimal (length headers)
                                  ++ (text ":"
                                      ++ (c_string headers
                                          ++ (text ","
                                              ++ (decimal (length buf)
                                                  ++ (text ":" ++ (buf ++ text ",")))))))))))))
  ]

-- `s.split(c, 1)`, with a part on both sides
unfoldable pub split_once : ℕ → List ℕ → Option (List ℕ × List ℕ)
split_once c [] = none
split_once c (d ∷ s) =
    let rest = split_once c s in
    if d == c then some ([], s) else elim rest [ none ↦ none | some p ↦ some (d ∷ p.0, p.1) ]

-- `int(s)` of digits; anything else is refused here
abbrev pub int_of : List ℕ → Option ℕ
int_of [] = none
int_of (c ∷ s) = if all_digits (c ∷ s) then some (read 0 (c ∷ s)).0 else none

abbrev pub from : ℕ → List ℕ → List ℕ
from zero s = s
from (suc n) [] = []
from (suc n) (c ∷ s) = from n s

-- an exception ends the reader: `none`
infixl 5 ◌>>=◌
abbrev pub ◌>>=◌ : {A B : Type 0} → Option A → (A → Option B) → Option B
none >>= f = none
some a >>= f = f a

-- `parse_netstring`, with its `assert`
unfoldable pub parse_netstring : List ℕ → Option (List ℕ × List ℕ)
unfolding split_once
parse_netstring ns = do
  (len_text, rest) ← split_once (58 + 128) ns
  len ← int_of len_text
  elim (from len rest) [
    | [] ↦ none
    | c ∷ more ↦ if c == 44 + 128 then some (take len rest, more) else none
  ]

-- what `Request.parse` finds, before it reads the headers as JSON
pub record Parsed : Type 0 where
  pub sender : List ℕ
  pub conn_id : List ℕ
  pub path : List ℕ
  pub headers : List ℕ
  pub body : List ℕ

-- `Request.parse`
unfoldable pub parse : List ℕ → Option Parsed
unfolding split_once parse_netstring
parse msg = do
  (sender, after_sender) ← split_once (32 + 128) msg
  (conn_id, after_id) ← split_once (32 + 128) after_sender
  (path, rest) ← split_once (32 + 128) after_id
  (headers, after_headers) ← parse_netstring rest
  (body, _) ← parse_netstring after_headers
  some (record { sender = sender; conn_id = conn_id; path = path; headers = headers; body = body })
