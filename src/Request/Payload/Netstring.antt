-- ===== src/Request/Payload/Netstring.antt =====
-- A handler reads from the message of `Request_to_payload` of src/request.c what was put into it.
use mongrel.Prelude.{
  ℕ, ◌+◌, ◌≡◌, refl, sym, ap, ◌∙◌, Bool, true, false, not, ◌&&◌, Option, none, some, List, [], ◌∷◌,
  ◌++◌, append-nil, length, take-append, decimal, decimal-first, decimal-digits, read-decimal, text,
  read, all_digits, is_digit, ◌==◌, if◌then◌else◌, arith,
}
use mongrel.Strings.{Bstring}
use mongrel.Register.{Register, id_for_fd}
use mongrel.Request.{Headers, Request}
use mongrel.Request.Payload.{
  Replace, c_string, shown, b_macro, escaped, entries_text, headers_text, to_payload, split_once,
  int_of, from, parse_netstring, parse, ◌>>=◌,
}

abbrev pub lacks : ℕ → List ℕ → Bool
lacks c [] = true
lacks c (d ∷ s) = not (d == c) && lacks c s

split_once-lacks :
    (c : ℕ) (s t : List ℕ) → lacks c s ≡ true → split_once c (s ++ (c ∷ t)) ≡ some (s, t)
unfolding split_once
split_once-lacks c [] t h = ground arith
split_once-lacks c (d ∷ s) t h = ground (arith, split_once-lacks c s t)

lacks-digits : (c : ℕ) (s : List ℕ) → is_digit c ≡ false → all_digits s ≡ true → lacks c s ≡ true
lacks-digits c [] n h = refl
lacks-digits c (d ∷ s) n h = ground (arith, lacks-digits c s n)

from-append : (s t : List ℕ) → from (length s) (s ++ t) ≡ t
from-append [] t = refl
from-append (c ∷ s) t = from-append s t

int_of-decimal : (n : ℕ) → int_of (decimal n) ≡ some n
int_of-decimal n =
    let (d, ds, e, first, others) = decimal-first n in
    let value : (read 0 (decimal n)).0 ≡ n =
      ap (λ s. (read 0 s).0) (sym (append-nil (decimal n))) ∙ ap (λ p. p.0) (read-decimal n []) in
    let digits = decimal-digits n in ground (arith, e, value, digits)

-- a text with its length in front, a colon between and a comma behind
pub parse_netstring-reads :
    (s t : List ℕ)
    → parse_netstring (decimal (length s) ++ ((58 + 128) ∷ (s ++ ((44 + 128) ∷ t)))) ≡ some (s, t)
unfolding parse_netstring
parse_netstring-reads s t =
    let rest = s ++ ((44 + 128) ∷ t) in
    let split =
      split_once-lacks (58 + 128) (decimal (length s)) rest
        (lacks-digits (58 + 128) (decimal (length s)) refl (decimal-digits (length s))) in
    ground (
      arith,
      split,
      int_of-decimal (length s),
      from-append s ((44 + 128) ∷ t),
      take-append s ((44 + 128) ∷ t),
    )

lacks-append :
    (c : ℕ) (s t : List ℕ) → lacks c s ≡ true → lacks c t ≡ true → lacks c (s ++ t) ≡ true
lacks-append c [] t h k = k
lacks-append c (d ∷ s) t h k = ground (arith, lacks-append c s t)

lacks-c_string : (s : List ℕ) → lacks 128 (c_string s) ≡ true
lacks-c_string [] = refl
lacks-c_string (c ∷ s) = ground (arith, lacks-c_string s)

c_string-whole : (s : List ℕ) → lacks 128 s ≡ true → c_string s ≡ s
c_string-whole [] h = refl
c_string-whole (c ∷ s) h = ground (arith, c_string-whole s)

-- texts that `%s` prints whole
record Whole (s : List ℕ) : Type 0 where
  prints : lacks 128 s ≡ true

append-Whole : {s t : List ℕ} → Whole s → Whole t → Whole (s ++ t)
append-Whole {s} {t} h k = record { prints = lacks-append 128 s t h.prints k.prints }

c_string-Whole : (s : List ℕ) → Whole (c_string s)
c_string-Whole s = record { prints = lacks-c_string s }

shown-Whole : (s : Option Bstring) → Whole (shown s)
shown-Whole none = record { prints = refl }
shown-Whole (some s) = c_string-Whole s

b_macro-Whole : (key : Bstring) (value : Option Bstring) → Whole (b_macro key value)
unfolding b_macro
b_macro-Whole key none = record { prints = refl }
b_macro-Whole key (some value) =
    append-Whole {s = text ",\""} (record { prints = refl })
      (append-Whole (c_string-Whole key) (
        append-Whole {s = text "\":\""} (record { prints = refl })
          (append-Whole (c_string-Whole value) (record { prints = refl }))))

module _ {H : Type 0} (dict : Headers H) (lib : Replace) where
  entries_text-Whole : (es : List (Bstring × Bstring)) → Whole (entries_text dict lib es)
  unfolding entries_text
  entries_text-Whole [] = record { prints = refl }
  entries_text-Whole (e ∷ es) =
      append-Whole (b_macro-Whole e.0 (some (escaped dict lib e.1))) (entries_text-Whole es)

  if_Whole : (b : Bool) {s t : List ℕ} → Whole s → Whole t → Whole (if b then s else t)
  if_Whole true h k = h
  if_Whole false h k = k

  headers_text-Whole : (req : Request H) → Whole (headers_text dict lib req)
  unfolding headers_text
  headers_text-Whole req =
      append-Whole {s = text "{\"PATH\":\""} (record { prints = refl })
        (append-Whole (shown-Whole req.path) (
          append-Whole {s = text "\""} (record { prints = refl })
            (append-Whole
              (if_Whole req.json_sent (b_macro-Whole (text "METHOD") (some (text "JSON")))
                (b_macro-Whole (text "METHOD") req.method))
              (append-Whole (b_macro-Whole (text "VERSION") req.version) (
                append-Whole (b_macro-Whole (text "URI") req.uri) (
                  append-Whole (b_macro-Whole (text "QUERY") req.query_string) (
                    append-Whole (b_macro-Whole (text "FRAGMENT") req.fragment) (
                      append-Whole (b_macro-Whole (text "PATTERN") req.pattern) (
                        append-Whole {t = text "}"} (entries_text-Whole (dict.entries req.headers))
                          (record { prints = refl }))))))))))

  -- A handler that reads the message made of a request, for a descriptor with an id, finds the uuid,
  -- the id in decimal, the path, the text of the headers and the body, each as it was put in, where
  -- neither the uuid nor the path, as they are printed, has a space.
  pub parse-to_payload :
      (register : Register) (req : Request H) (uuid : Bstring) (fd id : ℕ) (buf : Bstring)
      → id_for_fd fd register ≡ some id
      → lacks (32 + 128) (c_string uuid) ≡ true
      → lacks (32 + 128) (shown req.path) ≡ true
      → (to_payload dict lib register req uuid fd buf >>= parse)
        ≡ some (record {
          sender = c_string uuid;
          conn_id = decimal id;
          path = shown req.path;
          headers = headers_text dict lib req;
          body = buf;
        })
  unfolding to_payload parse
  parse-to_payload register req uuid fd id buf e su sp =
      let h = headers_text dict lib req in
      let whole = c_string-whole h (headers_text-Whole req).prints in
      let tail = decimal (length buf) ++ ((58 + 128) ∷ (buf ++ ((44 + 128) ∷ []))) in
      let nets = decimal (length h) ++ ((58 + 128) ∷ (h ++ ((44 + 128) ∷ tail))) in
      let first =
        split_once-lacks (32 + 128) (c_string uuid)
          (decimal id ++ ((32 + 128) ∷ (shown req.path ++ ((32 + 128) ∷ nets)))) su in
      let second =
        split_once-lacks (32 + 128) (decimal id) (shown req.path ++ ((32 + 128) ∷ nets))
          (lacks-digits (32 + 128) (decimal id) refl (decimal-digits id)) in
      let third = split_once-lacks (32 + 128) (shown req.path) nets sp in
      ground (
        arith,
        e,
        whole,
        first,
        second,
        third,
        parse_netstring-reads h tail,
        parse_netstring-reads buf [],
      )
