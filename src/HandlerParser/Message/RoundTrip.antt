-- ===== src/HandlerParser/Message/RoundTrip.antt =====
-- `HandlerParser_execute` of src/handler_parser.c on a message that a handler wrote.
use mongrel.Prelude.{
  ℕ, ◌-◌, ◌^◌, ◌<◌, ◌≤◌, ◌≡◌, refl, sym, ap, ◌∙◌, pos, true, none, some, List, [], ◌∷◌, ◌++◌,
  append_assoc, length, length-append, take, take-append, read, decimal, read-decimal,
  decimal-first, leb, arith,
}
use mongrel.HandlerParser.{
  HandlerParser, space, comma, colon, case1, case2, case3, case4, Scan, stopped, run, finish,
  execute,
}
use mongrel.HandlerParser.Message.{join_ids, message, all_ident_chars, all_fit}
use mongrel.HandlerParser.Message.Ids.{run-uuid, run-length, run-targets, read-stop}

-- the parts of a message, from its second char on
abbrev after_uuid : List ℕ → List ℕ → List ℕ
after_uuid ids rest =
    space ∷ (decimal (length (join_ids ids)) ++ (colon ∷ (join_ids ids ++ (comma ∷ space ∷ rest))))

run-after_uuid :
    (ids rest : List ℕ) (r : Scan)
    → all_fit ids ≡ true
    → length ids ≤ r.parser.target_max
    → length (join_ids ids) < 2 ^ 31
    → r.parser.targets ≡ []
    → run case3 r
        (decimal (length (join_ids ids)) ++ (colon ∷ (join_ids ids ++ (comma ∷ space ∷ rest))))
      ≡ stopped 9 (record r.parser { targets = ids }) rest
unfolding run
run-after_uuid ids rest r f t small fresh =
    let n = length (join_ids ids) in
    let s = join_ids ids ++ (comma ∷ space ∷ rest) in
    let (d, ds, text, first, others) = decimal-first n in
    let whole = d ∷ (ds ++ (colon ∷ s)) in
    let r' : Scan = record r { marked = whole } in
    let value : read 0 whole ≡ (n, colon ∷ s) =
      ap (λ l. read 0 (l ++ (colon ∷ s))) (sym text)
      ∙ read-decimal n (colon ∷ s)
      ∙ read-stop n colon s refl in
    let begin : run case3 r whole ≡ run case4 r' (ds ++ (colon ∷ s)) = ground (arith, first) in
    ap (λ l. run case3 r (l ++ (colon ∷ s))) text
    ∙ begin
    ∙ run-length n ds s r' others value small
    ∙ run-targets ids rest (record r' { expected = pos n }) f t fresh refl

run-message :
    (c : ℕ) (u ids rest : List ℕ) (r : Scan)
    → all_ident_chars (c ∷ u) ≡ true
    → all_fit ids ≡ true
    → length ids ≤ r.parser.target_max
    → length (join_ids ids) < 2 ^ 31
    → r.parser.targets ≡ []
    → run case1 r ((c ∷ u) ++ after_uuid ids rest)
      ≡ stopped 9 (record r.parser { targets = ids; uuid = some (c ∷ u) }) rest
unfolding run all_ident_chars
run-message c u ids rest r good f t small fresh =
    let tail = after_uuid ids rest in
    let whole = (c ∷ u) ++ tail in
    let r1 : Scan = record r { marked = whole } in
    let taken = take (length whole - length tail) whole in
    let size : length whole - length tail ≡ length (c ∷ u) = omega (arith, length-append u tail) in
    let name : taken ≡ c ∷ u = ap (λ n. take n whole) size ∙ take-append (c ∷ u) tail in
    let r2 = λ (l : List ℕ). record r1 { parser = record r.parser { uuid = some l } } in
    let begin : run case1 r whole ≡ run case2 r1 (u ++ tail) = ground arith in
    begin
    ∙ run-uuid u _ r1 (ground arith)
    ∙ run-after_uuid ids rest (r2 taken) f t small fresh
    ∙ ap (λ l. stopped 9 (record r.parser { targets = ids; uuid = some l }) rest) name

message-whole :
    (uuid ids body behind : List ℕ)
    → message uuid ids body ++ behind ≡ uuid ++ after_uuid ids (body ++ behind)
unfolding message
message-whole uuid ids body behind =
    let n = decimal (length (join_ids ids)) in
    let rest = join_ids ids ++ (comma ∷ space ∷ body) in
    append_assoc uuid (space ∷ (n ++ (colon ∷ rest))) behind
    ∙ ap (λ l. uuid ++ (space ∷ l)) (append_assoc n (colon ∷ rest) behind)
    ∙ ap (λ l. uuid ++ (space ∷ (n ++ (colon ∷ l))))
        (append_assoc (join_ids ids) (comma ∷ space ∷ body) behind)

finish-inside :
    (p : HandlerParser) (body behind : List ℕ)
    → finish behind (stopped 9 p (body ++ behind)) ≡ some (pos 1, record p { body = body })
unfolding finish
finish-inside p body behind =
    let size : length (body ++ behind) - length behind ≡ length body =
      omega (arith, length-append body behind) in
    let inside : leb (length behind) (length (body ++ behind)) ≡ true =
      ground (arith, length-append body behind) in
    let rest : take (length (body ++ behind) - length behind) (body ++ behind) ≡ body =
      ap (λ n. take n (body ++ behind)) size ∙ take-append body behind in
    ground (arith, inside, rest)

-- A message that a handler writes, of a uuid of letters, digits and dashes that is not empty, ids
-- below 2 ^ 64, no more of them than `target_max` and their text shorter than 2 ^ 31 chars, is parsed
-- to the same uuid, ids and body, and the call returns 1, whatever lies behind the message.
pub execute-message :
    (parser : HandlerParser) (c : ℕ) (u ids body behind : List ℕ)
    → all_ident_chars (c ∷ u) ≡ true
    → all_fit ids ≡ true
    → length ids ≤ parser.target_max
    → length (join_ids ids) < 2 ^ 31
    → execute parser (message (c ∷ u) ids body) behind
      ≡ some (pos 1, record parser { targets = ids; uuid = some (c ∷ u); body = body })
unfolding execute finish
execute-message parser c u ids body behind good f t small =
    let fresh = record parser { targets = []; uuid = none } in
    let start = λ (whole : List ℕ).
      finish behind (
        run case1 (record { parser = fresh; marked = whole; begun = []; expected = pos 0 })
          whole) in
    let whole = (c ∷ u) ++ after_uuid ids (body ++ behind) in
    ap start (message-whole (c ∷ u) ids body behind)
    ∙ ap (finish behind) (
        run-message c u ids (body ++ behind)
          (record { parser = fresh; marked = whole; begun = []; expected = pos 0 }) good f t small
          refl)
    ∙ finish-inside (record fresh { targets = ids; uuid = some (c ∷ u) }) body behind
