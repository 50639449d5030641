-- ===== src/HandlerParser/Message/Ids.antt =====
-- What the machine of src/handler_parser.c does on the uuid, the length and the ids of a message.
use mongrel.Prelude.{
  ℕ, ◌+◌, ◌-◌, ◌^◌, ◌<◌, ◌≤◌, ◌≡◌, refl, sym, ap, ◌∙◌, pos, true, false, some, List, [], ◌∷◌, ◌++◌,
  append_assoc, length, length-append, take, read, decimal, read-decimal, decimal-first, is_digit,
  all_digits, ◌==◌, arith,
}
use mongrel.HandlerParser.{
  space, comma, colon, case2, case3, case4, case5, case7, Scan, stopped, run,
}
use mongrel.HandlerParser.Message.{later_ids, join_ids, all_ident_chars, all_fit}

pub run-uuid :
    (u s : List ℕ) (r : Scan)
    → all_ident_chars u ≡ true
    → run case2 r (u ++ (space ∷ s))
      ≡ run case3
          (record r {
            parser = record r.parser {
              uuid = some (take (length r.marked - length (space ∷ s)) r.marked);
            };
          })
          s
unfolding run all_ident_chars
run-uuid [] s r h = refl
run-uuid (c ∷ u) s r h = ground (arith, run-uuid u s r)

-- a char that is a digit is no space, comma or colon
digit_only :
    (d : ℕ)
    → is_digit d ≡ true
    → ((d == space) ≡ false) × ((d == comma) ≡ false) × ((d == colon) ≡ false)
digit_only d h = ground arith

-- the digits of a number that is begun are read to its end
run-digits-case4 :
    (ds s : List ℕ) (r : Scan)
    → all_digits ds ≡ true
    → run case4 r (ds ++ (colon ∷ s)) ≡ run case4 r (colon ∷ s)
unfolding run
run-digits-case4 [] s r h = refl
run-digits-case4 (d ∷ ds) s r h = ground (arith, run-digits-case4 ds s r)

run-digits-case7 :
    (ds s : List ℕ) (r : Scan) → all_digits ds ≡ true → run case7 r (ds ++ s) ≡ run case7 r s
unfolding run
run-digits-case7 [] s r h = refl
run-digits-case7 (d ∷ ds) s r h =
    let (no_space, no_comma, no_colon) = digit_only d (ground arith) in
    ground (arith, run-digits-case7 ds s r)

pub run-length :
    (n : ℕ) (ds s : List ℕ) (r : Scan)
    → all_digits ds ≡ true
    → read 0 r.marked ≡ (n, colon ∷ s)
    → n < 2 ^ 31
    → run case4 r (ds ++ (colon ∷ s)) ≡ run case5 (record r { expected = pos n }) s
unfolding run
run-length n ds s r h m l = run-digits-case4 ds s r h ∙ ground (arith, m)

pub read-stop : (n : ℕ) (c : ℕ) (s : List ℕ) → is_digit c ≡ false → read n (c ∷ s) ≡ (n, c ∷ s)
read-stop n c s h = ground arith

run-last-id :
    (i k : ℕ) (body : List ℕ) (r : Scan)
    → (read 0 r.marked).0 ≡ i
    → i < 2 ^ 64
    → length r.parser.targets < r.parser.target_max
    → length r.begun - length (comma ∷ space ∷ body) ≡ k
    → r.expected ≡ pos k
    → run case7 r (comma ∷ space ∷ body)
      ≡ stopped 9 (record r.parser { targets = r.parser.targets ++ (i ∷ []) }) body
unfolding run
run-last-id i k body r m l t b e = ground arith

run-next-id :
    (i d : ℕ) (s : List ℕ) (r : Scan)
    → (read 0 r.marked).0 ≡ i
    → i < 2 ^ 64
    → length r.parser.targets < r.parser.target_max
    → is_digit d ≡ true
    → run case7 r (space ∷ d ∷ s)
      ≡ run case7
          (record r {
            parser = record r.parser { targets = r.parser.targets ++ (i ∷ []) };
            marked = d ∷ s;
          })
          s
unfolding run
run-next-id i d s r m l t h = let (no_space, no_comma, no_colon) = digit_only d h in ground arith

-- the chars after an id are the end of the text or a space
later_ids-stop :
    (n : ℕ) (ids body : List ℕ) → (read n (later_ids ids ++ (comma ∷ space ∷ body))).0 ≡ n
unfolding later_ids
later_ids-stop n [] body = ground arith
later_ids-stop n (id ∷ ids) body = ground arith

run-ids :
    (ids : List ℕ) (i k : ℕ) (ds body : List ℕ) (r : Scan)
    → all_digits ds ≡ true
    → (read 0 r.marked).0 ≡ i
    → i < 2 ^ 64
    → all_fit ids ≡ true
    → length r.parser.targets + length ids < r.parser.target_max
    → length r.begun - length (comma ∷ space ∷ body) ≡ k
    → r.expected ≡ pos k
    → run case7 r (ds ++ (later_ids ids ++ (comma ∷ space ∷ body)))
      ≡ stopped 9 (record r.parser { targets = r.parser.targets ++ (i ∷ ids) }) body
unfolding later_ids all_fit
run-ids [] i k ds body r h m l f t b e =
    run-digits-case7 ds _ r h ∙ run-last-id i k body r m l (omega arith) b e
run-ids (j ∷ ids) i k ds body r h m l f t b e =
    let (d, es, text, first, others) = decimal-first j in
    let rest = later_ids ids ++ (comma ∷ space ∷ body) in
    let r' : Scan = record r {
      parser = record r.parser { targets = r.parser.targets ++ (i ∷ []) };
      marked = d ∷ (es ++ rest);
    } in
    let split : (space ∷ (decimal j ++ later_ids ids)) ++ (comma ∷ space ∷ body)
        ≡ space ∷ d ∷ (es ++ rest) =
      ap (λ l. space ∷ l) (append_assoc (decimal j) (later_ids ids) _ ∙ ap (λ l. l ++ rest) text) in
    let value : (read 0 (d ∷ (es ++ rest))).0 ≡ j =
      ap (λ l. (read 0 (l ++ rest)).0) (sym text)
      ∙ ap (λ p. p.0) (read-decimal j rest)
      ∙ later_ids-stop j ids body in
    run-digits-case7 ds _ r h
    ∙ ap (run case7 r) split
    ∙ run-next-id i d (es ++ rest) r m l (omega arith) first
    ∙ run-ids ids j k es body r' others value (ground arith) (ground arith)
        (omega (arith, length-append r.parser.targets (i ∷ []))) b e
    ∙ ap (λ ts. stopped 9 (record r.parser { targets = ts }) body)
        (append_assoc r.parser.targets (i ∷ []) (j ∷ ids))

-- the ids with their length, from the first digit of the length on
pub run-targets :
    (ids body : List ℕ) (r : Scan)
    → all_fit ids ≡ true
    → length ids ≤ r.parser.target_max
    → r.parser.targets ≡ []
    → r.expected ≡ pos (length (join_ids ids))
    → run case5 r (join_ids ids ++ (comma ∷ space ∷ body))
      ≡ stopped 9 (record r.parser { targets = ids }) body
unfolding run join_ids all_fit
run-targets [] body r f t fresh e = ground (arith, e, fresh)
run-targets (i ∷ ids) body r f t fresh e =
    let (d, ds, text, first, others) = decimal-first i in
    let rest = later_ids ids ++ (comma ∷ space ∷ body) in
    let whole = d ∷ (ds ++ rest) in
    let r' : Scan = record r { begun = whole; marked = whole } in
    let split : (decimal i ++ later_ids ids) ++ (comma ∷ space ∷ body) ≡ whole =
      append_assoc (decimal i) (later_ids ids) _ ∙ ap (λ l. l ++ rest) text in
    let value : (read 0 whole).0 ≡ i =
      ap (λ l. (read 0 (l ++ rest)).0) (sym text)
      ∙ ap (λ p. p.0) (read-decimal i rest)
      ∙ later_ids-stop i ids body in
    let size : length whole - length (comma ∷ space ∷ body) ≡ length (join_ids (i ∷ ids)) =
      omega (
        arith,
        ap length split,
        length-append (decimal i ++ later_ids ids) (comma ∷ space ∷ body),
      ) in
    let begin : run case5 r whole ≡ run case7 r' (ds ++ rest) =
      ground (arith, digit_only d first) in
    ap (run case5 r) split
    ∙ begin
    ∙ run-ids ids i (length (join_ids (i ∷ ids))) ds body r' others value (ground arith)
        (ground arith) (ground (arith, fresh)) size e
    ∙ ap (λ ts. stopped 9 (record r.parser { targets = ts ++ (i ∷ ids) }) body) fresh
