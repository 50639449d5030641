-- ===== src/HandlerParser/Bounds.antt =====
-- `HandlerParser_execute` of src/handler_parser.c writes no target past its array, and takes its body
-- from the message.
use mongrel.Prelude.{
  ℕ, ◌-◌, ◌≤◌, ◌≡◌, ◌⊎◌, inl, inr, refl, sym, ap, ◌∙◌, subst, ℤ, pos, minus_one, Bool, true, false,
  some, List, [], ◌∷◌, ◌++◌, length, length-append, take, take-append, some-injective, leb, ◌==◌,
  if◌then◌else◌, Bool-cases, arith,
}
use mongrel.HandlerParser.{
  HandlerParser, Action, mark, uuid, length_done, targets_begin, identifier, targets_end, Case,
  case1, Goto, st0, tr, tr9, jump, Scan, act, acts, strtoul, Stop, stopped, wrong, overrun, run,
  finish, execute,
}

abbrev Fits : ℕ → HandlerParser → Type 0
Fits max p = (length p.targets ≤ max) × (p.target_max ≡ max)

act-Fits :
    (a : Action) (p : List ℕ) (r : Scan) (max : ℕ)
    → Fits max r.parser
    → Fits max (act a p r).1.parser
act-Fits mark p r max h = h
act-Fits uuid p r max h = h
act-Fits length_done p r max h = h
act-Fits targets_begin p r max h = h
act-Fits identifier p r max h =
    ground (arith, length-append r.parser.targets ((strtoul r.marked).0 ∷ []))
act-Fits targets_end p r max h = h

acts-Fits :
    (l : List Action) (p : List ℕ) (r : Scan) (max : ℕ)
    → Fits max r.parser
    → Fits max (acts l p r).1.parser
acts-Fits [] p r max h = h
acts-Fits (a ∷ l) p r max h =
    split (act a p r).0 (act-Fits a p r max h)
      (acts-Fits l p (act a p r).1 max (act-Fits a p r max h))
  where
    split :
        (good : Bool)
        → Fits max (act a p r).1.parser
        → Fits max (acts l p (act a p r).1).1.parser
        → Fits max (if good then acts l p (act a p r).1 else (false, (act a p r).1)).1.parser
    split true one all = all
    split false one all = one

-- what the machine leaves, begun at `s`
Left : ℕ → List ℕ → Stop → Type 0
Left max s overrun = s ≡ s
Left max s (wrong p) = Fits max p
Left max s (stopped cs p rest) =
    Fits max p × ((cs ≡ 0) ⊎ (cs ≡ 9)) × ((used : List ℕ) × (s ≡ used ++ rest))

Left-later : (max c : ℕ) (s : List ℕ) (stop : Stop) → Left max s stop → Left max (c ∷ s) stop
unfolding Left
Left-later max c s overrun h = refl
Left-later max c s (wrong p) h = h
Left-later max c s (stopped cs p rest) (f, e, (used, u)) = (f, e, (c ∷ used, ap (λ l. c ∷ l) u))

run-Left :
    (s : List ℕ) (cs : Case) (r : Scan) (max : ℕ) → Fits max r.parser → Left max s (run cs r s)
unfolding run Left
run-Left [] cs r max h = refl
run-Left (c ∷ s) cs r max h =
    split (jump cs c) (λ cs' r' f. Left-later max c s _ (run-Left s cs' r' max f))
  where
    split :
        (g : Goto)
        → ((cs' : Case) (r' : Scan) → Fits max r'.parser → Left max (c ∷ s) (run cs' r' s))
        → Left max (c ∷ s) (elim g [
          | st0 ↦ stopped 0 r.parser (c ∷ s)
          | tr9 ↦ stopped 9 r.parser s
          | tr more cs' ↦
              let (good, r') = acts more (c ∷ s) r in
              elim good [ true ↦ run cs' r' s | false ↦ wrong r'.parser ]
        ])
    split st0 ih = (h, inl refl, ([], refl))
    split tr9 ih = (h, inr refl, (c ∷ [], refl))
    split (tr more cs') ih =
        check_all (acts more (c ∷ s) r).0 (acts-Fits more (c ∷ s) r max h)
          (ih cs' (acts more (c ∷ s) r).1 (acts-Fits more (c ∷ s) r max h))
      where
        check_all :
            (good : Bool)
            → Fits max (acts more (c ∷ s) r).1.parser
            → Left max (c ∷ s) (run cs' (acts more (c ∷ s) r).1 s)
            → Left max (c ∷ s) (elim good [
              | true ↦ run cs' (acts more (c ∷ s) r).1 s
              | false ↦ wrong (acts more (c ∷ s) r).1.parser
            ])
        check_all true f l = l
        check_all false f l = f

take-front :
    (xs ys us zs : List ℕ)
    → xs ++ ys ≡ us ++ zs
    → length ys ≤ length zs
    → xs ≡ us ++ take (length zs - length ys) zs
take-front xs ys [] zs e h = sym (
    ap (λ l. take (length l - length ys) l) (sym e)
    ∙ ap (λ n. take n (xs ++ ys)) size
    ∙ take-append xs ys)
  where
    size : length (xs ++ ys) - length ys ≡ length xs
    size = omega (arith, length-append xs ys)
take-front [] ys (u ∷ us) zs e h = absurd (omega (arith, ap length e, length-append us zs))
take-front (x ∷ xs) ys (u ∷ us) zs e h =
    let same : x ≡ u = cc in
    let later : xs ++ ys ≡ us ++ zs = cc in
    ap (λ l. x ∷ l) (take-front xs ys us zs later h)
    ∙ ap (λ y. y ∷ (us ++ take (length zs - length ys) zs)) same

-- what the call returns, for the message that it was given
Result : HandlerParser → List ℕ → ℤ × HandlerParser → Type 0
Result parser message (code, p) =
    Fits parser.target_max p
    × ((code ≡ minus_one) ⊎ ((code ≡ pos 1) × ((front : List ℕ) × (message ≡ front ++ p.body))))

finish-Result :
    (parser : HandlerParser) (message behind : List ℕ) (stop : Stop) (r : ℤ × HandlerParser)
    → Left parser.target_max (message ++ behind) stop
    → finish behind stop ≡ some r
    → Result parser message r
unfolding finish Left Result
finish-Result parser message behind overrun r l e = absurd (ground arith)
finish-Result parser message behind (wrong p) r l e =
    subst (Result parser message) (some-injective _ _ e) (l, inl refl)
finish-Result parser message behind (stopped cs p rest) r (f, k, (used, u)) e =
    subst (Result parser message) (some-injective _ _ e)
      (split (Bool-cases (leb (length behind) (length rest))))
  where
    code : ℤ
    code = if cs == 0 then minus_one else if leb 9 cs then pos 1 else pos 0

    found :
        length behind ≤ length rest
        → Result parser message (code, record p { body = take (length rest - length behind) rest })
    found h = (
      f,
      elim k [
        | inl z ↦ inl (ground (arith, z))
        | inr n ↦ inr (ground (arith, n), (used, take-front message behind used rest u h))
      ],
    )

    split :
        ((leb (length behind) (length rest) ≡ true) ⊎ (leb (length behind) (length rest) ≡ false))
        → Result parser message (
            if leb (length behind) (length rest)
            then (code, record p { body = take (length rest - length behind) rest })
            else (minus_one, p))
    split (inl y) = rw y (found (ground arith))
    split (inr n) = rw n (f, inl refl)

-- Whatever the message is and whatever lies behind it: a call that returns has stored at most
-- `target_max` targets, and it returns -1, or 1 with a body that the message ends with.
pub execute_stays_inside :
    (parser : HandlerParser) (message behind : List ℕ) (code : ℤ) (p : HandlerParser)
    → execute parser message behind ≡ some (code, p)
    → (length p.targets ≤ parser.target_max)
      × (p.target_max ≡ parser.target_max)
      × ((code ≡ minus_one) ⊎ ((code ≡ pos 1) × ((front : List ℕ) × (message ≡ front ++ p.body))))
unfolding execute Result
execute_stays_inside parser message behind code p e =
    let (f, k) =
      finish-Result parser message behind _ (code, p)
        (run-Left (message ++ behind) case1 _ parser.target_max (omega arith, refl)) e in
    (f.0, f.1, k)
