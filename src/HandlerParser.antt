-- ===== src/HandlerParser.antt =====
-- src/handler_parser.c: the parser of the messages of handlers, as Ragel compiled it. `case N` of the
-- code is `caseN`. A pointer into the message is the list of the chars from there on, the message's
-- and those that lie behind it in memory: the code is compiled with `noend` and tests no end. Chars
-- are plus 128.
pub mod Message
pub mod Bounds
use mongrel.Prelude.{
  ℕ, ◌+◌, ◌-◌, ◌^◌, ◌%◌, min, ℤ, pos, minus_one, Bool, true, false, ◌&&◌, ◌||◌, Option, none, some,
  List, [], ◌∷◌, ◌++◌, length, take, read, is_digit, ltb, leb, ◌==◌, if◌then◌else◌, int_of_uint32,
  negsuc, suc, zero,
}

-- `HandlerParser`: `targets` are the first `target_count`, and `body` is `body_start` with its length
pub record HandlerParser : Type 0 where
  pub targets : List ℕ
  pub target_max : ℕ
  pub uuid : Option (List ℕ)
  pub body : List ℕ

abbrev pub space : ℕ
space = 32 + 128

abbrev pub comma : ℕ
comma = 44 + 128

abbrev pub dash : ℕ
dash = 45 + 128

abbrev pub colon : ℕ
colon = 58 + 128

-- `alpha | digit | '-'`
abbrev pub is_ident_char : ℕ → Bool
is_ident_char c =
    c == dash
    || is_digit c
    || (leb (65 + 128) c && leb c (90 + 128))
    || (leb (97 + 128) c && leb c (122 + 128))

pub data Case : Type 0 where
  case1 case2 case3 case4 case5 case6 case7 case8 : Case

pub data Action : Type 0 where
  mark uuid length_done targets_begin identifier targets_end : Action

-- a `goto`: to `st0`, to a label `trN` with its actions, or to the one that leaves with `cs` 9
pub data Goto : Type 0 where
  st0 tr9 : Goto
  tr : List Action → Case → Goto

-- the tests of each `case`
abbrev jump : Case → ℕ → Goto
jump case1 c = if is_ident_char c then tr (mark ∷ []) case2 else st0
jump case2 c =
    if c == space then tr (uuid ∷ []) case3 else if is_ident_char c then tr [] case2 else st0
jump case3 c = if is_digit c then tr (mark ∷ []) case4 else st0
jump case4 c =
    if c == colon then tr (length_done ∷ []) case5 else if is_digit c then tr [] case4 else st0
jump case5 c =
    if c == comma
    then tr (targets_begin ∷ targets_end ∷ []) case6
    else if is_digit c
    then tr (targets_begin ∷ mark ∷ []) case7
    else st0
jump case6 c = if c == space then tr9 else st0
jump case7 c =
    if c == space
    then tr [] case8
    else if c == comma
    then tr (identifier ∷ targets_end ∷ []) case6
    else if is_digit c
    then tr [] case7
    else st0
jump case8 c =
    if c == comma
    then tr (identifier ∷ targets_end ∷ []) case6
    else if is_digit c
    then tr (identifier ∷ mark ∷ []) case7
    else st0

-- the variables of `HandlerParser_execute`; `marked` and `begun` are `mark` and `targets_start`
pub record Scan : Type 0 where
  pub parser : HandlerParser
  pub marked : List ℕ
  pub begun : List ℕ
  pub expected : ℤ

-- `strtoul`, which answers `ULONG_MAX` of a number that is too large, and its `endptr`
abbrev pub strtoul : List ℕ → ℕ × List ℕ
strtoul s = let (n, rest) = read 0 s in (min n (2 ^ 64 - 1), rest)

-- an `unsigned long` assigned to an `int`
abbrev pub as_int : ℕ → ℤ
as_int n = int_of_uint32 (n % 2 ^ 32)

abbrev pub is_int : ℕ → ℤ → Bool
is_int n (pos m) = n == m
is_int n (negsuc m) = false

-- what an action does at `p`; `false` where its `check` fails
abbrev act : Action → List ℕ → Scan → Bool × Scan
act mark p r = (true, record r { marked = p })
act uuid p r = (
  true,
  record r {
    parser = record r.parser { uuid = some (take (length r.marked - length p) r.marked) };
  },
)
act length_done p r =
    let (n, rest) = strtoul r.marked in (length rest == length p, record r { expected = as_int n })
act targets_begin p r = (true, record r { begun = p })
act identifier p r =
    if ltb (length r.parser.targets) r.parser.target_max
    then (
      true,
      record r {
        parser = record r.parser { targets = r.parser.targets ++ ((strtoul r.marked).0 ∷ []) };
      },
    )
    else (false, r)
act targets_end p r = (is_int (length r.begun - length p) r.expected, r)

-- the actions of a label, up to the first whose `check` fails
abbrev acts : List Action → List ℕ → Scan → Bool × Scan
acts [] p r = (true, r)
acts (a ∷ more) p r = let (good, r') = act a p r in if good then acts more p r' else (false, r')

-- How the machine stops: at `p` with `cs`, at a `check` that fails, or by reading beyond the memory.
pub data Stop : Type 0 where
  stopped : ℕ → HandlerParser → List ℕ → Stop
  wrong : HandlerParser → Stop
  overrun : Stop

pub run : Case → Scan → List ℕ → Stop
run cs r [] = overrun
run cs r (c ∷ s) = elim (jump cs c) [
  | st0 ↦ stopped 0 r.parser (c ∷ s)
  | tr9 ↦ stopped 9 r.parser s
  | tr more cs' ↦
      let (good, r') = acts more (c ∷ s) r in
      elim good [ true ↦ run cs' r' s | false ↦ wrong r'.parser ]
]

-- What `HandlerParser_execute` returns; `none` where the program would read beyond its memory.
finish : List ℕ → Stop → Option (ℤ × HandlerParser)
finish behind overrun = none
finish behind (wrong parser) = some (minus_one, parser)
finish behind (stopped cs parser p) = some (
    if leb (length behind) (length p)
    then (
      (if cs == 0 then minus_one else if leb 9 cs then pos 1 else pos 0),
      record parser { body = take (length p - length behind) p },
    )
    else (minus_one, parser))

-- `HandlerParser_execute` of a message, with what lies behind it in memory
unfoldable pub execute : HandlerParser → List ℕ → List ℕ → Option (ℤ × HandlerParser)
unfolding run finish
execute parser message behind =
    let whole = message ++ behind in
    finish behind (
      run case1
        (record {
          parser = record parser { targets = []; uuid = none };
          marked = whole;
          begun = [];
          expected = pos 0;
        })
        whole)
