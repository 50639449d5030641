-- ===== src/Ragel.antt =====
-- The machines that Ragel compiled for src/http11 (`http11_parser.c`, `httpclient_parser.c`): the
-- block `switch ( cs )`, whose `case N` tests `*p` and jumps to a label. A label `trN` has actions
-- and then jumps to a label `stM`, which is `if ( ++p == pe ) goto _test_eofM;` before `case M`.
-- Chars are plus 128; the numbers of the tests are those of the source.
pub mod Walk
pub mod Phases
pub mod Steps
use mongrel.Prelude.{
  ℕ, zero, suc, ◌+◌, Bool, true, false, ◌&&◌, ◌||◌, not, Option, none, some, List, [], ◌∷◌, ltb,
  leb, ◌==◌, if◌then◌else◌,
}

-- a label; `fbreak` is one that leaves by `{p++; cs = N; goto _out;}`
pub data Goto (A : Type 0) : Type 0 where
  st0 : Goto A
  tr fbreak : List A → ℕ → Goto A

-- a label `stN`
abbrev pub st : {A : Type 0} → ℕ → Goto A
st n = tr [] n

-- a test of `*p`; `is` is some `case K:` of a `switch` that jump to one label
pub data Test : Type 0 where
  is : List ℕ → Test
  eq lt gt le ge : ℕ → Test
  within : ℕ → ℕ → Test

-- the code of a `case`; without an `else` the code goes on behind the `if`
pub data Switch (A : Type 0) : Type 0 where
  goto : Goto A → Switch A
  when : Test → Switch A → Switch A → Switch A

abbrev pub is_any : List ℕ → ℕ → Bool
is_any [] c = false
is_any (k ∷ ks) c = c == (k + 128) || is_any ks c

abbrev pub passes : Test → ℕ → Bool
passes (is ks) c = is_any ks c
passes (eq k) c = c == (k + 128)
passes (lt k) c = ltb c (k + 128)
passes (gt k) c = ltb (k + 128) c
passes (le k) c = leb c (k + 128)
passes (ge k) c = leb (k + 128) c
passes (within a b) c = leb (a + 128) c && leb c (b + 128)

unfoldable pub choose : {A : Type 0} → Switch A → ℕ → Goto A
choose (goto g) c = g
choose (when t a b) c =
    let yes = choose a c in let no = choose b c in if passes t c then yes else no

-- the `case` of `cs`
unfoldable pub lookup : {A : Type 0} → ℕ → List (ℕ × Switch A) → Option (Switch A)
lookup cs [] = none
lookup cs ((n, s) ∷ table) = let later = lookup cs table in if n == cs then some s else later

-- `p`, as an offset, `cs` and the parser
pub record Machine (S : Type 0) : Type 0 where
  pub p : ℕ
  pub cs : ℕ
  pub parser : S

-- where `*p` leads in the state `cs`, unless that has no `case`
unfoldable pub label : {A : Type 0} → List (ℕ × Switch A) → ℕ → ℕ → Option (Goto A)
unfolding choose lookup
label table cs c = elim (lookup cs table) [ none ↦ none | some s ↦ some (choose s c) ]

-- a list, such as the chars of a buffer, from an offset on
abbrev pub drop {ℓ} : {A : Type ℓ} → ℕ → List A → List A
drop zero l = l
drop (suc n) [] = []
drop (suc n) (c ∷ l) = drop n l

module _ {A S : Type 0} (act : A → ℕ → S → S) where
  unfoldable pub acts : List A → ℕ → S → S
  acts [] p s = s
  acts (a ∷ l) p s = acts l p (act a p s)

  -- the block, at `*p` and the chars behind it up to `pe`; a state with no `case` falls through the
  -- `switch` to the label `_test_eof2`
  unfoldable pub run : List (ℕ × Switch A) → List ℕ → Machine S → Machine S
  unfolding acts label
  run table [] m = m
  run table (c ∷ rest) m = elim (label table m.cs c) [
    | none ↦ record m { cs = 2 }
    | some st0 ↦ record m { cs = 0 }
    | some (tr l n) ↦ run table rest (record { p = m.p + 1; cs = n; parser = acts l m.p m.parser })
    | some (fbreak l n) ↦ record { p = m.p + 1; cs = n; parser = acts l m.p m.parser }
  ]
