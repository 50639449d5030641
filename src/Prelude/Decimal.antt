-- ===== src/Prelude/Decimal.antt =====
-- Numbers in decimal, as `%d` prints them and `strtoul` reads them, over chars plus 128.
use Prim.Native.Nat.{ℕ, zero, suc, ◌+◌, ◌-◌, ◌*◌, ◌/◌, ◌%◌, ◌<◌}
use Prim.Native.Char.{code}
use Prim.Native.String.{String}
use mathlib.Core.Path.{◌≡◌, refl, ap, ◌∙◌}
use mathlib.Core.Logic.{◌≢◌}
use mathlib.Core.Bool.{Bool, true, ◌&&◌}
use mathlib.Core.List.{List, [], ◌∷◌, ◌++◌}
use mongrel.Prelude.Tests.{ltb, leb, if◌then◌else◌}
use native.Mathlib.Omega.{arith}

-- the chars of an ASCII literal
abbrev pub text : String → List ℕ
text String.[] = []
text (String.◌∷◌ c s) = (code c + 128) ∷ text s

-- '0'
abbrev pub digit_zero : ℕ
digit_zero = 48 + 128

abbrev pub is_digit : ℕ → Bool
is_digit c = leb digit_zero c && leb c (digit_zero + 9)

unfoldable pub digits_loop : ℕ → ℕ → List ℕ
digits_loop zero n = []
digits_loop (suc fuel) n =
    let rest = digits_loop fuel (n / 10) in
    if ltb n 10 then (n + digit_zero) ∷ [] else rest ++ ((n % 10 + digit_zero) ∷ [])

-- `%d` of a number from 0 on
unfoldable pub decimal : ℕ → List ℕ
unfolding digits_loop
decimal n = digits_loop (suc n) n

-- the number at the front of a text, and what follows it
abbrev pub read : ℕ → List ℕ → ℕ × List ℕ
read acc [] = (acc, [])
read acc (c ∷ s) =
    let rest = read (acc * 10 + (c - digit_zero)) s in if is_digit c then rest else (acc, c ∷ s)

abbrev pub all_digits : List ℕ → Bool
all_digits [] = true
all_digits (c ∷ s) = is_digit c && all_digits s

abbrev value : ℕ → List ℕ → ℕ
value acc [] = acc
value acc (c ∷ s) = value (acc * 10 + (c - digit_zero)) s

read-digits :
    (acc : ℕ) (ds s : List ℕ) → all_digits ds ≡ true → read acc (ds ++ s) ≡ read (value acc ds) s
read-digits acc [] s h = refl
read-digits acc (d ∷ ds) s h = ground (arith, read-digits (acc * 10 + (d - digit_zero)) ds s)

value-append : (acc : ℕ) (xs ys : List ℕ) → value acc (xs ++ ys) ≡ value (value acc xs) ys
value-append acc [] ys = refl
value-append acc (x ∷ xs) ys = value-append (acc * 10 + (x - digit_zero)) xs ys

all_digits-append :
    (xs ys : List ℕ) → all_digits xs ≡ true → all_digits ys ≡ true → all_digits (xs ++ ys) ≡ true
all_digits-append [] ys h k = k
all_digits-append (x ∷ xs) ys h k = ground (arith, all_digits-append xs ys)

digits_loop-digits : (fuel n : ℕ) → all_digits (digits_loop fuel n) ≡ true
unfolding digits_loop
digits_loop-digits zero n = refl
digits_loop-digits (suc fuel) n =
    let last : all_digits ((n % 10 + digit_zero) ∷ []) ≡ true = ground arith in
    ground (
      arith,
      all_digits-append (digits_loop fuel (n / 10)) ((n % 10 + digit_zero) ∷ [])
          (digits_loop-digits fuel (n / 10)) last,
    )

digits_loop-value : (fuel n : ℕ) → n < fuel → value 0 (digits_loop fuel n) ≡ n
unfolding digits_loop
digits_loop-value zero n h = absurd (omega arith)
digits_loop-value (suc fuel) n h =
    let last = value-append 0 (digits_loop fuel (n / 10)) ((n % 10 + digit_zero) ∷ []) in
    ground (arith, digits_loop-value fuel (n / 10), last)

pub decimal-digits : (n : ℕ) → all_digits (decimal n) ≡ true
unfolding decimal
decimal-digits n = digits_loop-digits (suc n) n

-- a number is read back from its print, up to a char that is no digit
pub read-decimal : (n : ℕ) (s : List ℕ) → read 0 (decimal n ++ s) ≡ read n s
unfolding decimal
read-decimal n s =
    read-digits 0 (decimal n) s (decimal-digits n)
    ∙ ap (λ v. read v s) (digits_loop-value (suc n) n (omega arith))

snoc-some : (xs : List ℕ) (y : ℕ) → (xs ++ (y ∷ [])) ≢ []
snoc-some [] y h = cc
snoc-some (x ∷ xs) y h = cc

digits_loop-some : (fuel n : ℕ) → digits_loop (suc fuel) n ≢ []
unfolding digits_loop
digits_loop-some fuel n h =
    ground (arith, snoc-some (digits_loop fuel (n / 10)) (n % 10 + digit_zero))

-- the first digit
pub decimal-first :
    (n : ℕ)
    → (d : ℕ) × (ds : List ℕ) × (decimal n ≡ d ∷ ds) × (is_digit d ≡ true) × (all_digits ds ≡ true)
unfolding decimal
decimal-first n = split (digits_loop (suc n) n) refl (digits_loop-digits (suc n) n)
  where
    split :
        (l : List ℕ)
        → digits_loop (suc n) n ≡ l
        → all_digits l ≡ true
        → (d : ℕ) × (ds : List ℕ) × (l ≡ d ∷ ds) × (is_digit d ≡ true) × (all_digits ds ≡ true)
    split [] e h = absurd (digits_loop-some n n e)
    split (d ∷ ds) e h = (d, ds, refl, ground arith, ground arith)
