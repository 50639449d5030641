-- ===== src/Strings.antt =====
-- The string functions that the code calls and this library does not model: those of src/bstr (the
-- Better String Library) and src/pattern.c (the matcher of Lua). A bstring is the list of its
-- chars, each a char's value plus 128; copying one is the identity.
use mongrel.Prelude.{ℕ, ◌+◌, Bool, Option, List}

abbrev pub Bstring : Type 0
Bstring = List ℕ

-- `bstrchr` and `bstrrchr` answer -1, here `none`, if the char does not occur.
pub record Strings : Type 0 where
  pub bstrchr : Bstring → ℕ → Option ℕ
  pub bstrrchr : Bstring → ℕ → Option ℕ
  pub b_head : Bstring → ℕ → Bstring
  pub b_tail : Bstring → ℕ → Bstring
  pub b_reverse : Bstring → Bstring
  pub bstring_match : Bstring → Bstring → Bool

-- '(', ')'
abbrev pub open_paren : ℕ
open_paren = 40 + 128

abbrev pub close_paren : ℕ
close_paren = 41 + 128
