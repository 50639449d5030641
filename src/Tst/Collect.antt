-- ===== src/Tst/Collect.antt =====
-- `tst_collect` of src/adt/tst.c.
pub mod Subtree
use mathlib.Core.Option
use mongrel.Prelude.{ℕ, Bool, true, Option, none, some, List, [], ◌∷◌, if◌then◌else◌}
use mongrel.Tst.{Tst, leaf, node, prefix_loop}
use mongrel.Tst.Traverse.{traverse}

module _ {ℓ} {A : Type ℓ} where
  -- `tst_collect_build` on one value; the tester has the key and its length already
  keeps : Option (A → Bool) → A → Bool
  keeps none v = true
  keeps (some tester) v = tester v

  -- the calls of `tst_collect_build` in a traversal
  build_all : Option (A → Bool) → List A → List A
  unfolding keeps
  build_all tester [] = []
  build_all tester (v ∷ vs) =
      let rest = build_all tester vs in if keeps tester v then v ∷ rest else rest

  -- `if((last && results.tester) || p)`, and which tree is traversed
  collect_from : Option (A → Bool) → Tst A → Tst A → Tst A
  collect_from tester (node x l e h v) last = node x l e h v
  collect_from none leaf last = leaf
  collect_from (some tester) leaf last = last

  -- `tst_collect`; its loop is that of `tst_search_prefix`, with the root for a first `last`
  unfoldable pub collect : Option (A → Bool) → Tst A → List ℕ → Option (List A)
  unfolding build_all collect_from prefix_loop
  collect tester root s =
      let (p, last) = prefix_loop root root s in
      Option.map (build_all tester) (traverse (collect_from tester p last))
