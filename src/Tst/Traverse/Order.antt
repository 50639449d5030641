-- ===== src/Tst/Traverse/Order.antt =====
-- `tst_traverse` against a walk over an unbounded queue, and what the walk visits.
use mathlib.Core.List.{Perm, perm_append_comm}
use mathlib.Core.List.Perm
use mathlib.Core.Path.{ap₂}
use mongrel.Prelude.{
  ℕ, zero, suc, ◌+◌, ◌<◌, ◌≤◌, ◌≡◌, refl, ap, sym, ◌∙◌, subst, false, Option, none, some, List, [],
  ◌∷◌, ◌++◌, append-nil, append_assoc, arith, ltb, Bool-cases, inl, inr,
}
use mongrel.Tst.{Tst, leaf, node}
use mongrel.Tst.Traverse.{
  Walk, emit, emit_some, nodes, start, traverse, walk_loop, round, push_children, push, grow,
  advance,
}
use mongrel.Tst.Traverse.Ring.{contents, kid, IsRing, push_lem, advance_lem, grow_lem}

module _ {ℓ} {A : Type ℓ} where
  abbrev pub children : Tst A → List (Tst A)
  children leaf = []
  children (node x l e h v) = kid l ++ kid e ++ kid h

  -- the walk with a list for a queue
  unfoldable pub breadth_first : ℕ → List (Tst A) → Option (List A)
  breadth_first zero q = none
  breadth_first (suc fuel) [] = some []
  breadth_first (suc fuel) (t ∷ q) = emit_some t (breadth_first fuel (q ++ children t))

  push_children_lem :
      (t : Tst A) (w : Walk A)
      → IsRing w
      → w.q_size + 3 ≤ w.q_max
      → IsRing (push_children t w) × (contents (push_children t w) ≡ contents w ++ children t)
  unfolding push_children
  push_children_lem leaf w v room = (v, sym (append-nil _))
  push_children_lem (node x l e h y) w v room =
      let (v1, c1, lo1, hi1, m1) = push_lem l w v (omega arith) in
      let (v2, c2, lo2, hi2, m2) = push_lem e (push l w) v1 (omega arith) in
      let (v3, c3, lo3, hi3, m3) = push_lem h (push e (push l w)) v2 (omega arith) in
      (v3, rw (c3, c2, c1, append_assoc, append_assoc, append_assoc) refl)

  round_lem :
      (w : Walk A)
      → IsRing w
      → 0 < w.q_size
      → IsRing (round w)
        × (contents (round w) ≡ contents (advance w) ++ children (w.queue w.q_start))
  unfolding round
  round_lem w v lt =
      let (v1, c1, s1) = advance_lem w v lt in
      let (v2, c2, s2, room) = grow_lem (advance w) v1 in
      let (v3, c3) = push_children_lem (w.queue w.q_start) (grow (advance w)) v2 room in
      (v3, rw c2 at c3)

  contents-empty : (w : Walk A) → ltb 0 w.q_size ≡ false → contents w ≡ []
  contents-empty w h = let none_left : w.q_size ≡ 0 = ground arith in rw none_left

  -- The ring and its doubling do not show: round by round the loop of `tst_traverse` is the walk
  -- over an unbounded queue.
  pub walk_loop-eq-breadth_first :
      (fuel : ℕ) (w : Walk A) → IsRing w → walk_loop fuel w ≡ breadth_first fuel (contents w)
  unfolding walk_loop breadth_first
  walk_loop-eq-breadth_first zero w v = refl
  walk_loop-eq-breadth_first (suc fuel) w v = elim (Bool-cases (ltb 0 w.q_size)) [
    | inl more ↦
        let (v1, c1, s1) = advance_lem w v (ground arith) in
        let (v2, c2) = round_lem w v (ground arith) in
        rw (more, c1)
          (ap (emit_some (w.queue w.q_start))
            (walk_loop-eq-breadth_first fuel (round w) v2 ∙ ap (breadth_first fuel) c2))
    | inr done ↦ rw (done, contents-empty w done)
  ]

  -- the values of a tree, node by node
  unfoldable pub values : Tst A → List A
  values leaf = []
  values (node x l e h v) = emit (node x l e h v) (values l ++ values e ++ values h)

  abbrev all_values : List (Tst A) → List A
  all_values [] = []
  all_values (t ∷ q) = values t ++ all_values q

  abbrev all_nodes : List (Tst A) → ℕ
  all_nodes [] = 0
  all_nodes (t ∷ q) = nodes t + all_nodes q

  -- NULL pointers are never queued
  abbrev NoLeaf : List (Tst A) → Type 0
  NoLeaf [] = Unit
  NoLeaf (leaf ∷ q) = ⊥
  NoLeaf (node _ _ _ _ _ ∷ q) = NoLeaf q

  all_values-append : (p q : List (Tst A)) → all_values (p ++ q) ≡ all_values p ++ all_values q
  all_values-append [] q = refl
  all_values-append (t ∷ p) q =
      ap (λ l. values t ++ l) (all_values-append p q)
      ∙ sym (append_assoc (values t) (all_values p) (all_values q))

  all_nodes-append : (p q : List (Tst A)) → all_nodes (p ++ q) ≡ all_nodes p + all_nodes q
  all_nodes-append [] q = omega arith
  all_nodes-append (t ∷ p) q = omega (arith, all_nodes-append p q)

  NoLeaf-append : (p q : List (Tst A)) → NoLeaf p → NoLeaf q → NoLeaf (p ++ q)
  NoLeaf-append [] q hp hq = hq
  NoLeaf-append (leaf ∷ p) q hp hq = absurd hp
  NoLeaf-append (node _ _ _ _ _ ∷ p) q hp hq = NoLeaf-append p q hp hq

  kid_lem :
      (t : Tst A) → (all_values (kid t) ≡ values t) × (all_nodes (kid t) ≡ nodes t) × NoLeaf (kid t)
  unfolding values nodes
  kid_lem leaf = (refl, refl, tt)
  kid_lem (node x l e h v) = (append-nil _, omega arith, tt)

  children_lem :
      (x : ℕ) (l e h : Tst A) (v : Option A)
      → let t = node x l e h v in
        (values t ≡ emit t (all_values (children t)))
        × (nodes t ≡ suc (all_nodes (children t)))
        × NoLeaf (children t)
  unfolding values nodes
  children_lem x l e h v =
      let (vl, nl, kl) = kid_lem l in
      let (ve, ne, ke) = kid_lem e in
      let (vh, nh, kh) = kid_lem h in
      (
        ap (emit (node x l e h v)) (
            sym (
              all_values-append (kid l ++ kid e) (kid h)
              ∙ ap₂ ◌++◌ (all_values-append (kid l) (kid e) ∙ ap₂ ◌++◌ vl ve) vh)),
        omega (arith, all_nodes-append (kid l ++ kid e) (kid h), all_nodes-append (kid l) (kid e)),
        NoLeaf-append (kid l ++ kid e) (kid h) (NoLeaf-append (kid l) (kid e) kl ke) kh,
      )

  emit-perm :
      (x : ℕ) (l e h : Tst A) (v : Option A) {p q : List A}
      → Perm p q
      → Perm (emit (node x l e h v) p) (emit (node x l e h v) q)
  emit-perm x l e h none s = s
  emit-perm x l e h (some a) s = Perm.cons a s

  emit-append :
      (x : ℕ) (l e h : Tst A) (v : Option A) (p q : List A)
      → emit (node x l e h v) p ++ q ≡ emit (node x l e h v) (p ++ q)
  emit-append x l e h none p q = refl
  emit-append x l e h (some a) p q = refl

  -- with more rounds than nodes the walk ends, and it has called back for each value once
  breadth_first_lem :
      (fuel : ℕ) (q : List (Tst A))
      → NoLeaf q
      → all_nodes q < fuel
      → (out : List A) × (breadth_first fuel q ≡ some out) × Perm out (all_values q)
  unfolding breadth_first
  breadth_first_lem zero q k lt = absurd (omega arith)
  breadth_first_lem (suc fuel) [] k lt = ([], refl, Perm.refl [])
  breadth_first_lem (suc fuel) (leaf ∷ q) k lt = absurd k
  breadth_first_lem (suc fuel) (node x l e h v ∷ q) k lt =
      let t : Tst A = node x l e h v in
      let (vt, nt, kt) = children_lem x l e h v in
      let (out, ran, same) =
        breadth_first_lem fuel (q ++ children t) (NoLeaf-append q (children t) k kt)
          (omega (arith, all_nodes-append q (children t))) in
      (
        emit t out,
        rw ran,
        Perm.trans
            (emit-perm x l e h v (
              Perm.trans (subst (Perm out) (all_values-append q (children t)) same)
                (perm_append_comm (all_values q) (all_values (children t)))))
            (rw (vt, emit-append) (Perm.refl _)),
      )

  start-IsRing : (t : Tst A) → IsRing (start t)
  start-IsRing t = omega arith

  -- `tst_traverse` ends within one round for each node, and it calls back once for each value that
  -- the tree stores: its calls are a permutation of the values.
  pub traverse-perm : (t : Tst A) → (out : List A) × (traverse t ≡ some out) × Perm out (values t)
  unfolding traverse
  traverse-perm leaf = ([], refl, unfold values in Perm.refl [])
  traverse-perm (node x l e h v) =
      let t : Tst A = node x l e h v in
      let (out, ran, same) = breadth_first_lem (suc (nodes t)) (t ∷ []) tt (omega arith) in
      (
        out,
        walk_loop-eq-breadth_first (suc (nodes t)) (start t) (start-IsRing t) ∙ ran,
        subst (Perm out) (append-nil (values t)) same,
      )
