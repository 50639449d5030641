-- ===== src/Tst/Traverse.antt =====
-- `tst_traverse` of src/adt/tst.c: a breadth-first walk over a ring of pointers that doubles.
-- An array is a function of the index, and `q_max` its size; `calloc` is taken to succeed. The
-- result is the values that the callback is called with, in order, or `none` if the fuel ran out.
pub mod Ring
pub mod Order
use mongrel.Prelude.{
  ℕ, zero, suc, ◌+◌, ◌-◌, ◌*◌, ◌%◌, Option, none, some, List, [], ◌∷◌, ◌++◌, ltb, if◌then◌else◌,
  update,
}
use mongrel.Tst.{Tst, leaf, node}

-- MAX_TRAVERSE_SIZE
abbrev pub max_traverse_size : ℕ
max_traverse_size = 128

-- the locals of `tst_traverse`
pub record Walk {ℓ} (A : Type ℓ) : Type ℓ where
  pub queue : ℕ → Tst A
  pub q_start : ℕ
  pub q_size : ℕ
  pub q_max : ℕ

module _ {ℓ} {A : Type ℓ} where
  -- `calloc`: NULL pointers
  abbrev pub blank : ℕ → Tst A
  blank _ = leaf

  -- `for(; i < i + n; i++) new_queue[i] = queue[(i + q_start) % q_max];`
  copy_loop : ℕ → ℕ → (ℕ → Tst A) → ℕ → ℕ → (ℕ → Tst A) → ℕ → Tst A
  copy_loop zero i queue q_start q_max new_queue = new_queue
  copy_loop (suc n) i queue q_start q_max new_queue =
      copy_loop n (i + 1) queue q_start q_max (update new_queue i (queue ((i + q_start) % q_max)))

  -- `tst_resize_queue`
  resize_queue : (ℕ → Tst A) → ℕ → ℕ → ℕ → ℕ → Tst A
  unfolding copy_loop
  resize_queue queue q_start q_size q_max = copy_loop q_size 0 queue q_start q_max blank

  -- `q_start = (q_start + 1) % q_max; q_size--;`
  pub advance : Walk A → Walk A
  advance w = record w { q_start = (w.q_start + 1) % w.q_max; q_size = w.q_size - 1 }

  -- `if(q_size + 3 > q_max) …`
  pub grow : Walk A → Walk A
  unfolding resize_queue
  grow w =
      if ltb w.q_max (w.q_size + 3)
      then record {
        queue = resize_queue w.queue w.q_start w.q_size w.q_max;
        q_start = 0;
        q_size = w.q_size;
        q_max = w.q_max * 2;
      }
      else w

  -- `if(p) queue[(q_start + (q_size++)) % q_max] = p;`
  pub push : Tst A → Walk A → Walk A
  push leaf w = w
  push (node x l e h v) w = record w {
    queue = update w.queue ((w.q_start + w.q_size) % w.q_max) (node x l e h v);
    q_size = w.q_size + 1;
  }

  -- the children of `cur`
  pub push_children : Tst A → Walk A → Walk A
  unfolding push
  push_children leaf w = w
  push_children (node x l e h v) w = push h (push e (push l w))

  -- `if(cur->value) cb(cur->value, data);`
  abbrev pub emit : Tst A → List A → List A
  emit leaf out = out
  emit (node x l e h none) out = out
  emit (node x l e h (some v)) out = v ∷ out

  abbrev pub emit_some : Tst A → Option (List A) → Option (List A)
  emit_some cur none = none
  emit_some cur (some out) = some (emit cur out)

  -- one round of `while(q_size > 0)`
  pub round : Walk A → Walk A
  unfolding advance grow push_children
  round w = push_children (w.queue w.q_start) (grow (advance w))

  pub walk_loop : ℕ → Walk A → Option (List A)
  unfolding round
  walk_loop zero w = none
  walk_loop (suc fuel) w =
      let rest = emit_some (w.queue w.q_start) (walk_loop fuel (round w)) in
      if ltb 0 w.q_size then rest else some []

  -- one round for each node, and one more test
  unfoldable pub nodes : Tst A → ℕ
  nodes leaf = 0
  nodes (node x l e h v) = suc (nodes l + nodes e + nodes h)

  abbrev pub start : Tst A → Walk A
  start p = record { queue = update blank 0 p; q_start = 0; q_size = 1; q_max = max_traverse_size }

  -- `tst_traverse`
  unfoldable pub traverse : Tst A → Option (List A)
  unfolding walk_loop nodes
  traverse leaf = some []
  traverse (node x l e h v) = let p = node x l e h v in walk_loop (suc (nodes p)) (start p)
