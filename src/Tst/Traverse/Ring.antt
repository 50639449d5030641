-- ===== src/Tst/Traverse/Ring.antt =====
-- What the ring of `tst_traverse` holds: the pointers from `q_start` on, going round at `q_max`.
use native.Mathlib.Nat.{
  mod-add-mod, mod-eq_of_lt, mod-eq-sub-mod, mod-lt, add-zero, zero-add, add_assoc,
}
use native.Mathlib.Numerals.{add-one, one-add}
use mathlib.Core.Path.{ap₂}
use native.Mathlib.Decide.{dec_lt}
use mongrel.Prelude.{
  ℕ, zero, suc, ◌+◌, ◌-◌, ◌*◌, ◌%◌, ◌<◌, ◌≤◌, ◌≡◌, ◌≢◌, refl, ap, sym, ◌∙◌, List, [], ◌∷◌, ◌++◌,
  arith, update, update_self, update_ne, append-nil,
}
use mongrel.Tst.{Tst, leaf, node}
use mongrel.Tst.Traverse.{Walk, copy_loop, resize_queue, blank, advance, grow, push}

-- Fewer than `m` steps round the ring do not come back to the same place.
round-ne : (h k m : ℕ) → h < m → 0 < k → k < m → (h + k) % m ≢ h
round-ne h k m hm p q = elim (dec_lt (h + k) m) [
  | yes r ↦ omega (arith, mod-eq_of_lt r)
  | no r ↦
      let back = mod-eq-sub-mod {n = h + k} {m = m} (omega arith) in
      let small = mod-eq_of_lt {n = h + k - m} {m = m} (omega arith) in omega arith
]

place-ne : (h m k n : ℕ) → k < n → n < m → (h + k) % m ≢ (h + n) % m
place-ne h m k n p q e =
    round-ne ((h + k) % m) (n - k) m (mod-lt (h + k) (omega arith)) (omega arith) (omega arith)
      (mod-add-mod (h + k) m (n - k) ∙ ap (λ t. t % m) (omega arith) ∙ sym e)

module _ {ℓ} {A : Type ℓ} where
  -- the `n` pointers from place `i` after `h` on
  abbrev pub window : (ℕ → Tst A) → ℕ → ℕ → ℕ → ℕ → List (Tst A)
  window a m h i zero = []
  window a m h i (suc n) = a ((h + i) % m) ∷ window a m h (i + 1) n

  abbrev pub contents : Walk A → List (Tst A)
  contents w = window w.queue w.q_max w.q_start 0 w.q_size

  window-ext :
      (a b : ℕ → Tst A) (m m' h h' i i' n : ℕ)
      → ((k : ℕ) → k < n → a ((h + (i + k)) % m) ≡ b ((h' + (i' + k)) % m'))
      → window a m h i n ≡ window b m' h' i' n
  window-ext a b m m' h h' i i' zero same = refl
  window-ext a b m m' h h' i i' (suc n) same = ap₂ ◌∷◌ (simp add-zero at (same 0 (omega arith))) (
      window-ext a b m m' h h' (i + 1) (i' + 1) n
        (λ k lt. rw (add_assoc, add_assoc, one-add) (same (suc k) (omega arith))))

  window-snoc :
      (a : ℕ → Tst A) (m h i n : ℕ)
      → window a m h i (suc n) ≡ window a m h i n ++ a ((h + (i + n)) % m) ∷ []
  window-snoc a m h i zero = rw add-zero
  window-snoc a m h i (suc n) =
      ap (λ t. a ((h + i) % m) ∷ t) (window-snoc a m h (i + 1) n ∙ rw (add_assoc, one-add))

  -- a pointer written behind the last one is the new last one
  window-push :
      (a : ℕ → Tst A) (m h n : ℕ) (t : Tst A)
      → n < m
      → window (update a ((h + n) % m) t) m h 0 (n + 1) ≡ window a m h 0 n ++ t ∷ []
  window-push a m h n t lt = rw add-one (
      window-snoc (update a ((h + n) % m) t) m h 0 n
      ∙ ap₂ (λ p q. p ++ q ∷ [])
          (window-ext (update a ((h + n) % m) t) a m m h h 0 0 n (λ k below.
            update_ne a ((h + n) % m) ((h + (0 + k)) % m) t
              (λ e. place-ne h m k n below lt (sym (rw zero-add at e)))))
          (update_self a ((h + n) % m) ((h + (0 + n)) % m) t (rw zero-add)))

  -- a step of `q_start` drops the first pointer
  window-advance : (a : ℕ → Tst A) (m h n : ℕ) → window a m ((h + 1) % m) 0 n ≡ window a m h 1 n
  window-advance a m h n =
      window-ext a a m m ((h + 1) % m) h 0 1 n
        (λ k lt. ap a (rw (zero-add, mod-add-mod, add_assoc)))

  copy_loop-below :
      (n i j : ℕ) (q : ℕ → Tst A) (s m : ℕ) (new : ℕ → Tst A)
      → j < i
      → copy_loop n i q s m new j ≡ new j
  unfolding copy_loop
  copy_loop-below zero i j q s m new lt = refl
  copy_loop-below (suc n) i j q s m new lt =
      copy_loop-below n (i + 1) j q s m (update new i (q ((i + s) % m))) (omega arith)
      ∙ update_ne new i j (q ((i + s) % m)) (omega arith)

  copy_loop_lem :
      (n i j : ℕ) (q : ℕ → Tst A) (s m : ℕ) (new : ℕ → Tst A)
      → i ≤ j
      → j < i + n
      → copy_loop n i q s m new j ≡ q ((j + s) % m)
  unfolding copy_loop
  copy_loop_lem zero i j q s m new le lt = absurd (omega arith)
  copy_loop_lem (suc n) i j q s m new le lt = elim (dec_lt i j) [
    | yes r ↦
        copy_loop_lem n (i + 1) j q s m (update new i (q ((i + s) % m))) (omega arith) (omega arith)
    | no r ↦
        let same : i ≡ j = omega arith in
        copy_loop-below n (i + 1) j q s m (update new i (q ((i + s) % m))) (omega arith)
        ∙ update_self new i j (q ((i + s) % m)) same
        ∙ ap (λ t. q ((t + s) % m)) same
  ]

  -- the new queue holds what the old one held
  window-resize_queue :
      (q : ℕ → Tst A) (s n m : ℕ)
      → n ≤ m
      → window (resize_queue q s n m) (m * 2) 0 0 n ≡ window q m s 0 n
  unfolding resize_queue
  window-resize_queue q s n m le =
      window-ext (copy_loop n 0 q s m blank) q (m * 2) m 0 s 0 0 n (λ k lt.
        rw (zero-add, zero-add, mod-eq_of_lt {n = k} {m = m * 2} (omega arith))
          (copy_loop_lem n 0 k q s m blank (omega arith) (omega arith)
            ∙ ap (λ t. q (t % m)) (omega arith)))

  -- the ring is in order, and `q_max` is not so small that doubling leaves no room for three
  pub record IsRing (w : Walk A) : Type 0 where
    pub start_in : w.q_start < w.q_max
    pub size_in : w.q_size ≤ w.q_max
    pub roomy : 3 ≤ w.q_max

  -- no more than a pointer for each node that is pushed
  abbrev pub kid : Tst A → List (Tst A)
  kid leaf = []
  kid (node x l e h v) = node x l e h v ∷ []

  -- `tst_traverse` writes behind the last pointer, inside the ring.
  pub push_lem :
      (t : Tst A) (w : Walk A)
      → IsRing w
      → w.q_size < w.q_max
      → IsRing (push t w)
        × (contents (push t w) ≡ contents w ++ kid t)
        × (w.q_size ≤ (push t w).q_size)
        × ((push t w).q_size ≤ w.q_size + 1)
        × ((push t w).q_max ≡ w.q_max)
  unfolding push
  push_lem leaf w v lt = (v, sym (append-nil _), omega arith, omega arith, refl)
  push_lem (node x l e h y) w v lt = (
    omega arith,
    window-push w.queue w.q_max w.q_start w.q_size (node x l e h y) lt,
    omega arith,
    omega arith,
    refl,
  )

  -- Taking the first pointer leaves the others.
  pub advance_lem :
      (w : Walk A)
      → IsRing w
      → 0 < w.q_size
      → IsRing (advance w)
        × (contents w ≡ w.queue w.q_start ∷ contents (advance w))
        × ((advance w).q_size + 1 ≡ w.q_size)
  unfolding advance
  advance_lem w v lt =
      let full : w.q_size ≡ suc (w.q_size - 1) = omega arith in
      (
        record {
          start_in = mod-lt (w.q_start + 1) (omega arith);
          size_in = omega arith;
          roomy = v.roomy;
        },
        ap (λ n. window w.queue w.q_max w.q_start 0 n) full
            ∙ ap₂ ◌∷◌ (ap w.queue (rw add-zero (mod-eq_of_lt v.start_in)))
                (sym (window-advance w.queue w.q_max w.q_start (w.q_size - 1))),
        omega arith,
      )

  -- Doubling keeps the pointers and their order, and then three more fit.
  pub grow_lem :
      (w : Walk A)
      → IsRing w
      → IsRing (grow w)
        × (contents (grow w) ≡ contents w)
        × ((grow w).q_size ≡ w.q_size)
        × ((grow w).q_size + 3 ≤ (grow w).q_max)
  unfolding grow
  grow_lem w v = ground (arith, window-resize_queue w.queue w.q_start w.q_size w.q_max)
