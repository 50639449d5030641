-- ===== src/SuperPoll/Idle.antt =====
-- The idle slots of src/superpoll.c: `assert(… == sp->max_idle && "We lost one somewhere.")`.
use mongrel.Prelude.{
  ℕ, ◌+◌, ◌<◌, ◌≤◌, ◌≡◌, ◌⊎◌, inl, inr, refl, ◌∙◌, Bool, true, false, List, [], ◌∷◌, ◌++◌, count,
  ◌==◌, if◌then◌else◌, arith,
}
use mongrel.SuperPoll.{Item, EpollEvent, epoll_del, SuperPoll, Kernel, list_delete, idle_loop}

count-append : (n : ℕ) (l m : List ℕ) → count n (l ++ m) ≡ count n l + count n m
count-append n [] m = omega arith
count-append n (x ∷ l) m = omega (arith, count-append n l m)

List-cases : (l : List ℕ) → (l ≡ []) ⊎ ((m : ℕ) × (k : List ℕ) × (l ≡ m ∷ k))
List-cases [] = inl refl
List-cases (m ∷ k) = inr (m, k, refl)

module _ {W : Type 0} (kernel : Kernel W) where
  -- how often a slot is in the two lists
  abbrev pub slots : SuperPoll → ℕ → ℕ
  slots sp n = count n sp.idle_free + count n sp.idle_active

  count-list_delete :
      (n m : ℕ) (l : List ℕ)
      → 0 < count m l
      → count n (list_delete kernel m l) + (if m == n then 1 else 0) ≡ count n l
  unfolding list_delete
  count-list_delete n m [] h = absurd (omega arith)
  count-list_delete n m (k ∷ l) h = ground (arith, count-list_delete n m l)

  abbrev pub nodes : List EpollEvent → List ℕ
  nodes [] = []
  nodes (e ∷ es) = e.node ∷ nodes es

  -- The loop over the events of `epoll_wait`, each of a node that is active, moves their slots back
  -- and loses none: a slot is in the two lists together as often as before, also where `epoll_ctl` fails.
  pub slots-idle_loop :
      (es : List EpollEvent) (revents : ℕ) (hits : List Item) (sp : SuperPoll) (w : W) (n : ℕ)
      → ((m : ℕ) → count m (nodes es) ≤ count m sp.idle_active)
      → slots (idle_loop kernel es revents hits sp w).1.1.0 n ≡ slots sp n
  unfolding idle_loop
  slots-idle_loop [] revents hits sp w n h = refl
  slots-idle_loop (e ∷ es) revents hits sp w n h =
      let there : 0 < count e.node sp.idle_active = ground (arith, h e.node) in
      let gone = λ (m : ℕ). count-list_delete m e.node sp.idle_active there in
      let moved = count-append n sp.idle_free (e.node ∷ []) in
      round (kernel.epoll_ctl epoll_del (sp.idle_data e.node).fd 0 w).0.0 _ _ _ (
        slots-idle_loop es _ _
          (record sp {
            idle_active = list_delete kernel e.node sp.idle_active;
            idle_free = sp.idle_free ++ (e.node ∷ []);
          })
          _ n (λ m. omega (arith, h m, gone m))
        ∙ omega (arith, gone n, moved))
    where
      round :
          (good : Bool) (hits' : List Item) (w' : W) (r : Bool × (List Item × (SuperPoll × W)))
          → slots r.1.1.0 n ≡ slots sp n
          → slots (if good then r else (false, (hits', (sp, w')))).1.1.0 n ≡ slots sp n
      round true hits' w' r k = k
      round false hits' w' r k = refl
