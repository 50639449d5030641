-- ===== src/SuperPoll/Hot.antt =====
-- `SuperPoll_poll` of src/superpoll.c takes the items that are ready out of the hot ones, and no other.
use mongrel.Prelude.{
  ℕ, zero, suc, ◌+◌, ◌≡◌, refl, ◌∙◌, Bool, true, false, not, ◌&&◌, some, List, [], ◌∷◌, ◌++◌, ◌==◌,
  if◌then◌else◌, Bool-cases, inl, inr, arith,
}
use mongrel.SuperPoll.{
  Item, SuperPoll, Kernel, Polled, compact_down, last_of, others_of, skip, same_fd, poll_loop,
}

-- how many items meet a test
abbrev pub count_if : (Item → Bool) → List Item → ℕ
count_if p [] = 0
count_if p (x ∷ l) = (if p x then 1 else 0) + count_if p l

abbrev pub ready : Item → Bool
ready x = not (x.revents == 0)

count_if-append :
    (p : Item → Bool) (l m : List Item) → count_if p (l ++ m) ≡ count_if p l + count_if p m
count_if-append p [] m = omega arith
count_if-append p (x ∷ l) m = omega (arith, count_if-append p l m)

count_if-last :
    (p : Item → Bool) (x : Item) (l : List Item)
    → count_if p (last_of x l ∷ others_of x l) ≡ count_if p (x ∷ l)
count_if-last p x [] = refl
count_if-last p x (y ∷ l) = omega (arith, count_if-last p y l)

-- the last item takes the place of the first, which goes
count_if-compact_down :
    (p : Item → Bool) (x : Item) (l : List Item) → count_if p (compact_down (x ∷ l)) ≡ count_if p l
unfolding compact_down
count_if-compact_down p x [] = refl
count_if-compact_down p x (y ∷ l) = count_if-last p y l

-- the first item that is ready, where there is one
record First (before after : List Item) : Type 0 where
  passed : List Item
  item : Item
  more : List Item
  found : skip before after ≡ (passed, item ∷ more)
  is_ready : ready item ≡ true
  kept :
      (p : Item → Bool)
      → count_if p passed + count_if p (item ∷ more) ≡ count_if p before + count_if p after
  unready : count_if ready passed ≡ count_if ready before

skip-First : (before after : List Item) (n : ℕ) → count_if ready after ≡ suc n → First before after
unfolding skip
skip-First before [] n h = absurd (omega arith)
skip-First before (x ∷ l) n h = elim (Bool-cases (x.revents == 0)) [
  | inl z ↦
      let rest = skip-First (before ++ (x ∷ [])) l n (ground (arith, z)) in
      record {
        passed = rest.passed;
        item = rest.item;
        more = rest.more;
        found = ground (arith, rest.found, z);
        is_ready = rest.is_ready;
        kept = λ p. omega (arith, rest.kept p, count_if-append p before (x ∷ []));
        unready = ground (arith, rest.unready, count_if-append ready before (x ∷ []), z);
      }
  | inr r ↦ record {
    passed = before;
    item = x;
    more = l;
    found = ground (arith, r);
    is_ready = ground (arith, r);
    kept = λ p. refl;
    unready = refl;
  }
]

module _ {W : Type 0} (kernel : Kernel W) where
  abbrev pub idle_ready : SuperPoll → Item → Bool
  idle_ready sp x = ready x && same_fd kernel x.fd sp.idle_fd

  abbrev pub waiting : (Item → Bool) → Item → Bool
  waiting p x = p x && not (ready x)

  abbrev pub hitting : (Item → Bool) → Item → Bool
  hitting p x = p x && ready x

  none_ready :
      (p : Item → Bool) (l : List Item)
      → count_if ready l ≡ 0
      → (count_if p l ≡ count_if (waiting p) l) × (count_if (hitting p) l ≡ 0)
  none_ready p [] h = (refl, refl)
  none_ready p (x ∷ l) h =
      let (stay, hit) = none_ready p l (omega arith) in
      let unready : ready x ≡ false = ground arith in
      (ground (arith, unready, stay), ground (arith, unready, hit))

  -- Where `nfound` is the number of the items that are ready, and the idle descriptor is none of them,
  -- the loop ends without an error: the hits are the ready items, each as often as it is there, and
  -- the items that stay are the others.
  pub poll_loop_takes_ready :
      (n : ℕ) (before after hits : List Item) (hit_idle : Bool) (sp : SuperPoll) (w : W)
      → count_if ready before ≡ 0
      → count_if ready after ≡ n
      → count_if (idle_ready sp) (before ++ after) ≡ 0
      → (r : Polled kernel) × (poll_loop kernel n before after hits hit_idle sp w ≡ some r)
        × (r.failed ≡ false)
        × ((p : Item → Bool) → count_if p r.left ≡ count_if (waiting p) (before ++ after))
        × ((p : Item → Bool)
            → count_if p r.hits ≡ count_if p hits + count_if (hitting p) (before ++ after))
  unfolding poll_loop
  poll_loop_takes_ready zero before after hits hit_idle sp w b a i =
      let none_there : count_if ready (before ++ after) ≡ 0 =
        omega (arith, count_if-append ready before after) in
      (
        _,
        refl,
        refl,
        λ p. (none_ready p (before ++ after) none_there).0,
        λ p. omega (arith, (none_ready p (before ++ after) none_there).1),
      )
  poll_loop_takes_ready (suc n) before after hits hit_idle sp w b a i =
      let f = skip-First before after n a in
      let swapped = compact_down (f.item ∷ f.more) in
      let down = λ (p : Item → Bool). count_if-compact_down p f.item f.more in
      let one : count_if ready f.more ≡ n = ground (arith, f.kept ready, f.unready, f.is_ready) in
      let other : same_fd kernel f.item.fd sp.idle_fd ≡ false =
        ground (
          arith,
          f.kept (idle_ready sp),
          count_if-append (idle_ready sp) before after,
          f.is_ready,
        ) in
      let clear : count_if (idle_ready sp) (f.passed ++ swapped) ≡ 0 = omega (
        arith,
        f.kept (idle_ready sp),
        count_if-append (idle_ready sp) before after,
        count_if-append (idle_ready sp) f.passed swapped,
        down (idle_ready sp),
      ) in
      let (r, e, good, left, hit) =
        poll_loop_takes_ready n f.passed swapped (f.item ∷ hits) hit_idle sp w (f.unready ∙ b)
          (down ready ∙ one) clear in
      (
        r,
        ground (arith, f.found, other, e),
        good,
        λ p.
            let stays : ◌≡◌ {A = ℕ} (if waiting p f.item then 1 else 0) 0 =
              ground (arith, f.is_ready) in
            omega (
              arith,
              left p,
              f.kept (waiting p),
              stays,
              down (waiting p),
              count_if-append (waiting p) before after,
              count_if-append (waiting p) f.passed swapped,
            ),
        λ p.
            let goes : ◌≡◌ {A = ℕ} (if hitting p f.item then 1 else 0) (if p f.item then 1 else 0) =
              ground (arith, f.is_ready) in
            omega (
              arith,
              hit p,
              f.kept (hitting p),
              goes,
              down (hitting p),
              count_if-append (hitting p) before after,
              count_if-append (hitting p) f.passed swapped,
            ),
      )
