-- ===== src/Cache/Holds.antt =====
-- How often the cache of src/cache.c holds a pointer, and how often it evicts it.
use mongrel.Prelude.{
  ℕ, zero, suc, ◌+◌, ◌<◌, ◌≡◌, refl, ◌∙◌, ap, sym, Bool, true, Option, none, some, List, [], ◌∷◌,
  map, count, ◌==◌, if◌then◌else◌, arith,
}
use mongrel.Cache.{
  Entry, Cache, age, hits, lookup_loop, lookup, data_at, put_at, add, with_entries, evict_data,
  evict_object, evict_loop, evict_hit, forget, fill, create, int_max,
}
use mongrel.Cache.Least.{tag_at, add-takes-IsLeast}

-- how often a pointer that may be NULL is `a`
abbrev pub is_it : ℕ → Option ℕ → ℕ
is_it a none = 0
is_it a (some b) = if b == a then 1 else 0

-- how often entries hold `a`
abbrev pub held_in : ℕ → List (Entry ℕ) → ℕ
held_in a [] = 0
held_in a (e ∷ es) = is_it a e.data_of + held_in a es

abbrev pub cached : ℕ → Cache ℕ → ℕ
cached a c = held_in a (c.first ∷ c.rest)

held_in-age : (a : ℕ) (es : List (Entry ℕ)) → held_in a (map age es) ≡ held_in a es
held_in-age a [] = refl
held_in-age a (e ∷ es) = omega (arith, held_in-age a es)

held_in-lookup_loop :
    (a : ℕ) (is_key : ℕ → Bool) (es : List (Entry ℕ))
    → held_in a (lookup_loop is_key es).1 ≡ held_in a es
unfolding lookup_loop
held_in-lookup_loop a is_key [] = refl
held_in-lookup_loop a is_key (e ∷ es) =
    ground (arith, held_in-age a es, held_in-lookup_loop a is_key es)

lookup_loop-first :
    (is_key : ℕ → Bool) (e : Entry ℕ) (es : List (Entry ℕ))
    → (lookup_loop is_key (e ∷ es)).0
      ≡ (if hits is_key e.data_of then e.data_of else (lookup_loop is_key es).0)
unfolding lookup_loop
lookup_loop-first is_key e es = ground arith

lookup_loop-hit :
    (a : ℕ) (is_key : ℕ → Bool) (es : List (Entry ℕ))
    → (lookup_loop is_key es).0 ≡ some a
    → (0 < held_in a es) × (is_key a ≡ true)
unfolding lookup_loop
lookup_loop-hit a is_key [] h = cc
lookup_loop-hit a is_key (e ∷ es) h =
    split e.data_of (sym (lookup_loop-first is_key e es) ∙ h) (lookup_loop-hit a is_key es)
  where
    split :
        (d : Option ℕ)
        → (if hits is_key d then d else (lookup_loop is_key es).0) ≡ some a
        → ((lookup_loop is_key es).0 ≡ some a → (0 < held_in a es) × (is_key a ≡ true))
        → (0 < is_it a d + held_in a es) × (is_key a ≡ true)
    split none k ih = let (l, m) = ih k in (omega arith, m)
    split (some b) k ih = ground arith

pub lookup-hit :
    (a : ℕ) (is_key : ℕ → Bool) (c : Cache ℕ)
    → (lookup is_key c).0 ≡ some a
    → (0 < cached a c) × (is_key a ≡ true)
unfolding lookup
lookup-hit a is_key c h = lookup_loop-hit a is_key (c.first ∷ c.rest) h

pub lookup-cached :
    (a : ℕ) (is_key : ℕ → Bool) (c : Cache ℕ) → cached a (lookup is_key c).1 ≡ cached a c
unfolding lookup lookup_loop
lookup-cached a is_key c = ground (arith, held_in-age a c.rest, held_in-lookup_loop a is_key c.rest)

pub lookup-evicted :
    (is_key : ℕ → Bool) (c : Cache ℕ)
    → ((lookup is_key c).1.evicted ≡ c.evicted) × ((lookup is_key c).1.evicts ≡ c.evicts)
unfolding lookup lookup_loop
lookup-evicted is_key c = ground arith

held_in-put_at :
    (a d k t : ℕ) (es : List (Entry ℕ))
    → (s : ℕ) × (tag_at k es ≡ some s)
    → held_in a (put_at k (some d) int_max (map age es)) + is_it a (data_at k es)
      ≡ held_in a es + is_it a (some d)
held_in-put_at a d k t [] h = ground arith
held_in-put_at a d zero t (e ∷ es) h = omega (arith, held_in-age a es)
held_in-put_at a d (suc k) t (e ∷ es) h = omega (arith, held_in-put_at a d k t es h)

count-evict_data :
    (a : ℕ) (o : Option ℕ) (c : Cache ℕ)
    → c.evicts ≡ true
    → count a (evict_data o c).evicted ≡ is_it a o + count a c.evicted
count-evict_data a none c h = omega arith
count-evict_data a (some b) c h = ground arith

-- `Cache_add` of `d` evicts the one pointer that it replaces, if there is one.
pub add-cached :
    (a d : ℕ) (c : Cache ℕ)
    → c.evicts ≡ true
    → cached a (add d c) + count a (add d c).evicted
      ≡ cached a c + is_it a (some d) + count a c.evicted
add-cached a d c h =
    let (k, t, found, least, laid, gone) = add-takes-IsLeast d c in
    let es = c.first ∷ c.rest in
    let one = count-evict_data a (data_at k es) c h in
    let now : cached a (add d c) ≡ held_in a (put_at k (some d) int_max (map age es)) =
      ap (held_in a) laid in
    let ev : count a (add d c).evicted ≡ count a (evict_data (data_at k es) c).evicted =
      ap (count a) gone in
    omega (arith, held_in-put_at a d k t es (t, found))

evict_hit-cached :
    (a : ℕ) (is_obj : ℕ → Bool) (e : Entry ℕ) (c : Cache ℕ)
    → c.evicts ≡ true
    → (count a (evict_hit is_obj e c).evicted + is_it a (forget is_obj e).data_of
        ≡ count a c.evicted + is_it a e.data_of)
      × ((evict_hit is_obj e c).evicts ≡ true)
evict_hit-cached a is_obj e c h = split e.data_of
  where
    split :
        (d : Option ℕ)
        → (count a (if hits is_obj d then evict_data d c else c).evicted
              + is_it a
                  (if hits is_obj d
                    then record { tag = 0; data_of = none }
                    else record e { data_of = d }).data_of
            ≡ count a c.evicted + is_it a d)
          × ((if hits is_obj d then evict_data d c else c).evicts ≡ true)
    split none = (omega arith, h)
    split (some b) = (ground arith, ground arith)

evict_loop-cached :
    (a : ℕ) (is_obj : ℕ → Bool) (es : List (Entry ℕ)) (c : Cache ℕ)
    → c.evicts ≡ true
    → (count a (evict_loop is_obj es c).evicted + held_in a (map (forget is_obj) es)
        ≡ count a c.evicted + held_in a es)
      × ((evict_loop is_obj es c).evicts ≡ true)
unfolding evict_loop
evict_loop-cached a is_obj [] c h = (omega arith, h)
evict_loop-cached a is_obj (e ∷ es) c h =
    let (one, kept) = evict_hit-cached a is_obj e c h in
    let (all, still) = evict_loop-cached a is_obj es (evict_hit is_obj e c) kept in
    (omega arith, still)

-- What `Cache_evict_object` takes out of the cache it evicts.
pub evict_object-cached :
    (a : ℕ) (is_obj : ℕ → Bool) (c : Cache ℕ)
    → c.evicts ≡ true
    → (cached a (evict_object is_obj c) + count a (evict_object is_obj c).evicted
        ≡ cached a c + count a c.evicted)
      × ((evict_object is_obj c).evicts ≡ true)
unfolding evict_object
evict_object-cached a is_obj c h =
    let (all, still) = evict_loop-cached a is_obj (c.first ∷ c.rest) c h in (omega arith, still)

with_entries-evicts : (es : List (Entry ℕ)) (c : Cache ℕ) → (with_entries es c).evicts ≡ c.evicts
with_entries-evicts [] c = refl
with_entries-evicts (e ∷ es) c = refl

evict_data-evicts : (o : Option ℕ) (c : Cache ℕ) → (evict_data o c).evicts ≡ c.evicts
evict_data-evicts none c = refl
evict_data-evicts (some a) c = ground arith

pub add-evicts : (d : ℕ) (c : Cache ℕ) → (add d c).evicts ≡ c.evicts
unfolding add
add-evicts d c = with_entries-evicts _ _ ∙ evict_data-evicts _ c

held_in-fill : (a n : ℕ) → held_in a (fill n) ≡ 0
held_in-fill a zero = refl
held_in-fill a (suc n) = omega (arith, held_in-fill a n)

pub cached-create : (a n : ℕ) → cached a (create n true) ≡ 0
unfolding create
cached-create a n = omega (arith, held_in-fill a n)
