-- ===== src/Cache.antt =====
-- src/cache.c: the cache of file records. Its `arr` of `size` entries is `first` and `rest`, so the
-- size is 1 or more, as in src/dir.c. The callback `lookup(data, key)` of a key is a test on data; the data that
-- is passed to the callback `evict` is kept in order, the last first. A NULL callback, which
-- `Cache_create` refuses for `lookup`, is `evicts = false` for `evict`. Allocation is taken to succeed.
pub mod Holds
pub mod Least
use mongrel.Prelude.{
  ℕ, zero, suc, ◌+◌, ◌-◌, ◌^◌, Bool, true, false, Option, none, some, List, [], ◌∷◌, map, ltb,
  if◌then◌else◌,
}

abbrev pub int_max : ℕ
int_max = 2 ^ 31 - 1

-- `struct cache_entry`
pub record Entry {ℓ} (D : Type ℓ) : Type ℓ where
  pub tag : ℕ
  pub data_of : Option D

pub record Cache {ℓ} (D : Type ℓ) : Type ℓ where
  pub first : Entry D
  pub rest : List (Entry D)
  pub evicts : Bool
  pub evicted : List D

module _ {ℓ} {D : Type ℓ} where
  abbrev fill : ℕ → List (Entry D)
  fill zero = []
  fill (suc n) = record { tag = int_max; data_of = none } ∷ fill n

  -- `Cache_create` of size `n + 1`
  unfoldable pub create : ℕ → Bool → Cache D
  create n evicts = record {
    first = record { tag = int_max; data_of = none };
    rest = fill n;
    evicts = evicts;
    evicted = [];
  }

  -- `if(cache->evict) cache->evict(data)`, for data that may be NULL
  abbrev pub evict_data : Option D → Cache D → Cache D
  evict_data none c = c
  evict_data (some d) c = if c.evicts then record c { evicted = d ∷ c.evicted } else c

  evict_all : List (Entry D) → Cache D → Cache D
  evict_all [] c = c
  evict_all (e ∷ es) c = evict_all es (evict_data e.data_of c)

  -- `Cache_destroy`: what has been evicted by its end
  destroy : Cache D → List D
  unfolding evict_all
  destroy c = (evict_all (c.first ∷ c.rest) c).evicted

  -- `if(tag > 0) tag--`
  abbrev pub age : Entry D → Entry D
  age e = record e { tag = e.tag - 1 }

  abbrev pub hits : (D → Bool) → Option D → Bool
  hits is_key none = false
  hits is_key (some d) = is_key d

  -- the two loops of `Cache_lookup`
  unfoldable pub lookup_loop : (D → Bool) → List (Entry D) → Option D × List (Entry D)
  lookup_loop is_key [] = (none, [])
  lookup_loop is_key (e ∷ es) =
      let (d, es') = lookup_loop is_key es in
      if hits is_key e.data_of
      then (e.data_of, record e { tag = int_max } ∷ map age es)
      else (d, age e ∷ es')

  -- the entries back into the record
  abbrev pub with_entries : List (Entry D) → Cache D → Cache D
  with_entries [] c = c
  with_entries (e ∷ es) c = record c { first = e; rest = es }

  -- `Cache_lookup`
  unfoldable pub lookup : (D → Bool) → Cache D → Option D × Cache D
  lookup is_key c = let (d, es) = lookup_loop is_key (c.first ∷ c.rest) in (d, with_entries es c)

  -- the loop of `Cache_add`, from `i` on: its `min_idx`
  unfoldable pub min_index : ℕ → ℕ → ℕ → List (Entry D) → ℕ
  min_index min_tag min_idx i [] = min_idx
  min_index min_tag min_idx i (e ∷ es) =
      if ltb e.tag min_tag
      then min_index e.tag i (i + 1) es
      else min_index min_tag min_idx (i + 1) es

  -- the data at an index, and the entries with new data there
  abbrev pub data_at : ℕ → List (Entry D) → Option D
  data_at i [] = none
  data_at zero (e ∷ es) = e.data_of
  data_at (suc i) (e ∷ es) = data_at i es

  abbrev pub put_at : ℕ → Option D → ℕ → List (Entry D) → List (Entry D)
  put_at i d t [] = []
  put_at zero d t (e ∷ es) = record { tag = t; data_of = d } ∷ es
  put_at (suc i) d t (e ∷ es) = e ∷ put_at i d t es

  -- `Cache_add` of data that is not NULL
  unfoldable pub add : D → Cache D → Cache D
  add d c =
      let es = c.first ∷ c.rest in
      let k = min_index c.first.tag 0 1 c.rest in
      with_entries (put_at k (some d) int_max (map age es)) (evict_data (data_at k es) c)

  -- an entry of `Cache_evict_object`; `is_obj` is `data == obj`
  abbrev pub forget : (D → Bool) → Entry D → Entry D
  forget is_obj e = if hits is_obj e.data_of then record { tag = 0; data_of = none } else e

  abbrev pub evict_hit : (D → Bool) → Entry D → Cache D → Cache D
  evict_hit is_obj e c = if hits is_obj e.data_of then evict_data e.data_of c else c

  pub evict_loop : (D → Bool) → List (Entry D) → Cache D → Cache D
  evict_loop is_obj [] c = c
  evict_loop is_obj (e ∷ es) c = evict_loop is_obj es (evict_hit is_obj e c)

  -- `Cache_evict_object`
  unfoldable pub evict_object : (D → Bool) → Cache D → Cache D
  unfolding evict_loop
  evict_object is_obj c =
      let es = c.first ∷ c.rest in with_entries (map (forget is_obj) es) (evict_loop is_obj es c)
