-- ===== src/Tests/Files.antt =====
-- Runs of the cache.
use mongrel.Prelude.{ℕ, ◌≡◌, true, some, [], ◌∷◌, map}
use mongrel.Cache.{Cache, int_max, age, add, data_at, put_at, evict_data}
use mongrel.Cache.Least.{IsLeast, tag_at, add-takes-IsLeast}

-- 10, 20 and 30, of which 20 is the one that was used longest ago
abbrev three : Cache ℕ
three = record {
  first = record { tag = 9; data_of = some 10 };
  rest = record { tag = 4; data_of = some 20 } ∷ record { tag = 7; data_of = some 30 } ∷ [];
  evicts = true;
  evicted = [];
}

add-takes-IsLeast_example :
    let es = three.first ∷ three.rest in
    (k : ℕ) × (t : ℕ) × (tag_at k es ≡ some t)
    × IsLeast t es
    × ((add 40 three).first ∷ (add 40 three).rest ≡ put_at k (some 40) int_max (map age es))
    × ((add 40 three).evicted ≡ (evict_data (data_at k es) three).evicted)
add-takes-IsLeast_example = add-takes-IsLeast 40 three
