-- ===== src/Dir/Find/Checks.antt =====
-- `FileRecord_cache_check` of src/dir.c keeps the counts of the users.
use mongrel.Prelude.{
  ℕ, ◌+◌, ◌<◌, ◌≡◌, refl, sym, ap, Bool, true, false, Option, none, some, List, count, ltb, ◌==◌,
  if◌then◌else◌, arith, update, subst,
}
use mongrel.Strings.{Bstring, Strings}
use mongrel.Tst.Insert.{same_key}
use mongrel.Cache.{lookup, evict_object}
use mongrel.Cache.Holds.{cached, lookup-hit, lookup-cached, lookup-evicted, evict_object-cached}
use mongrel.Dir.Files.{Files, Dir, Store}
use mongrel.Dir.Find.{with_cache, check_file, cache_check, changed, time_to_live}
use mongrel.Dir.Find.Held.{refs, Counted, with_cache-Counted, same-Counted}

module _ {W : Type 0} (o : Files W) (lib : Strings) (dir : Dir) where
  evict-Counted :
      (held : List ℕ) (a : ℕ) (w : W) (s : Store W)
      → Counted held s
      → Counted held (with_cache (evict_object (λ b. b == a) s.cache) (record s { world = w }))
  evict-Counted held a w s h =
      let gone = λ (b : ℕ). evict_object-cached b (λ c. c == a) s.cache h.evicts in
      with_cache-Counted held (refs held s) (evict_object (λ b. b == a) s.cache)
        (record s { world = w }) (gone 0).1 (λ b. omega (arith, (gone b).0, ap (count b) h.settled))
        (record {
          users_of = h.tracks.users_of;
          freed_of = h.tracks.freed_of;
          unused = h.tracks.unused;
        })

  -- what a look into the cache leaves: a file that it answers is in the cache
  abbrev pub Checked : List ℕ → Option ℕ × Store W → Type 0
  Checked held (none, s) = Counted held s
  Checked held (some a, s) = Counted held s × (0 < cached a s.cache)

  check_file-Checked :
      (held : List ℕ) (a : ℕ) (s : Store W)
      → Counted held s
      → 0 < cached a s.cache
      → Checked held (check_file o lib dir a s)
  unfolding check_file
  check_file-Checked held a s h p =
      split (ltb ((s.heap a).loaded + time_to_live) now)
        (changed o lib dir (s.heap a).sb (o.stat (s.heap a).full_path w).0)
    where
      w : W
      w = (o.time s.world).1

      now : ℕ
      now = (o.time s.world).0

      w' : W
      w' = (o.stat (s.heap a).full_path w).1

      split :
          (late stale : Bool)
          → Checked held (
              if late
              then (if stale
                  then (
                    none,
                    with_cache (evict_object (λ b. b == a) s.cache) (record s { world = w' }),
                  )
                  else (
                    some a,
                    record s {
                      world = w';
                      heap = update s.heap a (record (s.heap a) { loaded = now });
                    },
                  ))
              else (some a, record s { world = w }))
      split false stale = (same-Counted held s _ (λ b. refl) refl refl (λ b. refl) refl refl h, p)
      split true true = evict-Counted held a w' s h
      split true false =
          (same-Counted held s _ (λ b. ground arith) refl refl (λ b. refl) refl refl h, p)

  pub cache_check-Checked :
      (held : List ℕ) (path : Bstring) (s : Store W)
      → Counted held s
      → Checked held (cache_check o lib dir path s)
  unfolding cache_check
  cache_check-Checked held path s h =
      let is_path = λ (a : ℕ). same_key (s.heap a).request_path path in
      let c = (lookup is_path s.cache).1 in
      let kept = lookup-evicted is_path s.cache in
      let t : Counted held (record s { cache = c }) =
        same-Counted held s _ (λ b. refl) refl refl (λ b. lookup-cached b is_path s.cache) kept.1
          kept.0 h in
      split (lookup is_path s.cache).0 t (λ a e.
        subst (λ n. 0 < n) (sym (lookup-cached a is_path s.cache))
          (lookup-hit a is_path s.cache e).0)
    where
      split :
          (r : Option ℕ)
          → Counted held
              (record s { cache = (lookup (λ a. same_key (s.heap a).request_path path) s.cache).1 })
          → ((a : ℕ)
              → r ≡ some a
              → 0 < cached a (lookup (λ a. same_key (s.heap a).request_path path) s.cache).1)
          → Checked held (elim r [
            | none ↦ (
              none,
              record s { cache = (lookup (λ a. same_key (s.heap a).request_path path) s.cache).1 },
            )
            | some a ↦ check_file o lib dir a (record s {
              cache = (lookup (λ a. same_key (s.heap a).request_path path) s.cache).1;
            })
          ])
      split none t p = t
      split (some a) t p = check_file-Checked held a _ t (p a refl)
