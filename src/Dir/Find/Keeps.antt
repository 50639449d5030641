-- ===== src/Dir/Find/Keeps.antt =====
-- Which files the file records of src/dir.c are for: their full paths.
use mongrel.Prelude.{
  ℕ, ◌+◌, ◌≡◌, refl, ◌∙◌, Bool, true, false, Option, none, some, List, [], ◌∷◌, ltb, ◌==◌,
  if◌then◌else◌, arith, update,
}
use mongrel.Strings.{Bstring, Strings}
use mongrel.Tst.Insert.{same_key}
use mongrel.Cache.{Cache, evict_object, lookup}
use mongrel.Dir.Files.{Files, Dir, Store}
use mongrel.Dir.Find.{
  destroy, release, release_all, with_cache, use_file, check_file, cache_check, changed,
  time_to_live,
}

module _ {W : Type 0} where
  -- operations that make no file record, and change no path
  pub record Keeps (s t : Store W) : Type 0 where
    pub next : t.next ≡ s.next
    pub path : (a : ℕ) → (t.heap a).full_path ≡ (s.heap a).full_path
    pub base : t.normalized_base ≡ s.normalized_base

  abbrev Left : Store W → Option ℕ × Store W → Type 0
  Left s r = Keeps s r.1

  pub Keeps-trans : {s t u : Store W} → Keeps s t → Keeps t u → Keeps s u
  Keeps-trans h k = record {
    next = k.next ∙ h.next;
    path = λ a. k.path a ∙ h.path a;
    base = k.base ∙ h.base;
  }

  pub release-Keeps : (a : ℕ) (s : Store W) → Keeps s (release a s)
  unfolding release destroy
  release-Keeps a s = record { next = ground arith; path = λ b. ground arith; base = ground arith }

  release_all-Keeps : (l : List ℕ) (s : Store W) → Keeps s (release_all l s)
  unfolding release_all
  release_all-Keeps [] s = record { next = refl; path = λ a. refl; base = refl }
  release_all-Keeps (a ∷ l) s =
      Keeps-trans (release_all-Keeps l s) (release-Keeps a (release_all l s))

  pub with_cache-Keeps : (c : Cache ℕ) (s : Store W) → Keeps s (with_cache c s)
  unfolding with_cache
  with_cache-Keeps c s =
      Keeps-trans (record { next = refl; path = λ a. refl; base = refl })
        (release_all-Keeps c.evicted _)

  pub use_file-Keeps : (a : ℕ) (s : Store W) → Keeps s (use_file a s)
  unfolding use_file
  use_file-Keeps a s = record { next = refl; path = λ b. ground arith; base = refl }

module _ {W : Type 0} (o : Files W) (lib : Strings) (dir : Dir) where
  world-Keeps : (w : W) (c : Cache ℕ) (s : Store W) → Keeps s (record s { world = w; cache = c })
  world-Keeps w c s = record { next = refl; path = λ a. refl; base = refl }

  check_file-Keeps : (a : ℕ) (s : Store W) → Keeps s (check_file o lib dir a s).1
  unfolding check_file
  check_file-Keeps a s =
      split (ltb ((s.heap a).loaded + time_to_live) now)
        (changed o lib dir (s.heap a).sb (o.stat (s.heap a).full_path w).0)
    where
      w : W
      w = (o.time s.world).1

      now : ℕ
      now = (o.time s.world).0

      w' : W
      w' = (o.stat (s.heap a).full_path w).1

      split :
          (late stale : Bool)
          → Left s (
              if late
              then (if stale
                  then (
                    none,
                    with_cache (evict_object (λ b. b == a) s.cache) (record s { world = w' }),
                  )
                  else (
                    some a,
                    record s {
                      world = w';
                      heap = update s.heap a (record (s.heap a) { loaded = now });
                    },
                  ))
              else (some a, record s { world = w }))
      split false stale = world-Keeps w s.cache s
      split true true = Keeps-trans (world-Keeps w' s.cache s) (with_cache-Keeps _ _)
      split true false = record { next = refl; path = λ b. ground arith; base = refl }

  pub cache_check-Keeps : (path : Bstring) (s : Store W) → Keeps s (cache_check o lib dir path s).1
  unfolding cache_check
  cache_check-Keeps path s = split (lookup (λ a. same_key (s.heap a).request_path path) s.cache).0
    where
      c : Cache ℕ
      c = (lookup (λ a. same_key (s.heap a).request_path path) s.cache).1

      split :
          (r : Option ℕ)
          → Left s (elim r [
            | none ↦ (none, record s { cache = c })
            | some a ↦ check_file o lib dir a (record s { cache = c })
          ])
      split none = world-Keeps s.world c s
      split (some a) = Keeps-trans (world-Keeps s.world c s) (check_file-Keeps a _)
